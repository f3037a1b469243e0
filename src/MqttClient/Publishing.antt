-- ===== src/MqttClient/Publishing.antt =====
-- applications/mqtt/MqttPublisherApp.{h,cc}: the outbound queue, the bursts and the receive loop.
use moq_veins_simulation_the.Base.{
  ℕ, zero, suc, ◌+◌, ℤ, pos, ◌+ℤ◌, Bool, true, false, not, ◌&&◌, List, [], ◌∷◌, ◌++◌, Option, none,
  some, ltb, ◌==◌, if◌then◌else◌, ite, length, lookup, insert, ℕ_discrete,
}
use moq_veins_simulation_the.Reader.{Bytes, Bytes-discrete}
use moq_veins_simulation_the.Stream.{drained, past_end, stuck, drain}
use moq_veins_simulation_the.Quic.{Protocol, quic, tcp, udp, control_stream}
use moq_veins_simulation_the.MqttFraming.Packet.{MqttPacket, try_parse}
use moq_veins_simulation_the.MqttFraming.Messages.{
  MqttMessage, mqtt_connack, mqtt_puback, encode_connect, encode_publish,
}
use moq_veins_simulation_the.Broker.Handlers.{next_id}
use moq_veins_simulation_the.Subscriber.Stats.{is_negative}

pub record TopicConfig : Type 0 where
  pub topic : Bytes
  pub payload_size : ℤ
  pub send_interval : ℤ
  pub messages_per_burst : ℕ
  pub expiry_interval_sec : ℕ
  pub next_sequence : ℕ
  pub timer_due : Option ℤ

pub record TopicStat : Type 0 where
  pub offered : ℕ
  pub sent : ℕ
  pub bytes_offered : ℤ
  pub first_send : ℤ
  pub last_send : ℤ

-- A call of `send`: over QUIC the stream is named.
pub record Write : Type 0 where
  pub stream : Option ℕ
  pub bytes : Bytes

-- The map of the statistics is a function. `out` is the list of calls that send, the latest first.
pub record MqttPublisher : Type 0 where
  pub proto : Protocol
  pub topics : List (ℕ × TopicConfig)
  pub stats : Bytes → TopicStat
  pub connected : Bool
  pub qos : ℕ
  pub next_packet_id : ℕ
  pub pubacks_received : ℕ
  pub recv_buf : Bytes
  pub send_queue : List Bytes
  pub timer_flush : Option ℤ
  pub flush_interval : ℤ
  pub quic_send_queue_limit : ℕ
  pub dropped_on_overflow : ℕ
  pub quic_blocked : Bool
  pub send_queue_limit_msgs : ℕ
  pub out : List Write

abbrev pub on_stream : Bytes → Write
on_stream b = record { stream = some control_stream; bytes = b }

-- The loop of flushSendQueue, `bytes_this_event` written so far.
unfoldable pub write_queue : ℕ → ℕ → List Bytes → List Write → List Bytes × List Write
write_queue limit bytes_this_event [] log = ([], log)
write_queue limit bytes_this_event (b ∷ q) log =
    let rest = write_queue limit (bytes_this_event + length b) q (on_stream b ∷ log) in
    if ltb bytes_this_event limit then rest else (b ∷ q, log)

-- `proto != PROTO_QUIC` (a broker's client speaks QUIC or TCP)
unfoldable pub is_quic : Protocol → Bool
is_quic quic = true
is_quic tcp = false
is_quic udp = false

-- flushSendQueue
unfoldable pub flush_send_queue : MqttPublisher → MqttPublisher
unfolding write_queue is_quic
flush_send_queue s =
    let (left, log) = write_queue s.quic_send_queue_limit 0 s.send_queue s.out in
    if is_quic s.proto && not s.quic_blocked then record s { send_queue = left; out = log } else s

-- `timerFlush` is scheduled while messages wait.
unfoldable pub arm_flush : ℤ → MqttPublisher → MqttPublisher
arm_flush now s = elim s.send_queue [
  | [] ↦ s
  | b ∷ q ↦ elim s.timer_flush [
    | none ↦ record s { timer_flush = some (now +ℤ s.flush_interval) }
    | some due ↦ s
  ]
]

abbrev pub tail : List Bytes → List Bytes
tail q = elim q [ [] ↦ [] | b ∷ bs ↦ bs ]

-- `push_back`, and on overflow the oldest message is dropped.
unfoldable pub push_message : Bytes → MqttPublisher → MqttPublisher
push_message bytes s =
    let queue = s.send_queue ++ (bytes ∷ []) in
    if ltb 0 s.send_queue_limit_msgs && ltb s.send_queue_limit_msgs (length queue)
    then record s { send_queue = tail queue; dropped_on_overflow = s.dropped_on_overflow + 1 }
    else record s { send_queue = queue }

-- sendBytes
unfoldable pub send_bytes : ℤ → Bytes → MqttPublisher → MqttPublisher
unfolding is_quic push_message flush_send_queue arm_flush
send_bytes now bytes s =
    if is_quic s.proto
    then arm_flush now (flush_send_queue (push_message bytes s))
    else record s { out = record { stream = none; bytes = bytes } ∷ s.out }

-- socketEstablished: the CONNECT names the car.
unfoldable pub mqtt_established : ℤ → Bytes → MqttPublisher → MqttPublisher
unfolding send_bytes
mqtt_established now vehicle s = send_bytes now (encode_connect vehicle) s

-- The case TIMER_FLUSH of handleMessageWhenUp.
unfoldable pub flush_timer : ℤ → MqttPublisher → MqttPublisher
unfolding flush_send_queue arm_flush
flush_timer now s = arm_flush now (flush_send_queue (record s { timer_flush = none }))

-- socketSendQueueFull, socketSendQueueDrain
unfoldable pub mqtt_queue_full : MqttPublisher → MqttPublisher
mqtt_queue_full s = record s { quic_blocked = true }

unfoldable pub mqtt_queue_drain : MqttPublisher → MqttPublisher
unfolding flush_send_queue
mqtt_queue_drain s = flush_send_queue (record s { quic_blocked = false })

-- The message that the loop of publishBurst makes.
unfoldable pub next_message : ℤ → ℕ → ℕ → TopicConfig → MqttMessage
next_message now qos packet_id t = record {
  topic = t.topic;
  packet_id = if ltb 0 qos then packet_id else 0;
  qos = qos;
  message_expiry_interval = t.expiry_interval_sec;
  sequence = pos t.next_sequence;
  payload_length = t.payload_size;
  creation_time = now;
}

unfoldable pub count_offer : TopicConfig → MqttPublisher → MqttPublisher
count_offer t s = record s {
  stats = λ topic.
      let st = s.stats topic in
      ite (Bytes-discrete t.topic topic)
        (record st {
          offered = st.offered + 1;
          sent = st.sent + 1;
          bytes_offered = st.bytes_offered +ℤ t.payload_size;
        })
        st;
}

-- The loop of publishBurst; `t` is the topic's entry, which the loop changes.
unfoldable pub burst_loop : ℕ → ℤ → TopicConfig → MqttPublisher → TopicConfig × MqttPublisher
unfolding next_message next_id send_bytes count_offer
burst_loop zero now t s = (t, s)
burst_loop (suc n) now t s =
    let m = next_message now s.qos s.next_packet_id t in
    let numbered = record s { next_packet_id = next_id s.qos s.next_packet_id } in
    burst_loop n now (record t { next_sequence = t.next_sequence + 1 })
      (count_offer t (send_bytes now (encode_publish m) numbered))

unfoldable pub note_burst : ℤ → Bytes → MqttPublisher → MqttPublisher
note_burst now topic s = record s {
  stats = λ u.
      let st = s.stats u in
      ite (Bytes-discrete topic u)
        (record st {
          first_send = if is_negative st.first_send then now else st.first_send;
          last_send = now;
        })
        st;
}

-- publishBurst, and the timer is scheduled again.
unfoldable pub publish_burst : ℤ → ℕ → MqttPublisher → MqttPublisher
unfolding burst_loop note_burst
publish_burst now i s = elim (lookup ℕ_discrete i s.topics) [
  | none ↦ s
  | some t ↦
      let (last, sent) = burst_loop t.messages_per_burst now t s in
      let noted = note_burst now t.topic sent in
      record noted {
        topics =
            insert ℕ_discrete i (record last { timer_due = some (now +ℤ t.send_interval) })
              noted.topics;
      }
]

-- The timer of a topic fires.
unfoldable pub topic_timer : ℤ → ℕ → MqttPublisher → MqttPublisher
unfolding publish_burst
topic_timer now i s = if s.connected then publish_burst now i s else s

unfoldable pub schedule_topics : ℤ → List (ℕ × TopicConfig) → List (ℕ × TopicConfig)
schedule_topics now [] = []
schedule_topics now ((i, t) ∷ ts) = (i, record t { timer_due = some now }) ∷ schedule_topics now ts

-- onConnack
unfoldable pub on_connack : ℤ → MqttPublisher → MqttPublisher
unfolding schedule_topics
on_connack now s = record s { connected = true; topics = schedule_topics now s.topics }

-- The body of the loop of handleIncoming.
unfoldable pub answer_packet : ℤ → MqttPacket → MqttPublisher → MqttPublisher
unfolding on_connack
answer_packet now k s =
    if k.type == mqtt_connack && not s.connected
    then on_connack now s
    else if k.type == mqtt_puback
    then record s { pubacks_received = s.pubacks_received + 1 }
    else s

unfoldable pub answer_packets : ℤ → List MqttPacket → MqttPublisher → MqttPublisher
unfolding answer_packet
answer_packets now [] s = s
answer_packets now (k ∷ ks) s = answer_packets now ks (answer_packet now k s)

-- handleIncoming
unfoldable pub publisher_incoming : ℤ → Bytes → MqttPublisher → MqttPublisher
unfolding answer_packets
publisher_incoming now bytes s = elim (drain try_parse (s.recv_buf ++ bytes)) [
  | drained ks rest ↦ answer_packets now ks (record s { recv_buf = rest })
  | past_end ↦ s
  | stuck ↦ s
]

unfoldable pub cancel_topics : List (ℕ × TopicConfig) → List (ℕ × TopicConfig)
cancel_topics [] = []
cancel_topics ((i, t) ∷ ts) = (i, record t { timer_due = none }) ∷ cancel_topics ts

-- stopPublishing
unfoldable pub stop_publishing : MqttPublisher → MqttPublisher
unfolding cancel_topics
stop_publishing s = record s {
  connected = false;
  timer_flush = none;
  topics = cancel_topics s.topics;
  send_queue = [];
}
