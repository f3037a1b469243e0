-- ===== src/MqttClient/Delivery.antt =====
-- applications/mqtt: a message goes from the broker's PUBLISH to the subscriber's statistics.
use moq_veins_simulation_the.Base.{
  ℕ, ◌+◌, ◌%◌, ◌*◌, ◌^◌, ◌<◌, ◌≡◌, refl, sym, ap, ◌∙◌, arith, ℤ, [], ◌∷◌, ◌++◌, ltb, if◌then◌else◌,
  length, append-nil, flat_map, Bool-cases, inl, inr, ◌≢◌, subst, lookup, lookup-insert_same,
  lookup-insert_other, none, some, pos, ◌+ℤ◌, ◌-ℤ◌,
}
use moq_veins_simulation_the.Reader.{Bytes, Bytes-discrete}
use moq_veins_simulation_the.Quic.{quic, tcp, udp}
use moq_veins_simulation_the.Subscriber.Stats.{SubTrackStat, add_sample}
use moq_veins_simulation_the.MqttClient.Publishing.{Write}
use moq_veins_simulation_the.Stream.{drained, drain, push, push_all, drain_loop}
use moq_veins_simulation_the.MqttFraming.Packet.{
  MqttPacket, IsPacket, write, try_parse, drain-frame,
}
use moq_veins_simulation_the.MqttFraming.Messages.{
  MqttMessage, IsMessage, mqtt_publish, publish_body, encode_publish, encode_puback,
  parse_publish-publish_body,
}
use moq_veins_simulation_the.Broker.Fanout.{IsPacketId, handed_on}
use moq_veins_simulation_the.MqttClient.Receiving.{
  MqttSubscriber, send_now, record_message, take_publish, take_packet, take_packets, stat_of,
  subscriber_incoming,
}

-- The packet of a message.
abbrev packet_of : MqttMessage → MqttPacket
packet_of m = record { type = mqtt_publish; flags = m.qos % 4 * 2; body = publish_body m }

-- A message that the broker hands on still fits its fields.
pub handed_on-IsMessage :
    (qos n : ℕ) (m : MqttMessage)
    → IsMessage m
    → qos < 3
    → IsPacketId n
    → IsMessage (handed_on qos n m)
unfolding handed_on
handed_on-IsMessage qos n m h q i = record {
  topic = h.topic;
  packet_id = ground (arith, i);
  qos = omega (arith, q);
  no_id = λ e. ground (arith, e);
  expiry = h.expiry;
  sequence = h.sequence;
  payload_length = h.payload_length;
  not_negative = h.not_negative;
  creation_time = h.creation_time;
}

packet_of-IsPacket :
    (m : MqttMessage) → m.qos < 4 → length (publish_body m) < 2 ^ 28 → IsPacket (packet_of m)
packet_of-IsPacket m q l = record { type = omega arith; flags = omega (arith, q); fits = l }

encode_publish-write : (m : MqttMessage) → encode_publish m ≡ write (packet_of m)
unfolding encode_publish
encode_publish-write m = refl

drain_nothing : drain try_parse [] ≡ drained [] []
unfolding drain drain_loop try_parse
drain_nothing = refl

flat_map_one : (k : MqttPacket) → flat_map write (k ∷ []) ++ [] ≡ write k
unfolding mathlib.Core.List.flat_map
flat_map_one k = append-nil (write k ++ []) ∙ append-nil (write k)

encode_publish-drain :
    (m : MqttMessage)
    → m.qos < 4
    → length (publish_body m) < 2 ^ 28
    → drain try_parse (encode_publish m) ≡ drained (packet_of m ∷ []) []
unfolding push_all push
encode_publish-drain m q l =
    let k = packet_of m in
    ap (drain try_parse) (encode_publish-write m ∙ sym (flat_map_one k))
    ∙ drain-frame (k ∷ []) [] (packet_of-IsPacket m q l, tt)
    ∙ ap (push_all (k ∷ [])) drain_nothing

take_packet-publish :
    (now : ℤ) (m : MqttMessage) (s : MqttSubscriber)
    → IsMessage m
    → take_packet now (packet_of m) s
      ≡ record_message now m (
          if ltb 0 m.qos
          then send_now
              (encode_puback m.packet_id)
              (record s { publishes_received = s.publishes_received + 1 })
          else record s { publishes_received = s.publishes_received + 1 })
unfolding take_packet take_publish
take_packet-publish now m s h = rw (parse_publish-publish_body m h, take_publish) refl

acknowledged :
    (qos n : ℕ) (m : MqttMessage) (s : MqttSubscriber)
    → (if ltb 0 (handed_on qos n m).qos
        then send_now (encode_puback (handed_on qos n m).packet_id) s
        else s)
      ≡ (if ltb 0 qos then send_now (encode_puback n) s else s)
unfolding handed_on
acknowledged qos n m s = elim (Bool-cases (ltb 0 qos)) [ inl e ↦ rw e refl | inr e ↦ rw e refl ]

subscriber_incoming-record_message :
    (now : ℤ) (qos n : ℕ) (m : MqttMessage) (s : MqttSubscriber)
    → IsMessage m
    → qos < 3
    → IsPacketId n
    → length (publish_body (handed_on qos n m)) < 2 ^ 28
    → s.recv_buf ≡ []
    → subscriber_incoming now (encode_publish (handed_on qos n m)) s
      ≡ record_message now (handed_on qos n m) (
          if ltb 0 qos
          then send_now
              (encode_puback n)
              (record s { publishes_received = s.publishes_received + 1; recv_buf = [] })
          else record s { publishes_received = s.publishes_received + 1; recv_buf = [] })
unfolding subscriber_incoming take_packets
subscriber_incoming-record_message now qos n m s h q i l e =
    let m' = handed_on qos n m in
    let fit = handed_on-IsMessage qos n m h q i in
    let d : drain try_parse (s.recv_buf ++ encode_publish m') ≡ drained (packet_of m' ∷ []) [] =
      ap (λ b. drain try_parse (b ++ encode_publish m')) e ∙ encode_publish-drain m' fit.qos l in
    rw (d, subscriber_incoming)
      (take_packet-publish now m' (record s { recv_buf = [] }) fit
        ∙ ap (record_message now m') (acknowledged qos n m _))

-- What the statistics had of a topic: nothing without an entry.
abbrev pub received_before : Bytes → MqttSubscriber → ℕ
received_before t s = elim (lookup Bytes-discrete t s.topic_stats) [
  | none ↦ 0
  | some st ↦ st.received
]

abbrev pub bytes_before : Bytes → MqttSubscriber → ℤ
bytes_before t s = elim (lookup Bytes-discrete t s.topic_stats) [
  | none ↦ pos 0
  | some st ↦ st.bytes
]

-- The call that sends bytes: on the control stream with QUIC, on the one stream otherwise.
abbrev pub call_of : MqttSubscriber → Bytes → Write
call_of s bytes = record {
  stream = elim s.proto [ quic ↦ some 0 | tcp ↦ none | udp ↦ none ];
  bytes = bytes;
}

-- What a message that came at a QoS with a packet id leaves of a subscriber.
abbrev pub Delivered : ℤ → ℕ → ℕ → MqttMessage → MqttSubscriber → MqttSubscriber → Type 0
Delivered now qos n m s s' =
    (s'.publishes_received ≡ s.publishes_received + 1)
    × (s'.recv_buf ≡ [])
    × (s'.out ≡ (if ltb 0 qos then call_of s (encode_puback n) ∷ s.out else s.out))
    × ((st : SubTrackStat) × (lookup Bytes-discrete m.topic s'.topic_stats ≡ some st)
        × (st.received ≡ received_before m.topic s + 1)
        × (st.bytes ≡ bytes_before m.topic s +ℤ m.payload_length)
        × (st.last_latency ≡ now -ℤ m.creation_time)
        × (st.last_recv ≡ now))
    × ((t : Bytes)
        → m.topic ≢ t
        → lookup Bytes-discrete t s'.topic_stats ≡ lookup Bytes-discrete t s.topic_stats)

record_message-stats :
    (now : ℤ) (m : MqttMessage) (s : MqttSubscriber)
    → ((st : SubTrackStat) × (lookup Bytes-discrete m.topic (record_message now m s).topic_stats
          ≡ some st)
        × (st.received ≡ received_before m.topic s + 1)
        × (st.bytes ≡ bytes_before m.topic s +ℤ m.payload_length)
        × (st.last_latency ≡ now -ℤ m.creation_time)
        × (st.last_recv ≡ now))
      × ((t : Bytes)
          → m.topic ≢ t
          → lookup Bytes-discrete t (record_message now m s).topic_stats
            ≡ lookup Bytes-discrete t s.topic_stats)
unfolding record_message add_sample stat_of
record_message-stats now m s =
    let st =
      add_sample m.sequence m.payload_length (now -ℤ m.creation_time) now (stat_of m.topic s) in
    (
      (
        st,
        lookup-insert_same Bytes-discrete m.topic st s.topic_stats,
        ground arith,
        ground arith,
        refl,
        refl,
      ),
      λ t d. lookup-insert_other Bytes-discrete m.topic t st s.topic_stats d,
    )

-- Where a message whose fields fit their widths is handed on by the broker at a QoS below 3
-- with a packet id in range, in a PUBLISH whose body is shorter than 2^28 bytes, a subscriber
-- with nothing in its buffer that is sent the PUBLISH counts it and has nothing left in its
-- buffer, sends one PUBACK with the packet id at a QoS above 0 and nothing at QoS 0, has one
-- message and its payload length more in the statistics of the topic, with the time from its
-- creation to now as the last latency and now as the time of the last one, and has the
-- statistics of all other topics as before.
pub subscriber_incoming-handed_on :
    (now : ℤ) (qos n : ℕ) (m : MqttMessage) (s : MqttSubscriber)
    → IsMessage m
    → qos < 3
    → IsPacketId n
    → length (publish_body (handed_on qos n m)) < 2 ^ 28
    → s.recv_buf ≡ []
    → Delivered now qos n m s (subscriber_incoming now (encode_publish (handed_on qos n m)) s)
unfolding handed_on record_message send_now
subscriber_incoming-handed_on now qos n m s h q i l e =
    let counted = record s { publishes_received = s.publishes_received + 1; recv_buf = [] } in
    subst (Delivered now qos n m s)
      (sym (subscriber_incoming-record_message now qos n m s h q i l e))
      (elim (Bool-cases (ltb 0 qos)) [
        | inl b ↦
            let x = send_now (encode_puback n) counted in
            let (topic, others) = record_message-stats now (handed_on qos n m) x in
            rw b (refl, refl, refl, topic, others)
        | inr b ↦
            let (topic, others) = record_message-stats now (handed_on qos n m) counted in
            rw b (refl, refl, refl, topic, others)
      ])
