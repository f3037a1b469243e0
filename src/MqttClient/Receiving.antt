-- ===== src/MqttClient/Receiving.antt =====
-- applications/mqtt/MqttSubscriberApp.{h,cc}: the subscription and the receive loop.
use moq_veins_simulation_the.Base.{
  ℕ, ◌+◌, ◌%◌, ◌^◌, ℤ, pos, ◌-ℤ◌, Bool, true, false, ◌||◌, List, [], ◌∷◌, ◌++◌, Option, none, some,
  ltb, ◌==◌, if◌then◌else◌, lookup, insert,
}
use moq_veins_simulation_the.Reader.{Bytes, Bytes-discrete}
use moq_veins_simulation_the.Stream.{drained, past_end, stuck, drain}
use moq_veins_simulation_the.Quic.{Protocol, quic, tcp, udp, control_stream}
use moq_veins_simulation_the.MqttFraming.Packet.{MqttPacket, try_parse}
use moq_veins_simulation_the.MqttFraming.Messages.{
  MqttMessage, mqtt_connack, mqtt_publish, encode_connect, encode_subscribe, encode_puback,
  parse_publish,
}
use moq_veins_simulation_the.Subscriber.Stats.{SubTrackStat, no_samples, add_sample}
use moq_veins_simulation_the.MqttClient.Publishing.{Write}

-- `out` is the list of calls that send, the latest first.
pub record MqttSubscriber : Type 0 where
  pub proto : Protocol
  pub qos : ℕ
  pub next_packet_id : ℕ
  pub subscribed : Bool
  pub connacks_received : ℕ
  pub publishes_received : ℕ
  pub topic_filters : List Bytes
  pub deadlines : List (Bytes × ℤ)
  pub topic_stats : List (Bytes × SubTrackStat)
  pub recv_buf : Bytes
  pub out : List Write

-- sendBytes
unfoldable pub send_now : Bytes → MqttSubscriber → MqttSubscriber
send_now bytes s =
    let stream : Option ℕ = elim s.proto [ quic ↦ some control_stream | tcp ↦ none | udp ↦ none ] in
    record s { out = record { stream = stream; bytes = bytes } ∷ s.out }

-- socketEstablished
unfoldable pub subscriber_connects : Bytes → MqttSubscriber → MqttSubscriber
unfolding send_now
subscriber_connects vehicle s = send_now (encode_connect vehicle) s

unfoldable pub no_filters : MqttSubscriber → Bool
no_filters s = elim s.topic_filters [ [] ↦ true | t ∷ ts ↦ false ]

-- onConnack: the packet id counts on, on 16 bits.
unfoldable pub subscribe_once : MqttSubscriber → MqttSubscriber
unfolding send_now no_filters
subscribe_once s =
    if s.subscribed || no_filters s
    then s
    else send_now (encode_subscribe s.next_packet_id s.topic_filters s.qos)
        (record s { subscribed = true; next_packet_id = (s.next_packet_id + 1) % 2 ^ 16 })

-- `stats[m.topic]`, and the deadline that the configuration gives.
unfoldable pub stat_of : Bytes → MqttSubscriber → SubTrackStat
stat_of topic s =
    let st = elim (lookup Bytes-discrete topic s.topic_stats) as (λ x. SubTrackStat) [
      | none ↦ no_samples
      | some st ↦ st
    ] in
    record st {
      deadline = elim (lookup Bytes-discrete topic s.deadlines) [ none ↦ pos 0 | some d ↦ d ];
    }

-- recordMessage
unfoldable pub record_message : ℤ → MqttMessage → MqttSubscriber → MqttSubscriber
unfolding stat_of add_sample
record_message now m s = record s {
  topic_stats =
      insert Bytes-discrete m.topic
        (add_sample m.sequence m.payload_length (now -ℤ m.creation_time) now (stat_of m.topic s))
        s.topic_stats;
}

-- The case of a PUBLISH in handleIncoming.
unfoldable pub take_publish : ℤ → MqttPacket → MqttSubscriber → MqttSubscriber
unfolding send_now record_message
take_publish now k s =
    let counted = record s { publishes_received = s.publishes_received + 1 } in
    elim (parse_publish k) [
      | none ↦ counted
      | some m ↦
          record_message now m
            (if ltb 0 m.qos then send_now (encode_puback m.packet_id) counted else counted)
    ]

-- The body of the loop of handleIncoming.
unfoldable pub take_packet : ℤ → MqttPacket → MqttSubscriber → MqttSubscriber
unfolding subscribe_once take_publish
take_packet now k s =
    if k.type == mqtt_connack
    then subscribe_once (record s { connacks_received = s.connacks_received + 1 })
    else if k.type == mqtt_publish
    then take_publish now k s
    else s

unfoldable pub take_packets : ℤ → List MqttPacket → MqttSubscriber → MqttSubscriber
unfolding take_packet
take_packets now [] s = s
take_packets now (k ∷ ks) s = take_packets now ks (take_packet now k s)

-- handleIncoming
unfoldable pub subscriber_incoming : ℤ → Bytes → MqttSubscriber → MqttSubscriber
unfolding take_packets
subscriber_incoming now bytes s = elim (drain try_parse (s.recv_buf ++ bytes)) [
  | drained ks rest ↦ take_packets now ks (record s { recv_buf = rest })
  | past_end ↦ s
  | stuck ↦ s
]
