-- ===== src/Broker/Handlers.antt =====
-- applications/mqtt/MqttBrokerApp.cc: connections, the receive loop, SUBSCRIBE and PUBLISH.
use moq_veins_simulation_the.Base.{
  ℕ, Bool, ◌+◌, ◌*◌, ◌%◌, ◌^◌, ℤ, pos, ◌-ℤ◌, ltb_ℤ, List, [], ◌∷◌, ◌++◌, Option, none, some, ltb,
  ◌==◌, if◌then◌else◌, length, lookup, insert, erase, bump, ℕ_discrete, ◌&&◌,
}
use moq_veins_simulation_the.Reader.{Bytes, Bytes-discrete}
use moq_veins_simulation_the.Stream.{drained, past_end, stuck, drain}
use moq_veins_simulation_the.Quic.{quic, tcp, udp, control_stream}
use moq_veins_simulation_the.MqttFraming.Packet.{MqttPacket, try_parse}
use moq_veins_simulation_the.MqttFraming.Messages.{
  MqttMessage, mqtt_connect, mqtt_publish, mqtt_subscribe, encode_connack, encode_suback,
  encode_puback, encode_publish, parse_subscribe, parse_publish,
}
use moq_veins_simulation_the.Broker.Sets.{set_has, set_insert, set_erase}
use moq_veins_simulation_the.Broker.State.{Broker}

-- `subscribersByTopic[t]`, which is empty where there is no entry.
unfoldable pub topic_subscribers : Bytes → List (Bytes × List ℕ) → List ℕ
topic_subscribers t m = elim (lookup Bytes-discrete t m) [ none ↦ [] | some ids ↦ ids ]

-- sendTo
unfoldable pub send_to : ℕ → Bytes → Broker → Broker
send_to id bytes s =
    let stream : Option ℕ = elim s.proto [ quic ↦ some control_stream | tcp ↦ none | udp ↦ none ] in
    record s { out = record { to = id; stream = stream; bytes = bytes } ∷ s.out }

-- `for (const auto& t : topics) subscribersByTopic[t].insert(socketId);`
unfoldable pub subscribe_all : ℕ → List Bytes → List (Bytes × List ℕ) → List (Bytes × List ℕ)
unfolding topic_subscribers set_insert
subscribe_all id [] m = m
subscribe_all id (t ∷ ts) m =
    subscribe_all id ts (insert Bytes-discrete t (set_insert id (topic_subscribers t m)) m)

-- The case MQTT_SUBSCRIBE of handleIncoming.
unfoldable pub on_subscribe : ℕ → MqttPacket → Broker → Broker
unfolding subscribe_all send_to
on_subscribe id k s =
    let counted = record s { subscribes_received = s.subscribes_received + 1 } in
    elim (parse_subscribe k) [
      | none ↦ counted
      | some (packet_id, topics, qos) ↦
          send_to id (encode_suback packet_id (length topics) qos) (record counted {
            subscribers_by_topic = subscribe_all id topics s.subscribers_by_topic;
          })
    ]

-- The onward message: the broker's QoS, and a packet id where that QoS has one.
unfoldable pub onward : MqttMessage → Broker → MqttMessage
onward m s = record m { qos = s.qos; packet_id = if ltb 0 s.qos then s.next_packet_id else 0 }

-- `nextPacketId++` on 16 bits, and 0 is skipped.
unfoldable pub next_id : ℕ → ℕ → ℕ
next_id qos n =
    let after = if ltb 0 qos then (n + 1) % 2 ^ 16 else n in if after == 0 then 1 else after

-- The loop of onPublish over the subscribers of the topic.
unfoldable pub forward_to : MqttMessage → ℕ → Broker → Broker
unfolding set_has send_to onward next_id
forward_to m id s =
    if set_has id s.sockets
    then send_to id (encode_publish (onward m s))
        (record s { next_packet_id = next_id s.qos s.next_packet_id; forwarded = s.forwarded + 1 })
    else s

unfoldable pub forward_publish : MqttMessage → List ℕ → Broker → Broker
unfolding forward_to
forward_publish m [] s = s
forward_publish m (id ∷ ids) s = forward_publish m ids (forward_to m id s)

-- `messageExpiryInterval > 0` and the wait in the broker is longer. simtime_t counts picoseconds.
unfoldable pub has_expired : ℤ → ℤ → MqttMessage → Bool
has_expired received_at now m =
    ltb 0 m.message_expiry_interval
    && ltb_ℤ (pos (m.message_expiry_interval * 10 ^ 12)) (now -ℤ received_at)

-- A PUBLISH that has a packet id is acknowledged.
unfoldable pub acknowledge : ℕ → MqttMessage → Broker → Broker
unfolding send_to
acknowledge sender m s = if ltb 0 m.qos then send_to sender (encode_puback m.packet_id) s else s

-- onPublish, entered at `received_at` and with the clock at `now` where the expiry is tested. The
-- two are one moment: no time passes inside an event.
unfoldable pub on_publish_at : ℤ → ℤ → ℕ → MqttPacket → Broker → Broker
unfolding forward_publish topic_subscribers has_expired acknowledge
on_publish_at received_at now sender k s =
    let counted = record s { publishes_received = s.publishes_received + 1 } in
    elim (parse_publish k) [
      | none ↦ counted
      | some m ↦
          let acked = acknowledge sender m counted in
          if has_expired received_at now m
          then record acked {
            expired = acked.expired + 1;
            expired_by_topic = bump Bytes-discrete m.topic acked.expired_by_topic;
          }
          else forward_publish m (topic_subscribers m.topic acked.subscribers_by_topic) acked
    ]

unfoldable pub on_publish : ℤ → ℕ → MqttPacket → Broker → Broker
unfolding on_publish_at
on_publish now sender k s = on_publish_at now now sender k s

-- The body of the loop of handleIncoming.
unfoldable pub handle_packet : ℤ → ℕ → MqttPacket → Broker → Broker
unfolding on_subscribe on_publish send_to
handle_packet now id k s =
    if k.type == mqtt_connect
    then send_to id encode_connack (record s { connects_received = s.connects_received + 1 })
    else if k.type == mqtt_subscribe
    then on_subscribe id k s
    else if k.type == mqtt_publish
    then on_publish now id k s
    else s

unfoldable pub handle_packets : ℤ → ℕ → List MqttPacket → Broker → Broker
unfolding handle_packet
handle_packets now id [] s = s
handle_packets now id (k ∷ ks) s = handle_packets now id ks (handle_packet now id k s)

-- `recvBufs[socketId]`, which is empty where there is no entry.
unfoldable pub buffered : ℕ → Broker → Bytes
buffered id s = elim (lookup ℕ_discrete id s.recv_bufs) [ none ↦ [] | some b ↦ b ]

-- handleIncoming: the bytes join the connection's buffer, and the packets in it are handled in
-- their order. What a handler does leaves the buffers alone.
unfoldable pub handle_incoming : ℤ → ℕ → Bytes → Broker → Broker
unfolding handle_packets buffered
handle_incoming now id bytes s = elim (drain try_parse (buffered id s ++ bytes)) [
  | drained ks rest ↦
      handle_packets now id ks (record s { recv_bufs = insert ℕ_discrete id rest s.recv_bufs })
  | past_end ↦ s
  | stuck ↦ s
]

-- socketConnectionAvailable, socketAvailable
unfoldable pub connection_available : ℕ → Broker → Broker
unfolding set_insert
connection_available id s = record s { sockets = set_insert id s.sockets }

unfoldable pub erase_everywhere : ℕ → List (Bytes × List ℕ) → List (Bytes × List ℕ)
unfolding set_erase
erase_everywhere id [] = []
erase_everywhere id ((t, ids) ∷ m) = (t, set_erase id ids) ∷ erase_everywhere id m

-- socketClosed, of QUIC and of TCP
unfoldable pub connection_closed : ℕ → Broker → Broker
unfolding erase_everywhere set_erase
connection_closed id s = record s {
  subscribers_by_topic = erase_everywhere id s.subscribers_by_topic;
  recv_bufs = erase ℕ_discrete id s.recv_bufs;
  sockets = set_erase id s.sockets;
}
