-- ===== src/Tests/Broker.antt =====
-- The MQTT broker with three connections, two of which listen to a topic.
use moq_veins_simulation_the.Base.{
  ℕ, ◌≡◌, some, arith, pos, List, [], ◌∷◌, ◌++◌, if◌then◌else◌, ◌&&◌, insert, ℕ_discrete, take,
  drop, flat_map, ◌≢◌, lookup, inl, refl,
}
use moq_veins_simulation_the.Reader.{incomplete, ◌>>=◌, get_byte}
use moq_veins_simulation_the.Quic.{quic}
use moq_veins_simulation_the.MqttFraming.Words.{put_var_int, get_var_int, get_var_loop}
use moq_veins_simulation_the.MqttFraming.Packet.{MqttPacket, try_parse, write, frame}
use moq_veins_simulation_the.MqttFraming.Messages.{
  mqtt_publish, mqtt_subscribe, publish_body, encode_publish, subscribe_body, parse_subscribe,
  parse_publish-publish_body,
}
use moq_veins_simulation_the.MqttFraming.Subscribe.{parse_subscribe-subscribe_body}
use moq_veins_simulation_the.Broker.Sets.{Ascending}
use moq_veins_simulation_the.Broker.State.{Broker}
use moq_veins_simulation_the.Broker.Handlers.{on_publish, handle_incoming}
use moq_veins_simulation_the.Broker.Refine.{
  BrokerEvent, opened, closed, packet, broker_run, listeners, replay, broker_run_refines,
}
use moq_veins_simulation_the.Broker.Fanout.{
  IsPacketId, IsBroker, sent_to, handed_on, on_publish-Reached,
}
use moq_veins_simulation_the.Broker.Invariant.{
  Unhandled, broker_run-IsBroker, packets, handle_incoming-packets,
}
use moq_veins_simulation_the.Tests.Mqtt.{
  message_1, message_1-IsMessage, packet_1, packet_1-IsPacket,
}

abbrev broker_1 : Broker
broker_1 = record {
  proto = quic;
  recv_bufs = [];
  subscribers_by_topic = (message_1.topic, 3 ∷ 5 ∷ []) ∷ [];
  sockets = 2 ∷ 3 ∷ 5 ∷ [];
  qos = 1;
  next_packet_id = 65535;
  connects_received = 0;
  subscribes_received = 0;
  publishes_received = 0;
  forwarded = 0;
  expired = 0;
  expired_by_topic = λ _. 0;
  out = [];
}

broker_1-IsBroker : IsBroker broker_1
unfolding Ascending
broker_1-IsBroker = record {
  next_packet_id = omega arith;
  topics = (((omega arith, tt), (tt, tt)), tt);
}

abbrev publish_1 : MqttPacket
publish_1 = record { type = mqtt_publish; flags = 2; body = publish_body message_1 }

abbrev subscribe_1 : MqttPacket
subscribe_1 = record {
  type = mqtt_subscribe;
  flags = 2;
  body = subscribe_body 7 (message_1.topic ∷ []) 1;
}

abbrev events_1 : List BrokerEvent
events_1 = opened 9 ∷ packet (pos 1) 9 subscribe_1 ∷ packet (pos 2) 2 publish_1 ∷ closed 3 ∷ []

broker_run_refines_example :
    listeners (broker_run events_1 broker_1) ≡ replay events_1 (listeners broker_1)
broker_run_refines_example = broker_run_refines events_1 broker_1

broker_run-IsBroker_example : IsBroker (broker_run events_1 broker_1)
broker_run-IsBroker_example = broker_run-IsBroker events_1 broker_1 broker_1-IsBroker

on_publish-Reached_example :
    (n : ℕ) × IsPacketId n
    × (sent_to 5 (on_publish (pos 7) 2 publish_1 broker_1).out ≡ (
        if (listeners broker_1).listens message_1.topic 5 && (listeners broker_1).connected 5
        then encode_publish (handed_on 1 n message_1) ∷ sent_to 5 []
        else sent_to 5 []))
on_publish-Reached_example =
    on_publish-Reached (pos 7) 2 5 publish_1 message_1 broker_1 broker_1-IsBroker
      (parse_publish-publish_body message_1 message_1-IsMessage) (λ e. omega (arith, e))

-- The first byte of a packet came before.
abbrev broker_2 : Broker
broker_2 = record broker_1 { recv_bufs = (2, take 1 (write packet_1)) ∷ [] }

has_a_byte : Unhandled 2 (take 1 (write packet_1)) broker_2
unfolding lookup ℕ_discrete
has_a_byte = inl refl

byte_of_next : try_parse (32 ∷ []) ≡ incomplete
unfolding try_parse get_var_int get_var_loop ◌>>=◌ get_byte
byte_of_next = refl

packet_1-cut :
    take 1 (write packet_1) ++ (drop 1 (write packet_1) ++ (32 ∷ []))
    ≡ flat_map write (packet_1 ∷ []) ++ (32 ∷ [])
unfolding mathlib.Core.List.flat_map frame put_var_int
packet_1-cut = refl

handle_incoming-packets_example :
    (handle_incoming (pos 7) 2 (drop 1 (write packet_1) ++ (32 ∷ [])) broker_2
      ≡ broker_run
          (packets (pos 7) 2 (packet_1 ∷ []))
          (record broker_1 { recv_bufs = insert ℕ_discrete 2 (32 ∷ []) broker_2.recv_bufs }))
    × Unhandled 2
        (32 ∷ [])
        (handle_incoming (pos 7) 2 (drop 1 (write packet_1) ++ (32 ∷ [])) broker_2)
    × ((j : ℕ)
        → 2 ≢ j
        → lookup ℕ_discrete j
            (handle_incoming (pos 7) 2 (drop 1 (write packet_1) ++ (32 ∷ [])) broker_2).recv_bufs
          ≡ lookup ℕ_discrete j broker_2.recv_bufs)
handle_incoming-packets_example =
    handle_incoming-packets (pos 7) 2 (take 1 (write packet_1))
      (drop 1 (write packet_1) ++ (32 ∷ [])) (32 ∷ []) (packet_1 ∷ []) broker_2 has_a_byte
      (packet_1-IsPacket, tt) byte_of_next packet_1-cut

parse_subscribe-subscribe_body_example :
    parse_subscribe subscribe_1 ≡ some (7, message_1.topic ∷ [], 1)
parse_subscribe-subscribe_body_example =
    parse_subscribe-subscribe_body 7 1 message_1.topic [] (omega arith) (omega arith, tt)
