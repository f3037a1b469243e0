-- ===== src/Tests/Mqtt.antt =====
-- The framing of models/MqttFraming.h at small messages.
use moq_veins_simulation_the.Base.{◌≡◌, refl, arith, pos, [], ◌∷◌, ◌++◌, some, flat_map}
use moq_veins_simulation_the.Stream.{drain, push_all}
use moq_veins_simulation_the.MqttFraming.Packet.{
  MqttPacket, IsPacket, write, try_parse, drain-frame,
}
use moq_veins_simulation_the.MqttFraming.Messages.{
  MqttMessage, IsMessage, mqtt_publish, publish_body, parse_publish, parse_publish-publish_body,
}

abbrev pub packet_1 : MqttPacket
packet_1 = record { type = 8; flags = 2; body = 0 ∷ 1 ∷ 0 ∷ [] }

pub packet_1-IsPacket : IsPacket packet_1
packet_1-IsPacket = record { type = omega arith; flags = omega arith; fits = omega arith }

drain-frame_example :
    drain try_parse (flat_map write (packet_1 ∷ packet_1 ∷ []) ++ (32 ∷ []))
    ≡ push_all (packet_1 ∷ packet_1 ∷ []) (drain try_parse (32 ∷ []))
drain-frame_example =
    drain-frame (packet_1 ∷ packet_1 ∷ []) (32 ∷ []) (packet_1-IsPacket, (packet_1-IsPacket, tt))

abbrev pub message_1 : MqttMessage
message_1 = record {
  topic = b'v' ∷ b'/' ∷ b'l' ∷ [];
  packet_id = 12;
  qos = 1;
  message_expiry_interval = 3;
  sequence = pos 40;
  payload_length = pos 2;
  creation_time = pos 5000;
}

pub message_1-IsMessage : IsMessage message_1
message_1-IsMessage = record {
  topic = omega arith;
  packet_id = omega arith;
  qos = omega arith;
  no_id = λ e. omega (arith, e);
  expiry = omega arith;
  sequence = omega arith;
  payload_length = omega arith;
  not_negative = (2, refl);
  creation_time = omega arith;
}

parse_publish-publish_body_example :
    parse_publish (record { type = mqtt_publish; flags = 2; body = publish_body message_1 })
    ≡ some message_1
parse_publish-publish_body_example = parse_publish-publish_body message_1 message_1-IsMessage
