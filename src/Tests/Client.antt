-- ===== src/Tests/Client.antt =====
-- The MQTT clients at small inputs.
use moq_veins_simulation_the.Base.{
  ◌≡◌, refl, some, none, arith, pos, negsuc, true, false, List, [], ◌∷◌, ◌++◌, map, length, lookup,
  ℕ_discrete, inl, ◌<◌, ◌^◌, to_u64,
}
use moq_veins_simulation_the.Quic.{quic, tcp}
use moq_veins_simulation_the.MqttFraming.Messages.{MqttMessage, publish_body, encode_publish}
use moq_veins_simulation_the.Broker.Fanout.{handed_on}
use moq_veins_simulation_the.MqttClient.Publishing.{
  TopicConfig, MqttPublisher, publish_burst, is_quic,
}
use moq_veins_simulation_the.MqttClient.Queue.{
  QueueEvent, message, flush_due, fills, drains, queue_run, line, messages, IsQueued,
  queue_run-line,
}
use moq_veins_simulation_the.MqttClient.Burst.{Numbered, publish_burst-line}
use moq_veins_simulation_the.MqttClient.Receiving.{MqttSubscriber, subscriber_incoming}
use moq_veins_simulation_the.MqttClient.Delivery.{Delivered, subscriber_incoming-handed_on}
use moq_veins_simulation_the.Tests.Mqtt.{message_1, message_1-IsMessage}

abbrev topic_1 : TopicConfig
topic_1 = record {
  topic = b'v' ∷ [];
  payload_size = pos 2;
  send_interval = pos 100;
  messages_per_burst = 2;
  expiry_interval_sec = 3;
  next_sequence = 10;
  timer_due = none;
}

abbrev client_1 : MqttPublisher
client_1 = record {
  proto = quic;
  topics = (0, topic_1) ∷ [];
  stats = λ _. record {
    offered = 0;
    sent = 0;
    bytes_offered = pos 0;
    first_send = negsuc 0;
    last_send = negsuc 0;
  };
  connected = true;
  qos = 1;
  next_packet_id = 65535;
  pubacks_received = 0;
  recv_buf = [];
  send_queue = (1 ∷ []) ∷ [];
  timer_flush = none;
  flush_interval = pos 5;
  quic_send_queue_limit = 20;
  dropped_on_overflow = 0;
  quic_blocked = false;
  send_queue_limit_msgs = 0;
  out = [];
}

client_1-IsQueued : IsQueued client_1
unfolding IsQueued is_quic
client_1-IsQueued = inl refl

abbrev queue_events : List QueueEvent
queue_events =
    message (pos 1) (2 ∷ 3 ∷ [])
    ∷ fills
    ∷ message (pos 2) (4 ∷ [])
    ∷ drains
    ∷ flush_due (pos 6)
    ∷ []

queue_run-line_example :
    line (queue_run queue_events client_1) ≡ line client_1 ++ messages queue_events
queue_run-line_example = queue_run-line queue_events client_1 refl client_1-IsQueued

has_topic : lookup ℕ_discrete 0 client_1.topics ≡ some topic_1
unfolding lookup ℕ_discrete
has_topic = refl

publish_burst-line_example :
    (ms : List MqttMessage) × (length ms ≡ 2)
    × Numbered 1 10 ms
    × (line (publish_burst (pos 7) 0 client_1) ≡ line client_1 ++ map encode_publish ms)
publish_burst-line_example =
    publish_burst-line (pos 7) 0 topic_1 client_1 refl client_1-IsQueued (omega arith, omega arith)
      has_topic

abbrev reader_1 : MqttSubscriber
reader_1 = record {
  proto = tcp;
  qos = 1;
  next_packet_id = 2;
  subscribed = true;
  connacks_received = 1;
  publishes_received = 0;
  topic_filters = message_1.topic ∷ [];
  deadlines = [];
  topic_stats = [];
  recv_buf = [];
  out = [];
}

small : length (publish_body (handed_on 1 9 message_1)) < 2 ^ 28
unfolding publish_body handed_on to_u64
small = omega arith

subscriber_incoming-handed_on_example :
    Delivered
      (pos 90)
      1
      9
      message_1
      reader_1
      (subscriber_incoming (pos 90) (encode_publish (handed_on 1 9 message_1)) reader_1)
subscriber_incoming-handed_on_example =
    subscriber_incoming-handed_on (pos 90) 1 9 message_1 reader_1 message_1-IsMessage (omega arith)
      (omega arith, omega arith) small refl
