-- ===== src/Broker/Refine.antt =====
-- applications/mqtt/MqttBrokerApp.cc against what a broker is for: who is connected, and who listens
-- to which topic.
use moq_veins_simulation_the.Base.{
  ℕ, ℤ, ◌+◌, ◌≡◌, refl, ap, ◌∙◌, arith, Bool, true, false, ◌||◌, ◌&&◌, List, [], ◌∷◌, none, some,
  inl, inr, ite, if◌then◌else◌, ◌==◌, lookup, insert, lookup-insert, Option-cases,
}
use moq_veins_simulation_the.Reader.{Bytes, Bytes-discrete}
use moq_veins_simulation_the.MqttFraming.Packet.{MqttPacket}
use moq_veins_simulation_the.MqttFraming.Messages.{
  MqttMessage, mqtt_subscribe, parse_subscribe, parse_publish,
}
use moq_veins_simulation_the.Broker.Sets.{
  set_has, set_insert, set_erase, set_has-set_insert, set_has-set_erase,
}
use moq_veins_simulation_the.Broker.State.{Broker}
use moq_veins_simulation_the.Broker.Handlers.{
  topic_subscribers, send_to, subscribe_all, on_subscribe, forward_to, forward_publish, acknowledge,
  on_publish_at, on_publish, handle_packet, connection_available, erase_everywhere,
  connection_closed,
}

-- What happens at a broker.
pub data BrokerEvent : Type 0 where
  opened closed : ℕ → BrokerEvent
  packet : ℤ → ℕ → MqttPacket → BrokerEvent

unfoldable pub broker_step : BrokerEvent → Broker → Broker
unfolding connection_available connection_closed handle_packet
broker_step (opened id) s = connection_available id s
broker_step (closed id) s = connection_closed id s
broker_step (packet now id k) s = handle_packet now id k s

unfoldable pub broker_run : List BrokerEvent → Broker → Broker
unfolding broker_step
broker_run [] s = s
broker_run (e ∷ es) s = broker_run es (broker_step e s)

-- The abstract broker: two relations, and nothing of how they are kept.
pub record Listeners : Type 0 where
  pub connected : ℕ → Bool
  pub listens : Bytes → ℕ → Bool

unfoldable pub topic_in : Bytes → List Bytes → Bool
topic_in t [] = false
topic_in t (u ∷ us) = ite (Bytes-discrete t u) true (topic_in t us)

unfoldable pub topics_of : MqttPacket → List Bytes
topics_of k = elim (parse_subscribe k) [ none ↦ [] | some (packet_id, topics, qos) ↦ topics ]

unfoldable pub replay_step : BrokerEvent → Listeners → Listeners
unfolding topic_in topics_of
replay_step (opened id) l = record l { connected = λ j. j == id || l.connected j }
replay_step (closed id) l = record {
  connected = λ j. if j == id then false else l.connected j;
  listens = λ t j. if j == id then false else l.listens t j;
}
replay_step (packet now id k) l = record l {
  listens =
      λ t j. k.type == mqtt_subscribe && (j == id && topic_in t (topics_of k)) || l.listens t j;
}

unfoldable pub replay : List BrokerEvent → Listeners → Listeners
unfolding replay_step
replay [] l = l
replay (e ∷ es) l = replay es (replay_step e l)

unfoldable pub listeners : Broker → Listeners
unfolding set_has topic_subscribers
listeners s = record {
  connected = λ j. set_has j s.sockets;
  listens = λ t j. set_has j (topic_subscribers t s.subscribers_by_topic);
}

topic_subscribers-insert :
    (t u : Bytes) (ids : List ℕ) (m : List (Bytes × List ℕ))
    → topic_subscribers u (insert Bytes-discrete t ids m)
      ≡ ite (Bytes-discrete t u) ids (topic_subscribers u m)
unfolding topic_subscribers
topic_subscribers-insert t u ids m = ground (arith, lookup-insert Bytes-discrete t u ids m)

subscribe_all_lem :
    (id j : ℕ) (t : Bytes) (ts : List Bytes) (m : List (Bytes × List ℕ))
    → set_has j (topic_subscribers t (subscribe_all id ts m))
      ≡ (j == id && topic_in t ts || set_has j (topic_subscribers t m))
unfolding subscribe_all topic_in
subscribe_all_lem id j t [] m = ground arith
subscribe_all_lem id j t (u ∷ us) m =
    let m' = insert Bytes-discrete u (set_insert id (topic_subscribers u m)) m in
    ground (
      arith,
      subscribe_all_lem id j t us m',
      topic_subscribers-insert u t (set_insert id (topic_subscribers u m)) m,
      set_has-set_insert id j (topic_subscribers u m),
    )

topic_subscribers-erase_everywhere :
    (id : ℕ) (t : Bytes) (m : List (Bytes × List ℕ))
    → topic_subscribers t (erase_everywhere id m) ≡ set_erase id (topic_subscribers t m)
unfolding topic_subscribers erase_everywhere lookup set_erase
topic_subscribers-erase_everywhere id t [] = refl
topic_subscribers-erase_everywhere id t ((u, ids) ∷ m) =
    ground (arith, topic_subscribers-erase_everywhere id t m)

-- Sending changes neither relation, nor the buffers.
pub record Same (s s' : Broker) : Type 0 where
  pub sockets : s'.sockets ≡ s.sockets
  pub topics : s'.subscribers_by_topic ≡ s.subscribers_by_topic
  pub buffers : s'.recv_bufs ≡ s.recv_bufs

pub forward_to-Same : (m : MqttMessage) (id : ℕ) (s : Broker) → Same s (forward_to m id s)
unfolding forward_to send_to
forward_to-Same m id s = record {
  sockets = ground arith;
  topics = ground arith;
  buffers = ground arith;
}

pub forward_publish-Same :
    (m : MqttMessage) (ids : List ℕ) (s : Broker) → Same s (forward_publish m ids s)
unfolding forward_publish
forward_publish-Same m [] s = record { sockets = refl; topics = refl; buffers = refl }
forward_publish-Same m (id ∷ ids) s =
    let first = forward_to-Same m id s in
    let rest = forward_publish-Same m ids (forward_to m id s) in
    record {
      sockets = rest.sockets ∙ first.sockets;
      topics = rest.topics ∙ first.topics;
      buffers = rest.buffers ∙ first.buffers;
    }

pub acknowledge-Same : (sender : ℕ) (m : MqttMessage) (s : Broker) → Same s (acknowledge sender m s)
unfolding acknowledge send_to
acknowledge-Same sender m s = record {
  sockets = ground arith;
  topics = ground arith;
  buffers = ground arith;
}

pub on_publish_at-Same :
    (at now : ℤ) (id : ℕ) (k : MqttPacket) (s : Broker) → Same s (on_publish_at at now id k s)
unfolding on_publish_at
on_publish_at-Same at now id k s = elim (Option-cases (parse_publish k)) [
  | inl e ↦ rw (e, on_publish_at) (record { sockets = refl; topics = refl; buffers = refl })
  | inr (m, e) ↦
      let counted = record s { publishes_received = s.publishes_received + 1 } in
      let acked = acknowledge id m counted in
      let same = acknowledge-Same id m counted in
      let rest =
        forward_publish-Same m (topic_subscribers m.topic acked.subscribers_by_topic) acked in
      rw (e, on_publish_at)
        (record {
          sockets = ground (arith, rest.sockets, same.sockets);
          topics = ground (arith, rest.topics, same.topics);
          buffers = ground (arith, rest.buffers, same.buffers);
        })
]

on_subscribe-listens :
    (id j : ℕ) (t : Bytes) (k : MqttPacket) (s : Broker)
    → (listeners (on_subscribe id k s)).listens t j
      ≡ (j == id && topic_in t (topics_of k) || (listeners s).listens t j)
unfolding listeners on_subscribe send_to topics_of topic_in
on_subscribe-listens id j t k s = elim (Option-cases (parse_subscribe k)) [
  | inl e ↦ rw (e, on_subscribe, topics_of) (ground arith)
  | inr ((packet_id, topics, qos), e) ↦
      rw (e, on_subscribe, topics_of) (subscribe_all_lem id j t topics s.subscribers_by_topic)
]

on_subscribe-sockets :
    (id : ℕ) (k : MqttPacket) (s : Broker) → (on_subscribe id k s).sockets ≡ s.sockets
unfolding on_subscribe send_to
on_subscribe-sockets id k s = ground arith

Listeners-ext :
    (l l' : Listeners)
    → ((j : ℕ) → l.connected j ≡ l'.connected j)
    → ((t : Bytes) (j : ℕ) → l.listens t j ≡ l'.listens t j)
    → l ≡ l'
Listeners-ext l l' c h i = record { connected = λ j. c j i; listens = λ t j. h t j i }

-- A packet changes who listens as its topics say.
handle_packet-listens :
    (now : ℤ) (id j : ℕ) (t : Bytes) (k : MqttPacket) (s : Broker)
    → (listeners (handle_packet now id k s)).listens t j
      ≡ (replay_step (packet now id k) (listeners s)).listens t j
unfolding handle_packet send_to replay_step listeners on_publish
handle_packet-listens now id j t k s =
    let published = on_publish_at-Same now now id k s in
    ground (
      arith,
      on_subscribe-listens id j t k s,
      ap (λ (m : List (Bytes × List ℕ)). set_has j (topic_subscribers t m)) published.topics,
    )

handle_packet-sockets :
    (now : ℤ) (id : ℕ) (k : MqttPacket) (s : Broker)
    → (handle_packet now id k s).sockets ≡ s.sockets
unfolding handle_packet send_to on_publish
handle_packet-sockets now id k s =
    let published = on_publish_at-Same now now id k s in
    ground (arith, on_subscribe-sockets id k s, published.sockets)

handle_packet-connected :
    (now : ℤ) (id : ℕ) (k : MqttPacket) (s : Broker) (j : ℕ)
    → (listeners (handle_packet now id k s)).connected j
      ≡ (replay_step (packet now id k) (listeners s)).connected j
unfolding listeners replay_step
handle_packet-connected now id k s j = ap (set_has j) (handle_packet-sockets now id k s)

closed-listens :
    (id : ℕ) (s : Broker) (t : Bytes) (j : ℕ)
    → (listeners (connection_closed id s)).listens t j
      ≡ (replay_step (closed id) (listeners s)).listens t j
unfolding listeners connection_closed replay_step
closed-listens id s t j =
    ap (set_has j) (topic_subscribers-erase_everywhere id t s.subscribers_by_topic)
    ∙ set_has-set_erase id j (topic_subscribers t s.subscribers_by_topic)

-- Every step of the broker is the step of the abstract broker.
broker_step_refines :
    (e : BrokerEvent) (s : Broker) → listeners (broker_step e s) ≡ replay_step e (listeners s)
unfolding broker_step
broker_step_refines (opened id) s =
    Listeners-ext _ _
      (unfold listeners connection_available replay_step in λ j. set_has-set_insert id j s.sockets)
      (unfold listeners connection_available replay_step in λ t j. refl)
broker_step_refines (closed id) s =
    Listeners-ext _ _
      (unfold listeners connection_closed replay_step in λ j. set_has-set_erase id j s.sockets)
      (closed-listens id s)
broker_step_refines (packet now id k) s =
    Listeners-ext _ _ (handle_packet-connected now id k s)
      (λ t j. handle_packet-listens now id j t k s)

-- Over any sequence of connections, packets and closed connections, who is connected to the
-- broker and who listens to which topic is what the abstract broker makes of the same sequence:
-- a connection is there until it is closed, a SUBSCRIBE adds its connection to its topics, a
-- close takes it from all of them, and nothing else counts.
pub broker_run_refines :
    (es : List BrokerEvent) (s : Broker) → listeners (broker_run es s) ≡ replay es (listeners s)
unfolding broker_run replay
broker_run_refines [] s = refl
broker_run_refines (e ∷ es) s =
    broker_run_refines es (broker_step e s) ∙ ap (replay es) (broker_step_refines e s)
