-- ===== src/Broker/Invariant.antt =====
-- applications/mqtt/MqttBrokerApp.cc: what every event leaves in order, and the packets that the
-- receive loop handles.
use moq_veins_simulation_the.Base.{
  ap, ◌∙◌, lookup, lookup-insert_same, lookup-insert_other, flat_map, none, some, ℕ, ◌<◌, ℤ, ◌≡◌,
  ◌≢◌, refl, arith, List, [], ◌∷◌, ◌++◌, inl, inr, ◌⊎◌, ltb, ◌==◌, insert, All, Option-cases,
  Bool-cases, ltb→lt, ℕ_discrete, if_both, ◌+◌,
}
use moq_veins_simulation_the.Reader.{Bytes, Bytes-discrete, incomplete}
use moq_veins_simulation_the.Stream.{push_all-drained, drain, drained, push_all, drain_incomplete}
use moq_veins_simulation_the.MqttFraming.Packet.{
  MqttPacket, IsPacket, write, try_parse, try_parse-IsFraming, drain-frame,
}
use moq_veins_simulation_the.MqttFraming.Messages.{
  MqttMessage, parse_publish, parse_subscribe, mqtt_connect, mqtt_subscribe, mqtt_publish,
}
use moq_veins_simulation_the.Broker.Sets.{set_insert, set_erase, Ascending}
use moq_veins_simulation_the.Broker.State.{Broker}
use moq_veins_simulation_the.Broker.Handlers.{
  topic_subscribers, subscribe_all, on_subscribe, send_to, forward_to, forward_publish, acknowledge,
  on_publish_at, on_publish, handle_packet, handle_packets, handle_incoming, buffered,
  connection_available, erase_everywhere, connection_closed,
}
use moq_veins_simulation_the.Broker.Refine.{
  BrokerEvent, opened, closed, packet, broker_step, broker_run, on_publish_at-Same,
}
use moq_veins_simulation_the.Broker.Fanout.{
  IsPacketId, IsBroker, forward_to-next, acknowledge-next, topic_subscribers-Ascending,
}

set_insert-below :
    (x n : ℕ) (xs : List ℕ) → x < n → All (λ y. x < y) xs → All (λ y. x < y) (set_insert n xs)
unfolding set_insert
set_insert-below x n [] h a = (h, tt)
set_insert-below x n (y ∷ ys) h (hy, a) = ground (arith, h, hy, a, set_insert-below x n ys h a)

below_trans : (n x : ℕ) (xs : List ℕ) → n < x → All (λ y. x < y) xs → All (λ y. n < y) xs
below_trans n x [] h a = tt
below_trans n x (y ∷ ys) h (hy, a) = (omega (arith, h, hy), below_trans n x ys h a)

pub set_insert-Ascending : (n : ℕ) (xs : List ℕ) → Ascending xs → Ascending (set_insert n xs)
unfolding set_insert Ascending
set_insert-Ascending n [] a = (tt, tt)
set_insert-Ascending n (x ∷ xs) (lt, a) = elim (Bool-cases (n == x)) [
  | inl e ↦ rw e (lt, a)
  | inr e ↦ elim (Bool-cases (ltb n x)) [
    | inl less ↦ rw (e, less) ((ltb→lt n x less, below_trans n x xs (ltb→lt n x less) lt), (lt, a))
    | inr more ↦
        rw (e, more)
          (set_insert-below x n xs (ground (arith, e, more)) lt, set_insert-Ascending n xs a)
  ]
]

set_erase-below : (x n : ℕ) (xs : List ℕ) → All (λ y. x < y) xs → All (λ y. x < y) (set_erase n xs)
unfolding set_erase
set_erase-below x n [] a = tt
set_erase-below x n (y ∷ ys) (hy, a) = ground (arith, hy, a, set_erase-below x n ys a)

pub set_erase-Ascending : (n : ℕ) (xs : List ℕ) → Ascending xs → Ascending (set_erase n xs)
unfolding set_erase Ascending
set_erase-Ascending n [] a = tt
set_erase-Ascending n (x ∷ xs) (lt, a) =
    ground (arith, lt, a, set_erase-Ascending n xs a, set_erase-below x n xs lt)

abbrev pub Sets : List (Bytes × List ℕ) → Type 0
Sets = All (λ (p : Bytes × List ℕ). Ascending p.1)

insert-Sets :
    (t : Bytes) (ids : List ℕ) (m : List (Bytes × List ℕ))
    → Ascending ids
    → Sets m
    → Sets (insert Bytes-discrete t ids m)
unfolding insert
insert-Sets t ids [] h a = (h, tt)
insert-Sets t ids ((u, js) ∷ m) h (hj, a) = ground (arith, h, hj, a, insert-Sets t ids m h a)

subscribe_all-Sets :
    (id : ℕ) (ts : List Bytes) (m : List (Bytes × List ℕ)) → Sets m → Sets (subscribe_all id ts m)
unfolding subscribe_all
subscribe_all-Sets id [] m a = a
subscribe_all-Sets id (t ∷ ts) m a =
    subscribe_all-Sets id ts _
      (insert-Sets t _ m (set_insert-Ascending id _ (topic_subscribers-Ascending t m a)) a)

erase_everywhere-Sets : (id : ℕ) (m : List (Bytes × List ℕ)) → Sets m → Sets (erase_everywhere id m)
unfolding erase_everywhere
erase_everywhere-Sets id [] a = tt
erase_everywhere-Sets id ((t, ids) ∷ m) (h, a) =
    (set_erase-Ascending id ids h, erase_everywhere-Sets id m a)

forward_publish-next :
    (m : MqttMessage) (ids : List ℕ) (s : Broker)
    → IsPacketId s.next_packet_id
    → IsPacketId (forward_publish m ids s).next_packet_id
unfolding forward_publish
forward_publish-next m [] s h = h
forward_publish-next m (id ∷ ids) s h =
    forward_publish-next m ids (forward_to m id s) (forward_to-next m id s h)

on_publish_at-next :
    (at now : ℤ) (id : ℕ) (k : MqttPacket) (s : Broker)
    → IsPacketId s.next_packet_id
    → IsPacketId (on_publish_at at now id k s).next_packet_id
unfolding on_publish_at
on_publish_at-next at now id k s h = elim (Option-cases (parse_publish k)) [
  | inl e ↦ rw (e, on_publish_at) h
  | inr (m, e) ↦
      let counted = record s { publishes_received = s.publishes_received + 1 } in
      let acked = acknowledge id m counted in
      let h' : IsPacketId acked.next_packet_id = rw (acknowledge-next id m counted) h in
      let rest =
        forward_publish-next m (topic_subscribers m.topic acked.subscribers_by_topic) acked h' in
      rw (e, on_publish_at) (ground (arith, rest, h'))
]

on_subscribe-IsBroker :
    (id : ℕ) (k : MqttPacket) (s : Broker) → IsBroker s → IsBroker (on_subscribe id k s)
unfolding on_subscribe send_to
on_subscribe-IsBroker id k s w = elim (Option-cases (parse_subscribe k)) [
  | inl e ↦ rw (e, on_subscribe) (record { next_packet_id = w.next_packet_id; topics = w.topics })
  | inr ((packet_id, topics, qos), e) ↦
      rw (e, on_subscribe)
        (record {
          next_packet_id = w.next_packet_id;
          topics = subscribe_all-Sets id topics s.subscribers_by_topic w.topics;
        })
]

on_publish-IsBroker :
    (now : ℤ) (id : ℕ) (k : MqttPacket) (s : Broker) → IsBroker s → IsBroker (on_publish now id k s)
unfolding on_publish
on_publish-IsBroker now id k s w =
    let same = on_publish_at-Same now now id k s in
    record {
      next_packet_id = on_publish_at-next now now id k s w.next_packet_id;
      topics = rw same.topics w.topics;
    }

handle_packet-IsBroker :
    (now : ℤ) (id : ℕ) (k : MqttPacket) (s : Broker)
    → IsBroker s
    → IsBroker (handle_packet now id k s)
unfolding handle_packet send_to
handle_packet-IsBroker now id k s w =
    if_both IsBroker (k.type == mqtt_connect) _ _
      (record { next_packet_id = w.next_packet_id; topics = w.topics })
      (if_both IsBroker (k.type == mqtt_subscribe) _ _ (on_subscribe-IsBroker id k s w)
        (if_both IsBroker (k.type == mqtt_publish) _ _ (on_publish-IsBroker now id k s w) w))

broker_step-IsBroker : (e : BrokerEvent) (s : Broker) → IsBroker s → IsBroker (broker_step e s)
unfolding broker_step connection_available connection_closed
broker_step-IsBroker (opened id) s w = record {
  next_packet_id = w.next_packet_id;
  topics = w.topics;
}
broker_step-IsBroker (closed id) s w = record {
  next_packet_id = w.next_packet_id;
  topics = erase_everywhere-Sets id s.subscribers_by_topic w.topics;
}
broker_step-IsBroker (packet now id k) s w = handle_packet-IsBroker now id k s w

-- Where the packet id that is next is in range, so not 0, and the sets of the topics ascend,
-- that stays so over any sequence of connections, packets and closed connections.
pub broker_run-IsBroker :
    (es : List BrokerEvent) (s : Broker) → IsBroker s → IsBroker (broker_run es s)
unfolding broker_run
broker_run-IsBroker [] s w = w
broker_run-IsBroker (e ∷ es) s w =
    broker_run-IsBroker es (broker_step e s) (broker_step-IsBroker e s w)

-- The packets of one connection, in their order.
unfoldable pub packets : ℤ → ℕ → List MqttPacket → List BrokerEvent
packets now id [] = []
packets now id (k ∷ ks) = packet now id k ∷ packets now id ks

handle_packets-packets :
    (now : ℤ) (id : ℕ) (ks : List MqttPacket) (s : Broker)
    → handle_packets now id ks s ≡ broker_run (packets now id ks) s
unfolding handle_packets packets broker_run broker_step
handle_packets-packets now id [] s = refl
handle_packets-packets now id (k ∷ ks) s =
    handle_packets-packets now id ks (handle_packet now id k s)

handle_packet-buffers :
    (now : ℤ) (id : ℕ) (k : MqttPacket) (s : Broker)
    → (handle_packet now id k s).recv_bufs ≡ s.recv_bufs
unfolding handle_packet send_to on_publish on_subscribe
handle_packet-buffers now id k s =
    let published = on_publish_at-Same now now id k s in ground (arith, published.buffers)

handle_packets-buffers :
    (now : ℤ) (id : ℕ) (ks : List MqttPacket) (s : Broker)
    → (handle_packets now id ks s).recv_bufs ≡ s.recv_bufs
unfolding handle_packets
handle_packets-buffers now id [] s = refl
handle_packets-buffers now id (k ∷ ks) s =
    handle_packets-buffers now id ks (handle_packet now id k s) ∙ handle_packet-buffers now id k s

-- What the broker has of a connection that it did not handle yet: nothing without an entry.
abbrev pub Unhandled : ℕ → Bytes → Broker → Type 0
Unhandled id buf s =
    (lookup ℕ_discrete id s.recv_bufs ≡ some buf)
    ⊎ ((lookup ℕ_discrete id s.recv_bufs ≡ none) × (buf ≡ []))

Unhandled-buffered : (id : ℕ) (buf : Bytes) (s : Broker) → Unhandled id buf s → buffered id s ≡ buf
unfolding buffered
Unhandled-buffered id buf s h = ground (arith, h)

-- Where the bytes that the broker has of a connection and did not handle yet (none without an
-- entry), with the bytes that arrive, are packets that fit, framed one after the other, and
-- then bytes that are no whole packet, the broker handles exactly these packets in their order,
-- then has of the connection the bytes behind them, and of other connections what it had.
pub handle_incoming-packets :
    (now : ℤ) (id : ℕ) (buf bytes rest : Bytes) (ks : List MqttPacket) (s : Broker)
    → Unhandled id buf s
    → All IsPacket ks
    → try_parse rest ≡ incomplete
    → buf ++ bytes ≡ flat_map write ks ++ rest
    → (handle_incoming now id bytes s
        ≡ broker_run
            (packets now id ks)
            (record s { recv_bufs = insert ℕ_discrete id rest s.recv_bufs }))
      × Unhandled id rest (handle_incoming now id bytes s)
      × ((j : ℕ)
          → id ≢ j
          → lookup ℕ_discrete j (handle_incoming now id bytes s).recv_bufs
            ≡ lookup ℕ_discrete j s.recv_bufs)
unfolding handle_incoming
handle_incoming-packets now id buf bytes rest ks s h a i e =
    let kept = record s { recv_bufs = insert ℕ_discrete id rest s.recv_bufs } in
    let d : drain try_parse (buffered id s ++ bytes) ≡ drained ks rest =
      ap (λ (b : Bytes). drain try_parse (b ++ bytes)) (Unhandled-buffered id buf s h)
      ∙ ap (drain try_parse) e
      ∙ drain-frame ks rest a
      ∙ ap (push_all ks) (drain_incomplete try_parse try_parse-IsFraming rest i)
      ∙ push_all-drained ks rest in
    let same = handle_packets-buffers now id ks kept in
    rw (d, handle_incoming)
      (
        handle_packets-packets now id ks kept,
        inl (ap (lookup ℕ_discrete id) same ∙ lookup-insert_same ℕ_discrete id rest s.recv_bufs),
        λ j n.
            ap (lookup ℕ_discrete j) same ∙ lookup-insert_other ℕ_discrete id j rest s.recv_bufs n,
      )
