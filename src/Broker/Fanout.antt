-- ===== src/Broker/Fanout.antt =====
-- applications/mqtt/MqttBrokerApp.cc: whom a PUBLISH reaches, and with which packet ids.
use moq_veins_simulation_the.Base.{
  ℕ, ◌+◌, ◌^◌, ◌<◌, ℤ, ◌-ℤ◌, ◌≡◌, ◌≢◌, refl, arith, Bool, false, ◌&&◌, List, [], ◌∷◌, some, inl,
  inr, if◌then◌else◌, ltb, ◌==◌, lookup, All, Bool-cases,
}
use moq_veins_simulation_the.Reader.{Bytes}
use moq_veins_simulation_the.MqttFraming.Packet.{MqttPacket}
use moq_veins_simulation_the.MqttFraming.Messages.{MqttMessage, encode_publish, parse_publish}
use moq_veins_simulation_the.Broker.Sets.{set_has, Ascending}
use moq_veins_simulation_the.Broker.State.{Sent, Broker}
use moq_veins_simulation_the.Broker.Handlers.{
  topic_subscribers, send_to, onward, next_id, forward_to, forward_publish, has_expired,
  acknowledge, on_publish_at, on_publish,
}
use moq_veins_simulation_the.Broker.Refine.{listeners, forward_to-Same, acknowledge-Same}

-- What was sent to a socket, the latest first.
unfoldable pub sent_to : ℕ → List Sent → List Bytes
sent_to j [] = []
sent_to j (o ∷ log) = let rest = sent_to j log in if j == o.to then o.bytes ∷ rest else rest

abbrev pub IsPacketId : ℕ → Type 0
IsPacketId n = (0 < n) × (n < 2 ^ 16)

-- The message as the broker hands it on with packet id `n`.
unfoldable pub handed_on : ℕ → ℕ → MqttMessage → MqttMessage
handed_on qos n m = record m { qos = qos; packet_id = if ltb 0 qos then n else 0 }

pub next_id-IsPacketId : (qos n : ℕ) → IsPacketId n → IsPacketId (next_id qos n)
unfolding next_id
next_id-IsPacketId qos n h = ground (arith, h)

set_has_below : (n : ℕ) (xs : List ℕ) → All (λ y. n < y) xs → set_has n xs ≡ false
unfolding set_has
set_has_below n [] h = refl
set_has_below n (x ∷ xs) (h, hs) = ground (arith, h, set_has_below n xs hs)

forward_to-sent_to :
    (m : MqttMessage) (id j : ℕ) (s : Broker)
    → sent_to j (forward_to m id s).out ≡ (
        if j == id && set_has j s.sockets
        then encode_publish (handed_on s.qos s.next_packet_id m) ∷ sent_to j s.out
        else sent_to j s.out)
unfolding forward_to send_to sent_to onward handed_on
forward_to-sent_to m id j s = ground arith

pub forward_to-next :
    (m : MqttMessage) (id : ℕ) (s : Broker)
    → IsPacketId s.next_packet_id
    → IsPacketId (forward_to m id s).next_packet_id
unfolding forward_to send_to
forward_to-next m id s h = ground (arith, next_id-IsPacketId s.qos s.next_packet_id h, h)

forward_to-qos : (m : MqttMessage) (id : ℕ) (s : Broker) → (forward_to m id s).qos ≡ s.qos
unfolding forward_to send_to
forward_to-qos m id s = ground arith

-- What one PUBLISH adds to what a socket was sent.
abbrev Reached : MqttMessage → Bool → ℕ → Broker → Broker → Type 0
Reached m reaches j s s' =
    (n : ℕ) × IsPacketId n
    × (sent_to j s'.out ≡ (
        if reaches
        then encode_publish (handed_on s.qos n m) ∷ sent_to j s.out
        else sent_to j s.out))

forward_publish-Reached :
    (m : MqttMessage) (ids : List ℕ) (j : ℕ) (s : Broker)
    → Ascending ids
    → IsPacketId s.next_packet_id
    → Reached m (set_has j ids && set_has j s.sockets) j s (forward_publish m ids s)
unfolding forward_publish set_has Ascending
forward_publish-Reached m [] j s a h = (1, omega arith, refl)
forward_publish-Reached m (id ∷ ids) j s (lt, a) h =
    let s' = forward_to m id s in
    let (n, hn, e) = forward_publish-Reached m ids j s' a (forward_to-next m id s h) in
    let same = forward_to-Same m id s in
    elim (Bool-cases (j == id)) [
      | inl here ↦ (
        s.next_packet_id,
        h,
        ground (arith, here, e, set_has_below id ids lt, forward_to-sent_to m id j s, same.sockets),
      )
      | inr other ↦ (
        n,
        hn,
        ground (arith, other, e, forward_to-sent_to m id j s, same.sockets, forward_to-qos m id s),
      )
    ]

-- The broker's own packet ids are never 0, and its sets ascend.
pub record IsBroker (s : Broker) : Type 0 where
  pub next_packet_id : IsPacketId s.next_packet_id
  pub topics : All (λ (p : Bytes × List ℕ). Ascending p.1) s.subscribers_by_topic

pub topic_subscribers-Ascending :
    (t : Bytes) (m : List (Bytes × List ℕ))
    → All (λ (p : Bytes × List ℕ). Ascending p.1) m
    → Ascending (topic_subscribers t m)
unfolding topic_subscribers lookup Ascending
topic_subscribers-Ascending t [] a = tt
topic_subscribers-Ascending t ((u, ids) ∷ m) (h, hs) =
    ground (arith, h, topic_subscribers-Ascending t m hs)

module _ (sender : ℕ) (m : MqttMessage) (s : Broker) where
  pub acknowledge-next : (acknowledge sender m s).next_packet_id ≡ s.next_packet_id
  unfolding acknowledge send_to
  acknowledge-next = ground arith

  acknowledge-qos : (acknowledge sender m s).qos ≡ s.qos
  unfolding acknowledge send_to
  acknowledge-qos = ground arith

  acknowledge-sent_to :
      (j : ℕ) → j ≢ sender → sent_to j (acknowledge sender m s).out ≡ sent_to j s.out
  unfolding acknowledge send_to sent_to
  acknowledge-sent_to j h = ground (arith, h)

-- No time passes between the arrival of a PUBLISH and the test of its expiry.
has_expired_now : (now : ℤ) (m : MqttMessage) → has_expired now now m ≡ false
unfolding has_expired ◌-ℤ◌
has_expired_now now m = ground arith

-- Where the packet id that is next is in range and the sets of the topics ascend, a PUBLISH
-- that can be parsed reaches every connection that is open and listens to its topic, other than
-- that of its sender, exactly once, with the QoS of the broker, a packet id in range, so not 0,
-- where that QoS is above 0 and 0 where it is not, and all else as it came; to the other
-- connections but the sender nothing is sent.
pub on_publish-Reached :
    (now : ℤ) (sender j : ℕ) (k : MqttPacket) (m : MqttMessage) (s : Broker)
    → IsBroker s
    → parse_publish k ≡ some m
    → j ≢ sender
    → (n : ℕ) × IsPacketId n
      × (sent_to j (on_publish now sender k s).out ≡ (
          if (listeners s).listens m.topic j && (listeners s).connected j
          then encode_publish (handed_on s.qos n m) ∷ sent_to j s.out
          else sent_to j s.out))
unfolding on_publish on_publish_at listeners
on_publish-Reached now sender j k m s w e other =
    let counted = record s { publishes_received = s.publishes_received + 1 } in
    let acked = acknowledge sender m counted in
    let same = acknowledge-Same sender m counted in
    let ids = topic_subscribers m.topic acked.subscribers_by_topic in
    let asc : Ascending ids =
      rw same.topics (topic_subscribers-Ascending m.topic s.subscribers_by_topic w.topics) in
    let (n, hn, r) =
      forward_publish-Reached m ids j acked asc
        (rw (acknowledge-next sender m counted) w.next_packet_id) in
    (
      n,
      hn,
      rw (e, on_publish_at, has_expired_now now m)
          (ground (
            arith,
            r,
            same.sockets,
            same.topics,
            acknowledge-qos sender m counted,
            acknowledge-sent_to sender m counted j other,
          )),
    )
