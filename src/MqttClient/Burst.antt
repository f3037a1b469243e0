-- ===== src/MqttClient/Burst.antt =====
-- applications/mqtt/MqttPublisherApp.cc: the messages of a burst.
use moq_veins_simulation_the.Base.{
  ℕ, zero, suc, ◌+◌, ◌≡◌, refl, sym, ap, ◌∙◌, arith, ℤ, pos, List, [], ◌∷◌, ◌++◌, map, some, length,
  append_assoc, append-nil, lookup, ℕ_discrete, ltb, if◌then◌else◌,
}
use moq_veins_simulation_the.Reader.{Bytes}
use moq_veins_simulation_the.MqttFraming.Messages.{MqttMessage, encode_publish}
use moq_veins_simulation_the.Broker.Handlers.{next_id}
use moq_veins_simulation_the.Broker.Fanout.{IsPacketId, next_id-IsPacketId}
use moq_veins_simulation_the.MqttClient.Publishing.{
  TopicConfig, MqttPublisher, next_message, send_bytes, count_offer, burst_loop, note_burst,
  publish_burst,
}
use moq_veins_simulation_the.MqttClient.Queue.{line, IsQueued, send_bytes-line, send_bytes-kept}

-- The messages of a burst of `n`: consecutive sequence numbers and packet ids.
unfoldable pub burst_messages : ℕ → ℤ → ℕ → ℕ → TopicConfig → List MqttMessage
unfolding next_message next_id
burst_messages zero now qos id t = []
burst_messages (suc n) now qos id t =
    next_message now qos id t
    ∷ burst_messages n now qos (next_id qos id) (record t { next_sequence = t.next_sequence + 1 })

-- Sequence numbers that count up from `n`, and packet ids that are 0 at QoS 0 and in range at the others.
unfoldable pub Numbered : ℕ → ℕ → List MqttMessage → Type 0
Numbered qos n [] = Unit {0}
Numbered qos n (m ∷ ms) =
    (m.sequence ≡ pos n)
    × ((id : ℕ) × IsPacketId id × (m.packet_id ≡ (if ltb 0 qos then id else 0)))
    × Numbered qos (n + 1) ms

-- The count of an offer is not in the line.
count_offer-line : (t : TopicConfig) (s : MqttPublisher) → line (count_offer t s) ≡ line s
unfolding line count_offer
count_offer-line t s = refl

count_offer-IsQueued :
    (t : TopicConfig) (s : MqttPublisher) → IsQueued s → IsQueued (count_offer t s)
unfolding IsQueued count_offer
count_offer-IsQueued t s q = q

renumbered-line : (s : MqttPublisher) (id : ℕ) → line (record s { next_packet_id = id }) ≡ line s
unfolding line
renumbered-line s id = refl

noted-line :
    (now : ℤ) (topic : Bytes) (ts : List (ℕ × TopicConfig)) (s : MqttPublisher)
    → line (record (note_burst now topic s) { topics = ts }) ≡ line s
unfolding line note_burst
noted-line now topic ts s = refl

-- The loop of a burst puts its messages at the end of the line, and steps the sequence number.
burst_loop-line :
    (n : ℕ) (now : ℤ) (t : TopicConfig) (s : MqttPublisher)
    → s.send_queue_limit_msgs ≡ 0
    → IsQueued s
    → (line (burst_loop n now t s).1
        ≡ line s ++ map encode_publish (burst_messages n now s.qos s.next_packet_id t))
      × ((burst_loop n now t s).0.next_sequence ≡ t.next_sequence + n)
unfolding burst_loop burst_messages count_offer
burst_loop-line zero now t s z q = (sym (append-nil (line s)), omega arith)
burst_loop-line (suc n) now t s z q =
    let m = next_message now s.qos s.next_packet_id t in
    let numbered : MqttPublisher = record s { next_packet_id = next_id s.qos s.next_packet_id } in
    let sent = send_bytes now (encode_publish m) numbered in
    let (l, lim, q') = send_bytes-line now (encode_publish m) numbered z (unfold IsQueued in q) in
    let (kq, ki) = send_bytes-kept now (encode_publish m) numbered in
    let t1 : TopicConfig = record t { next_sequence = t.next_sequence + 1 } in
    let (rest, seq) =
      burst_loop-line n now t1 (count_offer t sent) (lim ∙ z) (count_offer-IsQueued t sent q') in
    let later = burst_messages n now s.qos (next_id s.qos s.next_packet_id) t1 in
    let ids = λ (a : ℕ) (b : ℕ). map encode_publish (burst_messages n now a b t1) in
    let same : ids sent.qos sent.next_packet_id ≡ map encode_publish later =
      ap (λ a. ids a sent.next_packet_id) kq ∙ ap (ids s.qos) ki in
    (
      rest
          ∙ ap (λ x. x ++ ids sent.qos sent.next_packet_id) (count_offer-line t sent ∙ l)
          ∙ append_assoc (line numbered) (encode_publish m ∷ []) (ids sent.qos sent.next_packet_id)
          ∙ ap (λ x. line numbered ++ (encode_publish m ∷ x)) same
          ∙ ap (λ x. x ++ (encode_publish m ∷ map encode_publish later))
              (renumbered-line s (next_id s.qos s.next_packet_id)),
      omega (arith, seq),
    )

length-burst_messages :
    (n : ℕ) (now : ℤ) (qos id : ℕ) (t : TopicConfig) → length (burst_messages n now qos id t) ≡ n
unfolding burst_messages
length-burst_messages zero now qos id t = refl
length-burst_messages (suc n) now qos id t = omega (
  arith,
  length-burst_messages n now qos (next_id qos id)
      (record t { next_sequence = t.next_sequence + 1 }),
)

burst_messages-Numbered :
    (n : ℕ) (now : ℤ) (qos id : ℕ) (t : TopicConfig)
    → IsPacketId id
    → Numbered qos t.next_sequence (burst_messages n now qos id t)
unfolding Numbered burst_messages next_message
burst_messages-Numbered zero now qos id t h = tt
burst_messages-Numbered (suc n) now qos id t h = (
  refl,
  (id, h, refl),
  burst_messages-Numbered n now qos (next_id qos id)
      (record t { next_sequence = t.next_sequence + 1 }) (next_id-IsPacketId qos id h),
)

-- With no limit on the messages that wait, over TCP with none that waits, and the next packet
-- id in range, a burst of a topic puts as many messages as the topic has to a burst at the end
-- of the line, and nothing else: their sequence numbers count on from the next one of the
-- topic, and their packet ids are 0 at QoS 0 and in range, so not 0, at the others.
pub publish_burst-line :
    (now : ℤ) (i : ℕ) (t : TopicConfig) (s : MqttPublisher)
    → s.send_queue_limit_msgs ≡ 0
    → IsQueued s
    → IsPacketId s.next_packet_id
    → lookup ℕ_discrete i s.topics ≡ some t
    → (ms : List MqttMessage) × (length ms ≡ t.messages_per_burst)
      × Numbered s.qos t.next_sequence ms
      × (line (publish_burst now i s) ≡ line s ++ map encode_publish ms)
unfolding publish_burst
publish_burst-line now i t s z q h e =
    let n = t.messages_per_burst in
    let (l, seq) = burst_loop-line n now t s z q in
    let ms = burst_messages n now s.qos s.next_packet_id t in
    (
      ms,
      length-burst_messages n now s.qos s.next_packet_id t,
      burst_messages-Numbered n now s.qos s.next_packet_id t h,
      rw (e, publish_burst) (noted-line now t.topic _ (burst_loop n now t s).1 ∙ l),
    )
