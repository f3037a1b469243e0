-- ===== src/MqttClient/Queue.antt =====
-- applications/mqtt/MqttPublisherApp.cc: the outbound queue is a FIFO that loses messages on overflow only.
use moq_veins_simulation_the.Base.{
  ℕ, ◌+◌, ◌≡◌, refl, sym, ap, subst, ◌∙◌, arith, ℤ, true, false, not, ◌&&◌, List, [], ◌∷◌, ◌++◌,
  none, ltb, if_both, inl, inr, Bool-cases, length, append_assoc, append-nil, ◌⊎◌,
}
use moq_veins_simulation_the.Reader.{Bytes}
use moq_veins_simulation_the.MqttClient.Publishing.{
  Write, MqttPublisher, on_stream, write_queue, is_quic, flush_send_queue, arm_flush, push_message,
  send_bytes, flush_timer, mqtt_queue_full, mqtt_queue_drain,
}

-- The messages that were written, the first one first.
unfoldable pub written : List Write → List Bytes
written [] = []
written (w ∷ log) = written log ++ (w.bytes ∷ [])

-- All that was taken in and not dropped, in the order in which it leaves.
unfoldable pub line : MqttPublisher → List Bytes
unfolding written
line s = written s.out ++ s.send_queue

write_queue-line :
    (limit n : ℕ) (q : List Bytes) (log : List Write)
    → written (write_queue limit n q log).1 ++ (write_queue limit n q log).0 ≡ written log ++ q
unfolding write_queue written
write_queue-line limit n [] log = refl
write_queue-line limit n (b ∷ q) log = elim (Bool-cases (ltb n limit)) [
  | inl e ↦ rw e (
      write_queue-line limit (n + length b) q (on_stream b ∷ log)
      ∙ append_assoc (written log) (b ∷ []) q)
  | inr e ↦ rw e refl
]

flush_send_queue-line : (s : MqttPublisher) → line (flush_send_queue s) ≡ line s
unfolding line flush_send_queue
flush_send_queue-line s =
    if_both (λ x. line x ≡ line s) (is_quic s.proto && not s.quic_blocked) _ _
      (write_queue-line s.quic_send_queue_limit 0 s.send_queue s.out) refl

-- What a handler of the queue leaves alone, and what it makes of the line.
record Same (s s' : MqttPublisher) : Type 0 where
  line : line s' ≡ line s
  proto : s'.proto ≡ s.proto
  limit : s'.send_queue_limit_msgs ≡ s.send_queue_limit_msgs
  qos : s'.qos ≡ s.qos
  next_packet_id : s'.next_packet_id ≡ s.next_packet_id

arm_flush-Same : (now : ℤ) (s : MqttPublisher) → Same s (arm_flush now s)
unfolding line arm_flush
arm_flush-Same now s = record {
  line = ground arith;
  proto = ground arith;
  limit = ground arith;
  qos = ground arith;
  next_packet_id = ground arith;
}

flush_send_queue-Same : (s : MqttPublisher) → Same s (flush_send_queue s)
unfolding flush_send_queue
flush_send_queue-Same s = record {
  line = flush_send_queue-line s;
  proto = ground arith;
  limit = ground arith;
  qos = ground arith;
  next_packet_id = ground arith;
}

-- The queue of a client over TCP stays empty: what it sends is written at once.
unfoldable pub IsQueued : MqttPublisher → Type 0
unfolding is_quic
IsQueued s = (is_quic s.proto ≡ true) ⊎ ((is_quic s.proto ≡ false) × (s.send_queue ≡ []))

-- What can happen to the outbound queue.
pub data QueueEvent : Type 0 where
  message : ℤ → Bytes → QueueEvent
  flush_due : ℤ → QueueEvent
  fills drains : QueueEvent

unfoldable pub queue_step : QueueEvent → MqttPublisher → MqttPublisher
unfolding send_bytes flush_timer mqtt_queue_full mqtt_queue_drain
queue_step (message now b) s = send_bytes now b s
queue_step (flush_due now) s = flush_timer now s
queue_step fills s = mqtt_queue_full s
queue_step drains s = mqtt_queue_drain s

unfoldable pub queue_run : List QueueEvent → MqttPublisher → MqttPublisher
unfolding queue_step
queue_run [] s = s
queue_run (e ∷ es) s = queue_run es (queue_step e s)

-- The messages of the events.
unfoldable pub messages : List QueueEvent → List Bytes
messages [] = []
messages (message now b ∷ es) = b ∷ messages es
messages (flush_due now ∷ es) = messages es
messages (fills ∷ es) = messages es
messages (drains ∷ es) = messages es

flush_send_queue_tcp : (s : MqttPublisher) → is_quic s.proto ≡ false → flush_send_queue s ≡ s
unfolding flush_send_queue
flush_send_queue_tcp s e = ground (arith, e)

arm_flush_tcp : (now : ℤ) (s : MqttPublisher) → s.send_queue ≡ [] → arm_flush now s ≡ s
unfolding arm_flush
arm_flush_tcp now s e = ground (arith, e)

-- The line after a message, with no limit.
push_message-Same :
    (b : Bytes) (s : MqttPublisher)
    → s.send_queue_limit_msgs ≡ 0
    → (line (push_message b s) ≡ line s ++ (b ∷ []))
      × ((push_message b s).proto ≡ s.proto)
      × ((push_message b s).send_queue_limit_msgs ≡ s.send_queue_limit_msgs)
unfolding push_message line
push_message-Same b s e = (
  ground (arith, e, append_assoc (written s.out) s.send_queue (b ∷ [])),
  ground (arith, e),
  ground (arith, e),
)

-- What one event adds to the line.
abbrev pub Adds : List Bytes → MqttPublisher → MqttPublisher → Type 0
Adds bs s s' =
    (line s' ≡ line s ++ bs) × (s'.send_queue_limit_msgs ≡ s.send_queue_limit_msgs) × IsQueued s'

flushed-Adds :
    (now : ℤ) (bs : List Bytes) (s s1 : MqttPublisher)
    → is_quic s1.proto ≡ true
    → line s1 ≡ line s ++ bs
    → s1.send_queue_limit_msgs ≡ s.send_queue_limit_msgs
    → Adds bs s (arm_flush now (flush_send_queue s1))
unfolding IsQueued
flushed-Adds now bs s s1 q l m =
    let f = flush_send_queue-Same s1 in
    let a = arm_flush-Same now (flush_send_queue s1) in
    (a.line ∙ f.line ∙ l, a.limit ∙ f.limit ∙ m, inl (ap is_quic (a.proto ∙ f.proto) ∙ q))

send_bytes_quic :
    (now : ℤ) (b : Bytes) (s : MqttPublisher)
    → is_quic s.proto ≡ true
    → send_bytes now b s ≡ arm_flush now (flush_send_queue (push_message b s))
unfolding send_bytes
send_bytes_quic now b s e = ground (arith, e)

abbrev wrote : Bytes → MqttPublisher → MqttPublisher
wrote b s = record s { out = record { stream = none; bytes = b } ∷ s.out }

send_bytes_tcp :
    (now : ℤ) (b : Bytes) (s : MqttPublisher)
    → is_quic s.proto ≡ false
    → send_bytes now b s ≡ wrote b s
unfolding send_bytes
send_bytes_tcp now b s e = ground (arith, e)

-- With no limit on the messages that wait, a message joins the end of the line.
pub send_bytes-line :
    (now : ℤ) (b : Bytes) (s : MqttPublisher)
    → s.send_queue_limit_msgs ≡ 0
    → IsQueued s
    → Adds (b ∷ []) s (send_bytes now b s)
unfolding IsQueued line written
send_bytes-line now b s z (inl e) =
    let (l, p, m) = push_message-Same b s z in
    subst (Adds (b ∷ []) s) (sym (send_bytes_quic now b s e))
      (flushed-Adds now (b ∷ []) s (push_message b s) (ap is_quic p ∙ e) l m)
send_bytes-line now b s z (inr (e, empty)) =
    subst (Adds (b ∷ []) s) (sym (send_bytes_tcp now b s e)) (
      ap (λ q. (written s.out ++ (b ∷ [])) ++ q) empty
          ∙ append-nil (written s.out ++ (b ∷ []))
          ∙ ap (λ l. l ++ (b ∷ []))
              (sym (append-nil (written s.out)) ∙ ap (λ q. written s.out ++ q) (sym empty)),
      refl,
      inr (e, empty),
    )

push_message-kept :
    (b : Bytes) (s : MqttPublisher)
    → ((push_message b s).qos ≡ s.qos) × ((push_message b s).next_packet_id ≡ s.next_packet_id)
unfolding push_message
push_message-kept b s = (ground arith, ground arith)

pub send_bytes-kept :
    (now : ℤ) (b : Bytes) (s : MqttPublisher)
    → ((send_bytes now b s).qos ≡ s.qos) × ((send_bytes now b s).next_packet_id ≡ s.next_packet_id)
send_bytes-kept now b s = elim (Bool-cases (is_quic s.proto)) [
  | inl e ↦
      let pushed = push_message b s in
      let (q, i) = push_message-kept b s in
      let f = flush_send_queue-Same pushed in
      let a = arm_flush-Same now (flush_send_queue pushed) in
      rw (send_bytes_quic now b s e) (a.qos ∙ f.qos ∙ q, a.next_packet_id ∙ f.next_packet_id ∙ i)
  | inr e ↦ rw (send_bytes_tcp now b s e) (refl, refl)
]

-- A flush, behind a change that is not to the queue.
flush-Adds :
    (s s1 : MqttPublisher)
    → s1.proto ≡ s.proto
    → s1.send_queue ≡ s.send_queue
    → s1.out ≡ s.out
    → s1.send_queue_limit_msgs ≡ s.send_queue_limit_msgs
    → IsQueued s
    → Adds [] s (flush_send_queue s1)
unfolding IsQueued line
flush-Adds s s1 p q o m (inl e) =
    let f = flush_send_queue-Same s1 in
    (
      f.line ∙ rw (q, o) (sym (append-nil (written s.out ++ s.send_queue))),
      f.limit ∙ m,
      inl (ap is_quic (f.proto ∙ p) ∙ e),
    )
flush-Adds s s1 p q o m (inr (e, empty)) =
    let tcp_client : is_quic s1.proto ≡ false = ap is_quic p ∙ e in
    subst (Adds [] s) (sym (flush_send_queue_tcp s1 tcp_client))
      (rw (q, o) (sym (append-nil (written s.out ++ s.send_queue))), m, inr (tcp_client, q ∙ empty))

arm-Adds :
    (now : ℤ) (bs : List Bytes) (s s1 : MqttPublisher) → Adds bs s s1 → Adds bs s (arm_flush now s1)
unfolding IsQueued
arm-Adds now bs s s1 (l, m, inl e) =
    let a = arm_flush-Same now s1 in (a.line ∙ l, a.limit ∙ m, inl (ap is_quic a.proto ∙ e))
arm-Adds now bs s s1 (l, m, inr (e, empty)) =
    subst (Adds bs s) (sym (arm_flush_tcp now s1 empty)) (l, m, inr (e, empty))

queue_step-Adds :
    (e : QueueEvent) (s : MqttPublisher)
    → s.send_queue_limit_msgs ≡ 0
    → IsQueued s
    → Adds (messages (e ∷ [])) s (queue_step e s)
unfolding queue_step flush_timer mqtt_queue_full mqtt_queue_drain messages
queue_step-Adds (message now b) s z q = send_bytes-line now b s z q
queue_step-Adds (flush_due now) s z q =
    arm-Adds now [] s _ (flush-Adds s (record s { timer_flush = none }) refl refl refl refl q)
queue_step-Adds fills s z q =
    (unfold line in sym (append-nil (written s.out ++ s.send_queue)), refl, (unfold IsQueued in q))
queue_step-Adds drains s z q =
    flush-Adds s (record s { quic_blocked = false }) refl refl refl refl q

messages_cons :
    (e : QueueEvent) (es : List QueueEvent) → messages (e ∷ es) ≡ messages (e ∷ []) ++ messages es
unfolding messages
messages_cons (message now b) es = refl
messages_cons (flush_due now) es = refl
messages_cons fills es = refl
messages_cons drains es = refl

-- With no limit on the messages that wait, and over TCP with none that waits, over any sequence
-- of messages, flushes and signals of QUIC, what was written with what still waits is what was
-- there before with all the messages behind it, in their order: none is lost, doubled or
-- overtaken.
pub queue_run-line :
    (es : List QueueEvent) (s : MqttPublisher)
    → s.send_queue_limit_msgs ≡ 0
    → IsQueued s
    → line (queue_run es s) ≡ line s ++ messages es
unfolding queue_run
queue_run-line [] s z q = unfold messages in sym (append-nil (line s))
queue_run-line (e ∷ es) s z q =
    let (l, m, q') = queue_step-Adds e s z q in
    queue_run-line es (queue_step e s) (m ∙ z) q'
    ∙ ap (λ x. x ++ messages es) l
    ∙ append_assoc (line s) (messages (e ∷ [])) (messages es)
    ∙ ap (λ x. line s ++ x) (sym (messages_cons e es))
