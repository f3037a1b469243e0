-- ===== src/Publisher/Order.antt =====
-- The order in which the publisher's buffer is sent: ascending MoQ priority.
use moq_veins_simulation_the.Base.{
  suc, ◌≡◌, refl, arith, ℤ, ◌≤ℤ◌, ltb_ℤ, List, [], ◌∷◌, ◌++◌, none, some, All, All-append, subst,
  inl, inr, Bool-cases,
}
use mathlib.Core.Option.{some-injective}
use moq_veins_simulation_the.SendBuffer.{
  Buffer, Front, front, push_back, pop, put, contents, Above, IsSorted, push_back-IsSorted,
  front-IsSorted, pop-IsSorted,
}
use moq_veins_simulation_the.Quic.{Moment}
use moq_veins_simulation_the.Publisher.State.{Pending, Publisher}
use moq_veins_simulation_the.Publisher.Send.{
  observe, chunk_sent, do_send_quic_chunk, note_sent, charge, shed_stale, drop_stale, pop_front,
  send_front, flush_front, flush_round, flush_stop, work, enter_event, flush_send_buffer,
  reset_subgroup_stream,
}
use moq_veins_simulation_the.Publisher.Loop.{flush_loop_inv}

-- Every object waits in the queue of its priority.
unfoldable pub IsKeyed : Buffer Pending → Type 0
IsKeyed [] = Unit {0}
IsKeyed ((k, q) ∷ rest) = All (λ p. p.priority ≡ k) q × IsKeyed rest

-- Ascending priorities, and every object in the queue of its own.
unfoldable pub IsOrdered : Buffer Pending → Type 0
unfolding IsKeyed
IsOrdered b = IsSorted b × IsKeyed b

abbrev pub AtLeast : ℤ → Pending → Type 0
AtLeast k p = k ≤ℤ p.priority

same-AtLeast :
    (k j : ℤ) (q : List Pending) → k ≤ℤ j → All (λ p. p.priority ≡ j) q → All (AtLeast k) q
same-AtLeast k j [] h a = tt
same-AtLeast k j (p ∷ q) h (e, a) = (rw e h, same-AtLeast k j q h a)

Above-AtLeast : (k : ℤ) (b : Buffer Pending) → Above k b → IsKeyed b → All (AtLeast k) (contents b)
unfolding contents IsKeyed
Above-AtLeast k [] h a = tt
Above-AtLeast k ((j, q) ∷ rest) (l, h) (a, b) =
    All-append (AtLeast k) q (contents rest) (same-AtLeast k j q (omega (arith, l)) a)
      (Above-AtLeast k rest h b)

-- In a buffer with ascending priorities and every object in the queue of its own, the object at
-- the front has the least priority number of all that are buffered.
pub front-AtLeast :
    (b : Buffer Pending) (f : Front Pending)
    → front b ≡ some f
    → IsOrdered b
    → All (AtLeast f.item.priority) (contents b)
unfolding front contents IsOrdered IsKeyed
front-AtLeast [] f e h = absurd (cc)
front-AtLeast ((k, []) ∷ b) f e ((a, s), (t, r)) = front-AtLeast b f e (s, r)
front-AtLeast ((k, p ∷ ps) ∷ b) f e ((a, s), ((h, hs), r)) =
    let key : k ≡ f.item.priority = ground (arith, e, h) in
    subst (λ (z : ℤ). All (AtLeast z) ((p ∷ ps) ++ contents b)) key
      (All-append (AtLeast k) (p ∷ ps) (contents b)
        (same-AtLeast k k (p ∷ ps) (omega arith) (h, hs)) (Above-AtLeast k b a r))

push_back-IsKeyed :
    (p : Pending) (b : Buffer Pending) → IsKeyed b → IsKeyed (push_back p.priority p b)
unfolding IsKeyed push_back
push_back-IsKeyed p [] h = ((refl, tt), tt)
push_back-IsKeyed p ((j, q) ∷ rest) (a, h) = elim (Bool-cases (ltb_ℤ p.priority j)) [
  | inl e ↦ rw e ((refl, tt), (a, h))
  | inr e ↦ elim (Bool-cases (ltb_ℤ j p.priority)) [
    | inl l ↦ rw (e, l) (a, push_back-IsKeyed p rest h)
    | inr l ↦
        rw (e, l)
          (All-append (λ (x : Pending). x.priority ≡ j) q (p ∷ []) a (ground (arith, e, l), tt), h)
  ]
]

-- An object that is added to a buffer with ascending priorities and every object in the queue
-- of its own, under the priority of the object, leaves the buffer so.
pub push_back-IsOrdered :
    (p : Pending) (b : Buffer Pending) → IsOrdered b → IsOrdered (push_back p.priority p b)
unfolding IsOrdered
push_back-IsOrdered p b (s, k) = (push_back-IsSorted p.priority p b s, push_back-IsKeyed p b k)

front-IsKeyed :
    (b : Buffer Pending) (f : Front Pending)
    → front b ≡ some f
    → IsKeyed b
    → All (λ p. p.priority ≡ f.prio) (f.item ∷ f.later) × IsKeyed f.rest
unfolding front IsKeyed
front-IsKeyed [] f e h = absurd (cc)
front-IsKeyed ((k, []) ∷ b) f e h = front-IsKeyed b f e h.1
front-IsKeyed ((k, p ∷ ps) ∷ b) f e h =
    let found : Front Pending = record { prio = k; item = p; later = ps; rest = b } in
    let same : found ≡ f = some-injective found f e in
    subst
      (λ (g : Front Pending). All (λ x. x.priority ≡ g.prio) (g.item ∷ g.later) × IsKeyed g.rest)
      same h

-- Taking the first object out, or writing a part of it, keeps the buffer in order.
flush_front-IsOrdered :
    (m : Moment) (f : Front Pending) (s : Publisher)
    → front s.send_buffer ≡ some f
    → IsOrdered s.send_buffer
    → IsOrdered (flush_front m f (observe m s)).send_buffer
unfolding IsOrdered IsKeyed flush_front observe charge drop_stale send_front pop_front
    do_send_quic_chunk note_sent reset_subgroup_stream shed_stale chunk_sent pop put
flush_front-IsOrdered m f s e (o, k) =
    let (above, sorted) = front-IsSorted s.send_buffer f e o in
    let ((same, later), rest) = front-IsKeyed s.send_buffer f e k in
    ground (arith, above, sorted, same, later, rest, pop-IsSorted f above sorted)

flush_stop-IsOrdered :
    (m : Moment) (s : Publisher)
    → flush_round m s ≡ none
    → IsOrdered s.send_buffer
    → IsOrdered (flush_stop m s).send_buffer
unfolding IsOrdered IsKeyed flush_stop observe
flush_stop-IsOrdered m s e h = ground (arith, h)

enter_event-buffer : (m : Moment) (s : Publisher) → (enter_event m s).send_buffer ≡ s.send_buffer
unfolding enter_event
enter_event-buffer m s = ground arith

-- A flush of a send buffer with ascending priorities and every object in the queue of its own
-- leaves the buffer so.
pub flush_send_buffer-IsOrdered :
    (m : Moment) (s : Publisher)
    → IsOrdered s.send_buffer
    → IsOrdered (flush_send_buffer m s).send_buffer
unfolding flush_send_buffer
flush_send_buffer-IsOrdered m s h =
    flush_loop_inv (λ (x : Publisher). IsOrdered x.send_buffer) m
      (λ f s e may. flush_front-IsOrdered m f s e) (flush_stop-IsOrdered m) (suc (work s))
      (enter_event m s) (rw (enter_event-buffer m s) h)
