-- ===== src/Publisher/Loop.antt =====
-- The loop of flushSendBuffer: what a round is, an invariant rule, and that the fuel is enough.
use moq_veins_simulation_the.Base.{
  ℕ, zero, suc, ◌+◌, ◌≤◌, ◌<◌, ◌≡◌, refl, ap, arith, false, ◌∷◌, ◌++◌, none, some, inl, inr, length,
  All, Option-cases,
}
use moq_veins_simulation_the.SendBuffer.{
  Front, front, contents, total, front-contents, pop-contents, put-contents,
}
use moq_veins_simulation_the.Quic.{Moment}
use moq_veins_simulation_the.Publisher.State.{Pending, Publisher}
use moq_veins_simulation_the.Publisher.Send.{
  observe, chunk_len, chunk_sent, do_send_quic_chunk, note_sent, charge, shed_stale, drop_stale,
  pop_front, send_front, flush_front, flush_round, flush_stop, flush_loop, work, left_to_send,
  enter_event, flush_send_buffer, reset_subgroup_stream,
}

module _ (m : Moment) (s : Publisher) where
  -- The tests of the loop let a round begin.
  abbrev pub MayWrite : Type 0
  MayWrite =
      (s.quic_blocked ≡ false)
      × (0 < s.send_buffer_count)
      × (m.queue_len + s.quic_bytes_this_event < s.quic_send_queue_limit)

  pub flush_round_cases :
      (s' : Publisher)
      → flush_round m s ≡ some s'
      → (f : Front Pending) × (front s.send_buffer ≡ some f)
        × (s' ≡ flush_front m f (observe m s))
        × MayWrite
  unfolding flush_round
  flush_round_cases s' e = elim (Option-cases (front s.send_buffer)) [
    | inl h ↦ absurd (ground (arith, h))
    | inr (f, h) ↦ (f, h, ground (arith, h), ground (arith, h))
  ]

-- What a round preserves, and what the code around the rounds does, hold of the whole loop.
module _ {ℓ} (P : Publisher → Type ℓ) (m : Moment)
    (step : (f : Front Pending) (s : Publisher)
      → front s.send_buffer ≡ some f
      → MayWrite m s
      → P s
      → P (flush_front m f (observe m s)))
    (stop : (s : Publisher) → flush_round m s ≡ none → P s → P (flush_stop m s)) where
  pub flush_loop_inv : (fuel : ℕ) (s : Publisher) → P s → P (flush_loop fuel m s)
  unfolding flush_loop
  flush_loop_inv zero s p = p
  flush_loop_inv (suc fuel) s p = elim (Option-cases (flush_round m s)) [
    | inl h ↦ rw (h, flush_loop) (stop s h p)
    | inr (s', h) ↦
        let (f, ef, es, may) = flush_round_cases m s s' h in
        rw (h, flush_loop) (flush_loop_inv fuel s' (rw es (step f s ef may p)))
  ]

-- No object has more bytes sent than it has.
unfoldable pub InBounds : Pending → Type 0
InBounds p = p.sent_offset ≤ length p.bytes

-- The objects of the buffer are partly sent at most, and a write takes a byte at least.
unfoldable pub CanSend : Publisher → Type 0
unfolding InBounds
CanSend s = (0 < s.quic_chunk_bytes) × All InBounds (contents s.send_buffer)

-- The work that is left falls in every round.
flush_front-work :
    (m : Moment) (f : Front Pending) (s : Publisher)
    → contents s.send_buffer ≡ f.item ∷ (f.later ++ contents f.rest)
    → CanSend s
    → (work (flush_front m f s) < work s) × CanSend (flush_front m f s)
unfolding CanSend InBounds work flush_front charge drop_stale send_front pop_front
    do_send_quic_chunk note_sent reset_subgroup_stream shed_stale total chunk_sent left_to_send
    chunk_len
flush_front-work m f s e (h, a) =
    let all : All InBounds (f.item ∷ (f.later ++ contents f.rest)) = rw e at a in
    ground
      (arith, pop-contents f, put-contents f (chunk_sent s f.item), ap (total left_to_send) e, all)

observe-work : (m : Moment) (s : Publisher) → work (observe m s) ≡ work s
unfolding work observe
observe-work m s = refl

observe-front :
    (m : Moment) (s : Publisher) (f : Front Pending)
    → front s.send_buffer ≡ some f
    → contents (observe m s).send_buffer ≡ f.item ∷ (f.later ++ contents f.rest)
unfolding observe
observe-front m s f e = front-contents s.send_buffer f e

observe-CanSend : (m : Moment) (s : Publisher) → CanSend s → CanSend (observe m s)
unfolding observe CanSend
observe-CanSend m s h = h

enter_event-work : (m : Moment) (s : Publisher) → work (enter_event m s) ≡ work s
unfolding enter_event work
enter_event-work m s = ground arith

enter_event-CanSend : (m : Moment) (s : Publisher) → CanSend s → CanSend (enter_event m s)
unfolding enter_event CanSend
enter_event-CanSend m s h = ground (arith, h)

-- The loop has ended by its own tests: another call would not do a round.
abbrev pub Halted : Moment → Publisher → Type 0
Halted m s = flush_round m s ≡ none

flush_stop-Halted : (m : Moment) (s : Publisher) → Halted m s → Halted m (flush_stop m s)
unfolding flush_stop flush_round observe front
flush_stop-Halted m s h = ground (arith, h)

pub flush_loop_enough_fuel :
    (fuel : ℕ) (m : Moment) (s : Publisher)
    → CanSend s
    → work s < fuel
    → Halted m (flush_loop fuel m s)
unfolding flush_loop
flush_loop_enough_fuel zero m s hc h = absurd (omega arith)
flush_loop_enough_fuel (suc fuel) m s hc h = elim (Option-cases (flush_round m s)) [
  | inl e ↦ rw (e, flush_loop) (flush_stop-Halted m s e)
  | inr (s', e) ↦
      let (f, ef, es, may) = flush_round_cases m s s' e in
      let (less, can) =
        flush_front-work m f (observe m s) (observe-front m s f ef) (observe-CanSend m s hc) in
      rw (e, flush_loop)
        (flush_loop_enough_fuel fuel m s' (rw es can)
          (rw es (omega (arith, less, observe-work m s))))
]

-- Where a write takes a byte at least and no buffered object has more bytes sent than it has, a
-- flush of the send buffer ends by the tests of its loop: no further round could begin.
pub flush_send_buffer-Halted :
    (m : Moment) (s : Publisher) → CanSend s → Halted m (flush_send_buffer m s)
unfolding flush_send_buffer
flush_send_buffer-Halted m s h =
    flush_loop_enough_fuel (suc (work s)) m (enter_event m s) (enter_event-CanSend m s h)
      (omega (arith, enter_event-work m s))
