-- ===== src/Publisher/Count.antt =====
-- The buffer's counter, and the fate of every object of a track.
use moq_veins_simulation_the.Base.{
  ℕ, suc, ◌+◌, ◌-◌, ◌≤◌, ◌≡◌, ap, ◌∙◌, arith, List, [], ◌∷◌, ◌++◌, none, some, ite, inl, inr,
  Option-cases, Bool-cases, bump, ℕ_discrete,
}
use moq_veins_simulation_the.SendBuffer.{
  Buffer, Front, front, front-none, contents, total, front-contents, pop-contents, put-contents,
  total-append,
}
use moq_veins_simulation_the.Quic.{Moment, is_stale}
use moq_veins_simulation_the.Publisher.State.{Pending, Publisher}
use moq_veins_simulation_the.Publisher.Loop.{flush_loop_inv}
use moq_veins_simulation_the.Publisher.Send.{
  observe, chunk_sent, do_send_quic_chunk, note_sent, charge, shed_stale, drop_stale, pop_front,
  send_front, flush_front, flush_round, flush_stop, work, enter_event, flush_send_buffer,
  reset_subgroup_stream,
}
use moq_veins_simulation_the.Publisher.Teardown.{sweep_out, sweep_queue, sweep_buffer}

-- An object counts for its own track.
abbrev pub of_track : ℕ → Pending → ℕ
of_track t p = ite (ℕ_discrete p.tid t) 1 0

-- The objects of a track that are buffered.
unfoldable pub buffered : ℕ → Publisher → ℕ
unfolding total
buffered t s = total (of_track t) (contents s.send_buffer)

-- The objects of a track that came to an end: sent whole, shed for age, lost to an overflow.
unfoldable pub settled : ℕ → Publisher → ℕ
settled t s = (s.pub_stats t).objects_sent + s.quic_shed_stale t + s.quic_shed_overflow t

unfoldable pub accounted : ℕ → Publisher → ℕ
unfolding buffered settled
accounted t s = buffered t s + settled t s

abbrev pub one : Pending → ℕ
one p = 1

-- `sendBufferCount` is the number of buffered objects.
unfoldable pub IsCounted : Publisher → Type 0
unfolding total
IsCounted s = s.send_buffer_count ≡ total one (contents s.send_buffer)

flush_front-IsCounted :
    (m : Moment) (f : Front Pending) (s : Publisher)
    → contents s.send_buffer ≡ f.item ∷ (f.later ++ contents f.rest)
    → IsCounted s
    → IsCounted (flush_front m f s)
unfolding IsCounted flush_front charge drop_stale send_front pop_front do_send_quic_chunk note_sent
    reset_subgroup_stream shed_stale total bump chunk_sent
flush_front-IsCounted m f s e c =
    ground (arith, pop-contents f, put-contents f (chunk_sent s f.item), ap (total one) e)

flush_front-accounted :
    (m : Moment) (f : Front Pending) (s : Publisher) (t : ℕ)
    → contents s.send_buffer ≡ f.item ∷ (f.later ++ contents f.rest)
    → accounted t (flush_front m f s) ≡ accounted t s
unfolding accounted flush_front charge drop_stale send_front pop_front do_send_quic_chunk note_sent
    reset_subgroup_stream shed_stale bump chunk_sent total
flush_front-accounted m f s t e =
    ground (arith, pop-contents f, put-contents f (chunk_sent s f.item), ap (total (of_track t)) e)

-- The books: the counter is right, and `n` objects of track `t` are accounted for.
unfoldable pub Books : ℕ → ℕ → Publisher → Type 0
unfolding IsCounted accounted
Books t n s = IsCounted s × (accounted t s ≡ n)

module _ (t n : ℕ) where
  flush_front-Books :
      (m : Moment) (f : Front Pending) (s : Publisher)
      → front s.send_buffer ≡ some f
      → Books t n s
      → Books t n (flush_front m f (observe m s))
  unfolding Books observe IsCounted accounted buffered settled
  flush_front-Books m f s e (c, a) =
      let split = front-contents s.send_buffer f e in
      (
        flush_front-IsCounted m f (observe m s) split c,
        flush_front-accounted m f (observe m s) t split ∙ a,
      )

  flush_stop-Books :
      (m : Moment) (s : Publisher)
      → flush_round m s ≡ none
      → Books t n s
      → Books t n (flush_stop m s)
  unfolding Books observe IsCounted accounted buffered settled flush_stop flush_round total contents
  flush_stop-Books m s h (c, a) = elim (Option-cases (front s.send_buffer)) [
    | inl e ↦ ground (
      arith,
      h,
      c,
      a,
      e,
      front-none s.send_buffer e,
      ap (total one) (front-none s.send_buffer e),
      ap (total (of_track t)) (front-none s.send_buffer e),
    )
    | inr (f, e) ↦ ground (arith, h, c, a, e)
  ]

  enter_event-Books : (m : Moment) (s : Publisher) → Books t n s → Books t n (enter_event m s)
  unfolding enter_event Books IsCounted accounted buffered settled
  enter_event-Books m s h = ground (arith, h)

  pub flush_send_buffer-Books :
      (m : Moment) (s : Publisher) → Books t n s → Books t n (flush_send_buffer m s)
  unfolding flush_send_buffer
  flush_send_buffer-Books m s h =
      flush_loop_inv (Books t n) m (λ f s e may. flush_front-Books m f s e) (flush_stop-Books m)
        (suc (work s)) (enter_event m s) (enter_event-Books m s h)

-- The sweep moves objects from the queue to the shed counts.
module _ (t : ℕ) (m : Moment) where
  abbrev pub Swept : List Pending → Publisher → List Pending → Publisher → Type 0
  Swept ps s kept s' =
      (total (of_track t) kept + settled t s' ≡ total (of_track t) ps + settled t s)
      × (total one ps ≤ s.send_buffer_count
          → s'.send_buffer_count + total one ps ≡ total one kept + s.send_buffer_count)

  sweep_out-counts :
      (p : Pending) (s : Publisher)
      → (settled t (sweep_out p s) ≡ of_track t p + settled t s)
        × ((sweep_out p s).send_buffer_count ≡ s.send_buffer_count - 1)
  unfolding sweep_out drop_stale shed_stale reset_subgroup_stream bump settled
  sweep_out-counts p s = ground arith

  sweep_queue-Swept :
      (ps : List Pending) (s : Publisher) → Swept ps s (sweep_queue m ps s).0 (sweep_queue m ps s).1
  unfolding sweep_queue total
  sweep_queue-Swept [] s = ground arith
  sweep_queue-Swept (p ∷ ps) s = elim (Bool-cases (is_stale m.now p.created_at p.timeout)) [
    | inl h ↦ rw h (
        let (a, b) = sweep_queue-Swept ps (sweep_out p s) in
        let (c, d) = sweep_out-counts p s in
        (omega (arith, a, c), λ le. omega (arith, b (omega (arith, d, le)), d, le)))
    | inr h ↦ rw h (
        let (a, b) = sweep_queue-Swept ps s in
        (omega (arith, a), λ le. omega (arith, b (omega (arith, le)))))
  ]

  pub sweep_buffer-Swept :
      (bs : Buffer Pending) (s : Publisher)
      → Swept (contents bs) s (contents (sweep_buffer m bs s).0) (sweep_buffer m bs s).1
  unfolding sweep_buffer total contents
  sweep_buffer-Swept [] s = ground arith
  sweep_buffer-Swept ((k, q) ∷ rest) s =
      let (a, b) = sweep_queue-Swept q s in
      let (c, d) = sweep_buffer-Swept rest (sweep_queue m q s).1 in
      ground (
        arith,
        a,
        b,
        c,
        d,
        total-append one q (contents rest),
        total-append (of_track t) q (contents rest),
        total-append one (sweep_queue m q s).0
            (contents (sweep_buffer m rest (sweep_queue m q s).1).0),
        total-append (of_track t) (sweep_queue m q s).0
            (contents (sweep_buffer m rest (sweep_queue m q s).1).0),
      )
