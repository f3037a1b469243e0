-- ===== src/Publisher/Fate.antt =====
-- What becomes of every object that is handed to the QUIC path: the operations keep the books.
use moq_veins_simulation_the.Base.{
  ℕ, ◌+◌, ◌≡◌, refl, sym, ap, ◌∙◌, arith, ℤ, true, List, [], ◌∷◌, ite, inl, inr, lookup,
  Option-cases, if_both, bump, ℕ_discrete,
}
use moq_veins_simulation_the.SendBuffer.{push_back, contents, total, total-push_back}
use moq_veins_simulation_the.Quic.{Moment}
use moq_veins_simulation_the.MoqFraming.Control.{pubdone_too_far_behind}
use moq_veins_simulation_the.MoqFraming.Object.{ObjectFrame}
use moq_veins_simulation_the.Publisher.State.{
  SubgroupKey, SubgroupKey-discrete, TrackMeta, Pending, Publisher, OutstandingObj,
}
use moq_veins_simulation_the.Publisher.Send.{observe, charge, reset_subgroup_stream}
use moq_veins_simulation_the.Publisher.Teardown.{
  sweep_send_buffer_timeouts, sweep_outstanding, check_outstanding, check_outstanding_timeouts,
  reset_all, shed_all, end_tracks, shut_streams, shed_buffer, announce_end, send_control_frame,
  publish_done, terminate_subscriptions, enqueue_pending,
}
use moq_veins_simulation_the.Publisher.Events.{open_stream, key_of, send_object_quic, timeout_check}
use moq_veins_simulation_the.Publisher.Count.{
  of_track, one, buffered, settled, accounted, IsCounted, Books, flush_send_buffer-Books,
  sweep_buffer-Swept,
}

module _ (t : ℕ) where
  pub sweep_send_buffer_timeouts-Books :
      (n : ℕ) (m : Moment) (s : Publisher)
      → Books t n s
      → Books t n (sweep_send_buffer_timeouts m s)
  unfolding sweep_send_buffer_timeouts Books IsCounted accounted buffered settled
  sweep_send_buffer_timeouts-Books n m s h =
      ground (arith, h, sweep_buffer-Swept t m s.send_buffer s)

  -- What the books are read from.
  abbrev Same : Publisher → Publisher → Type 0
  Same s s' =
      (s'.send_buffer ≡ s.send_buffer)
      × (s'.send_buffer_count ≡ s.send_buffer_count)
      × (settled t s' ≡ settled t s)

  check_outstanding-Same :
      (m : Moment) (o : OutstandingObj) (s : Publisher) → Same s (check_outstanding m o s)
  unfolding check_outstanding settled reset_subgroup_stream
  check_outstanding-Same m o s = ground arith

  sweep_outstanding-Same :
      (m : Moment) (os : List OutstandingObj) (s : Publisher) → Same s (sweep_outstanding m os s).1
  unfolding sweep_outstanding settled
  sweep_outstanding-Same m [] s = (refl, refl, refl)
  sweep_outstanding-Same m (o ∷ os) s =
      let (a, b, c) = check_outstanding-Same m o s in
      let (d, e, f) = sweep_outstanding-Same m os (check_outstanding m o s) in (d ∙ a, e ∙ b, f ∙ c)

  pub check_outstanding_timeouts-Books :
      (n : ℕ) (m : Moment) (s : Publisher)
      → Books t n s
      → Books t n (check_outstanding_timeouts m s)
  unfolding check_outstanding_timeouts Books IsCounted accounted buffered settled
  check_outstanding_timeouts-Books n m s h =
      ground (arith, h, sweep_outstanding-Same m s.outstanding (observe m s))

  reset_all-Same : (ks : List (SubgroupKey × ℕ)) (s : Publisher) → Same s (reset_all ks s)
  unfolding reset_all settled reset_subgroup_stream
  reset_all-Same [] s = (refl, refl, refl)
  reset_all-Same ((k, i) ∷ ks) s = reset_all-Same ks (reset_subgroup_stream k i _ s)

  end_tracks-Same :
      (status : ℤ) (ts : List (ℕ × TrackMeta)) (s : Publisher) → Same s (end_tracks status ts s).1
  unfolding end_tracks send_control_frame settled
  end_tracks-Same status [] s = (refl, refl, refl)
  end_tracks-Same status ((i, x) ∷ ts) s =
      end_tracks-Same status ts (send_control_frame (publish_done status x) s)

  shed_all-settled :
      (ps : List Pending) (s : Publisher)
      → (settled t (shed_all ps s) ≡ total (of_track t) ps + settled t s)
  unfolding shed_all settled total bump
  shed_all-settled [] s = omega arith
  shed_all-settled (p ∷ ps) s = ground (
    arith,
    shed_all-settled ps (record s {
      quic_shed_overflow = bump ℕ_discrete p.tid s.quic_shed_overflow;
      quic_shed = s.quic_shed + 1;
    }),
  )

  shut_streams-Same : (m : Moment) (status : ℤ) (s : Publisher) → Same s (shut_streams m status s)
  unfolding shut_streams settled
  shut_streams-Same m status s = reset_all-Same s.subgroup_streams (record s {
    subscriptions_ended = true;
    termination_time = m.now;
    termination_status = status;
  })

  shed_buffer-Books : (n : ℕ) (s : Publisher) → Books t n s → Books t n (shed_buffer s)
  unfolding shed_buffer Books IsCounted accounted buffered settled contents total
  shed_buffer-Books n s (c, a) = ground (arith, a, shed_all-settled (contents s.send_buffer) s)

  announce_end-Same : (status : ℤ) (s : Publisher) → Same s (announce_end status s)
  unfolding announce_end settled
  announce_end-Same status s = end_tracks-Same status s.tracks s

  Books-Same : (n : ℕ) (s s' : Publisher) → Same s s' → Books t n s → Books t n s'
  unfolding Books IsCounted accounted buffered
  Books-Same n s s' (a, b, c) (d, e) =
      (b ∙ d ∙ sym (ap (λ x. total one (contents x)) a), rw (a, c) e)

  pub terminate_subscriptions-Books :
      (n : ℕ) (m : Moment) (status : ℤ) (s : Publisher)
      → Books t n s
      → Books t n (terminate_subscriptions m status s)
  unfolding terminate_subscriptions
  terminate_subscriptions-Books n m status s h = if_both (Books t n) s.subscriptions_ended s _ h (
      Books-Same n _ _ (announce_end-Same status (shed_buffer (shut_streams m status s))) (
        shed_buffer-Books n (shut_streams m status s)
          (Books-Same n _ _ (shut_streams-Same m status s) h)))

  push-Books :
      (n : ℕ) (p : Pending) (s : Publisher)
      → Books t n s
      → Books t (of_track t p + n) (record s {
        send_buffer = push_back p.priority p s.send_buffer;
        send_buffer_count = s.send_buffer_count + 1;
      })
  unfolding Books IsCounted accounted buffered settled
  push-Books n p s h = ground (
    arith,
    h,
    total-push_back one p.priority p s.send_buffer,
    total-push_back (of_track t) p.priority p s.send_buffer,
  )

  enqueue_pending-Books :
      (n : ℕ) (m : Moment) (p : Pending) (s : Publisher)
      → Books t n s
      → Books t (of_track t p + n) (enqueue_pending m p s)
  unfolding enqueue_pending
  enqueue_pending-Books n m p s h =
      let s' : Publisher = record s {
        send_buffer = push_back p.priority p s.send_buffer;
        send_buffer_count = s.send_buffer_count + 1;
      } in
      let pushed : Books t (of_track t p + n) s' = push-Books n p s h in
      ground (
        arith,
        pushed,
        terminate_subscriptions-Books (of_track t p + n) m pubdone_too_far_behind s' pushed,
      )

  open_stream-Same : (key : SubgroupKey) (s : Publisher) → Same s (open_stream key s).1
  unfolding open_stream settled
  open_stream-Same key s = ground arith

  charge-Books :
      (n code tid : ℕ) (s : Publisher)
      → Books t n s
      → Books t (ite (ℕ_discrete tid t) 1 0 + n) (charge code tid s)
  unfolding charge bump Books IsCounted accounted buffered settled
  charge-Books n code tid s h = ground (arith, h)

  -- Where the counter of the send buffer is the number of buffered objects, and n objects of
  -- track t are accounted for (buffered, sent whole, shed for age or lost to an overflow),
  -- handing an object of track tid to the QUIC path leaves the counter right, and the objects
  -- of t accounted for are one more when tid is t, and n otherwise.
  pub send_object_quic-Books :
      (n : ℕ) (m : Moment) (f : ObjectFrame) (tid : ℕ) (s : Publisher)
      → Books t n s
      → Books t (ite (ℕ_discrete tid t) 1 0 + n) (send_object_quic m f tid s)
  unfolding send_object_quic
  send_object_quic-Books n m f tid s h =
      elim (Option-cases (lookup SubgroupKey-discrete (key_of f tid) s.reset_subgroups)) [
        | inl e ↦
            rw (e, send_object_quic)
              (flush_send_buffer-Books t _ m _ (
                enqueue_pending-Books n m _ _
                  (Books-Same n _ _ (open_stream-Same (key_of f tid) s) h)))
        | inr (code, e) ↦ rw (e, send_object_quic) (charge-Books n code tid s h)
      ]

  -- Where the counter of the send buffer is the number of buffered objects, and n objects of
  -- track t are accounted for, the periodic check of the delivery timeouts with its sweep and
  -- its flush leaves the counter right and n objects of t accounted for.
  pub timeout_check-Books :
      (n : ℕ) (m : Moment) (s : Publisher) → Books t n s → Books t n (timeout_check m s)
  unfolding timeout_check
  timeout_check-Books n m s h =
      flush_send_buffer-Books t n m _
        (sweep_send_buffer_timeouts-Books n m _ (check_outstanding_timeouts-Books n m s h))
