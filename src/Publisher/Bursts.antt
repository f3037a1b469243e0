-- ===== src/Publisher/Bursts.antt =====
-- What the publisher hands over to QUIC in all events of one moment, such as the burst of a group.
use moq_veins_simulation_the.Base.{
  ℕ, zero, suc, ◌+◌, ◌-◌, false, ◌≤◌, ◌<◌, ◌≡◌, ◌≢◌, ◌⊎◌, refl, arith, List, [], ◌∷◌, map, none,
  inl, inr, Option-cases, if_both, ◌==◌, insert, lookup, ℕ_discrete, ◌/◌,
}
use moq_veins_simulation_the.Quic.{Moment, send_tcp}
use moq_veins_simulation_the.MoqFraming.Control.{ctrl_subscribe_ok}
use moq_veins_simulation_the.MoqFraming.Object.{ObjectFrame, encode}
use moq_veins_simulation_the.MoqFraming.Envelope.{encode_envelope, msg_object}
use moq_veins_simulation_the.MoqFraming.Fragment.{fragment_frame}
use moq_veins_simulation_the.Publisher.State.{
  SubgroupKey-discrete, TrackMeta, Publisher, pub_announce, sub_success,
}
use moq_veins_simulation_the.Publisher.Teardown.{check_outstanding_timeouts, send_control_frame}
use moq_veins_simulation_the.Publisher.Events.{
  key_of, open_stream, send_object_quic, send_object_frame, next_object, send_group, announce,
  produce, per_group, fire_timer, handle_control_frame, established, timeout_check, send_queue_full,
  send_queue_drain, Event, connects, queue_full, queue_drain, sweep_timer, track_timer,
  control_frame, step, run,
}
use moq_veins_simulation_the.Publisher.Pacing.{
  written, Still, IsPaced, IsPaced-Still, flush_send_buffer-IsPaced,
}
use moq_veins_simulation_the.Publisher.Quiet.{
  sweep_send_buffer_timeouts-Still, check_outstanding_timeouts-Still, written-emit_all,
  Protocol-cases, send_control_frame-Still, enqueue_pending-Still, charge-Still, open_stream-Still,
  logged-Still, retracked-Still, offer-Still, send_track_data-Still,
}

-- At one moment, counted from a log with `w` bytes.
module _ (limit chunk w : ℕ) (m : Moment) where
  abbrev Paced : Publisher → Type 0
  Paced s = IsPaced limit chunk w m s

  still : (s s' : Publisher) → Still s s' → Paced s → Paced s'
  still s s' k h = IsPaced-Still limit chunk w m s s' k h

  send_object_quic-Paced :
      (f : ObjectFrame) (tid : ℕ) (s : Publisher) → Paced s → Paced (send_object_quic m f tid s)
  unfolding send_object_quic
  send_object_quic-Paced f tid s h =
      elim (Option-cases (lookup SubgroupKey-discrete (key_of f tid) s.reset_subgroups)) [
        | inl e ↦
            let opened = (open_stream (key_of f tid) s).1 in
            rw (e, send_object_quic)
              (flush_send_buffer-IsPaced limit chunk w m _ (
                still opened _ (enqueue_pending-Still m _ opened)
                  (still s opened (open_stream-Still (key_of f tid) s) h)))
        | inr (code, e) ↦ rw (e, send_object_quic) (still s _ (charge-Still code tid s) h)
      ]

  send_object_frame-Paced :
      (f : ObjectFrame) (tid : ℕ) (s : Publisher) → Paced s → Paced (send_object_frame m f tid s)
  unfolding send_object_frame written
  send_object_frame-Paced f tid s h =
      if_both Paced s.subscriptions_ended _ _ h (elim (Protocol-cases s.proto) [
        | inl e ↦ rw e (send_object_quic-Paced f tid s h)
        | inr (inl e) ↦ rw e (
            still s _
              (logged-Still s (send_tcp (encode_envelope msg_object (encode f)) ∷ s.out) refl) h)
        | inr (inr e) ↦ rw e (
            still s _
              (logged-Still s _ (
                written-emit_all
                  (fragment_frame msg_object f.track_alias f.object_id (encode f)
                    s.udp_fragment_size)
                  s.out))
              h)
      ])

  send_group-Paced :
      (n tid group_id : ℕ) (s : Publisher) → Paced s → Paced (send_group n m tid group_id s)
  unfolding send_group
  send_group-Paced zero tid group_id s h = h
  send_group-Paced (suc n) tid group_id s h = elim (Option-cases (lookup ℕ_discrete tid s.tracks)) [
    | inl e ↦ rw (e, send_group) h
    | inr (t, e) ↦
        let counted = record s {
          tracks =
              insert ℕ_discrete tid (record t { next_object_id = t.next_object_id + 1 }) s.tracks;
        } in
        let sent = send_object_frame m (next_object m group_id t) tid counted in
        rw (e, send_group)
          (send_group-Paced n tid group_id _ (
            still sent _ (offer-Still t sent) (
              send_object_frame-Paced (next_object m group_id t) tid counted
                (still s counted (retracked-Still s _) h))))
  ]

  produce-Paced : (tid : ℕ) (t : TrackMeta) (s : Publisher) → Paced s → Paced (produce m tid t s)
  unfolding produce
  produce-Paced tid t s h =
      let sent = send_group (per_group t) m tid (t.next_object_id / per_group t) s in
      if_both Paced s.subscriptions_ended _ _ h (
        still sent _ (send_track_data-Still m tid sent)
          (send_group-Paced (per_group t) tid (t.next_object_id / per_group t) s h))

  fire_timer-Paced : (tid : ℕ) (s : Publisher) → Paced s → Paced (fire_timer m tid s)
  unfolding fire_timer
  fire_timer-Paced tid s h = elim (Option-cases (lookup ℕ_discrete tid s.tracks)) [
    | inl e ↦ rw (e, fire_timer) h
    | inr (t, e) ↦
        let fired = record s {
          tracks = insert ℕ_discrete tid (record t { timer_due = none }) s.tracks;
        } in
        let h' = still s fired (retracked-Still s _) h in
        rw (e, fire_timer)
          (if_both Paced s.sending_allowed _ _
            (elim t.timer_kind
              as (λ k. Paced (elim k as (λ x. Publisher) [
                | pub_announce ↦ send_control_frame (announce t) fired
                | sub_success ↦ produce m tid t fired
              ])) [
                | pub_announce ↦ still fired _ (send_control_frame-Still (announce t) fired) h'
                | sub_success ↦ produce-Paced tid t fired h'
              ])
            h')
  ]

  step-Paced : (e : Event) (s : Publisher) → Paced s → Paced (step m e s)
  unfolding step established send_queue_full send_queue_drain timeout_check handle_control_frame
  step-Paced connects s h =
      still s _ (record { limit = refl; chunk = refl; event = refl; bytes = refl; out = refl }) h
  step-Paced queue_full s h =
      still s _ (record { limit = refl; chunk = refl; event = refl; bytes = refl; out = refl }) h
  step-Paced queue_drain s h =
      let drained = record s { quic_blocked = false } in
      flush_send_buffer-IsPaced limit chunk w m drained (
        still s drained
          (record { limit = refl; chunk = refl; event = refl; bytes = refl; out = refl }) h)
  step-Paced sweep_timer s h =
      let checked = check_outstanding_timeouts m s in
      flush_send_buffer-IsPaced limit chunk w m _ (
        still checked _ (sweep_send_buffer_timeouts-Still m checked)
          (still s checked (check_outstanding_timeouts-Still m s) h))
  step-Paced (track_timer tid) s h = fire_timer-Paced tid s h
  step-Paced (control_frame c) s h =
      if_both Paced (c.kind == ctrl_subscribe_ok) _ _ (still s _ (retracked-Still s _) h) h

  run-Paced :
      (es : List Event) (s : Publisher) → Paced s → Paced (run (map (λ (e : Event). (m, e)) es) s)
  unfolding run
  run-Paced [] s h = h
  run-Paced (e ∷ es) s h = run-Paced es (step m e s) (step-Paced e s h)

-- Over any sequence of events that a publisher handles at one moment, where its last write
-- event was another: the bytes written on data streams never shrink, and either none is written
-- or the length of QUIC's send queue with all that these events write there is below the limit
-- with a chunk.
pub run-written :
    (m : Moment) (es : List Event) (s : Publisher)
    → s.quic_write_event ≢ m.now
    → let s' = run (map (λ (e : Event). (m, e)) es) s in
      (written s.out ≤ written s'.out)
      × ((written s'.out ≡ written s.out)
          ⊎ (m.queue_len + (written s'.out - written s.out)
              < s.quic_send_queue_limit + s.quic_chunk_bytes))
unfolding IsPaced
run-written m es s h =
    let paced =
      run-Paced s.quic_send_queue_limit s.quic_chunk_bytes (written s.out) m es s
        (refl, refl, omega arith, inl (h, refl)) in
    ground (arith, paced)
