-- ===== src/Publisher/Streams/Run.antt =====
-- applications/moq/MoqPublisherApp.cc: every handler keeps the streams in order.
use moq_veins_simulation_the.Base.{
  ℕ, zero, suc, ◌+◌, ◌/◌, ◌<◌, ◌≡◌, refl, false, List, [], ◌∷◌, none, some, inl, inr, Option-cases,
  if_both, ◌==◌, lookup, insert, lookup-All, ℕ_discrete, ◌+ℤ◌,
}
use moq_veins_simulation_the.SendBuffer.{contents}
use moq_veins_simulation_the.Quic.{Moment, control_stream}
use moq_veins_simulation_the.MoqFraming.Control.{ControlFrame, ctrl_subscribe_ok}
use moq_veins_simulation_the.Publisher.State.{
  SubgroupKey, SubgroupKey-discrete, TrackMeta, Publisher, pub_announce, sub_success,
}
use moq_veins_simulation_the.Publisher.Teardown.{send_control_frame}
use moq_veins_simulation_the.Publisher.Events.{
  next_object, offer, send_group, send_track_data, announce, produce, per_group, fire_timer,
  handle_control_frame, established, timeout_check, send_queue_full, send_queue_drain, Event,
  connects, queue_full, queue_drain, sweep_timer, track_timer, control_frame, step, run,
}
use moq_veins_simulation_the.Publisher.Streams.Core.{is_reset, Safe, at_key, Live}
use moq_veins_simulation_the.Publisher.Streams.Sweeps.{
  IsStreams, check_outstanding_timeouts-IsStreams, sweep_send_buffer_timeouts-IsStreams,
}
use moq_veins_simulation_the.Publisher.Streams.Teardown.{send_control_frame-Evolves}
use moq_veins_simulation_the.Publisher.Streams.Flush.{flush_send_buffer-IsStreams}
use moq_veins_simulation_the.Publisher.Streams.Objects.{
  evolved, retracked, send_object_frame-IsStreams,
}

send_group-IsStreams :
    (n : ℕ) (m : Moment) (tid group_id : ℕ) (s : Publisher)
    → IsStreams s
    → IsStreams (send_group n m tid group_id s)
unfolding send_group offer
send_group-IsStreams zero m tid group_id s w = w
send_group-IsStreams (suc n) m tid group_id s w =
    elim (Option-cases (lookup ℕ_discrete tid s.tracks)) [
      | inl e ↦ rw (e, send_group) w
      | inr (t, e) ↦
          let x = send_object_frame-IsStreams m (next_object m group_id t) tid _ (
            retracked s w (
              insert ℕ_discrete tid (record t { next_object_id = t.next_object_id + 1 })
                s.tracks)) in
          rw (e, send_group)
            (send_group-IsStreams n m tid group_id _
              (record { streams = x.streams; pending = x.pending; outstanding = x.outstanding }))
    ]

send_track_data-IsStreams :
    (m : Moment) (tid : ℕ) (s : Publisher) → IsStreams s → IsStreams (send_track_data m tid s)
unfolding send_track_data
send_track_data-IsStreams m tid s w = elim (Option-cases (lookup ℕ_discrete tid s.tracks)) [
  | inl e ↦ rw (e, send_track_data) (if_both IsStreams s.subscriptions_ended _ _ w w)
  | inr (t, e) ↦
      rw (e, send_track_data)
        (if_both IsStreams s.subscriptions_ended _ _ w (
          retracked s w (
            insert ℕ_discrete tid (record t { timer_due = some (m.now +ℤ t.send_interval) })
              s.tracks)))
]

send_control_frame-IsStreams :
    (c : ControlFrame) (s : Publisher) → IsStreams s → IsStreams (send_control_frame c s)
send_control_frame-IsStreams c s w = evolved s _ (send_control_frame-Evolves c s w.streams) w

produce-IsStreams :
    (m : Moment) (tid : ℕ) (t : TrackMeta) (s : Publisher)
    → IsStreams s
    → IsStreams (produce m tid t s)
unfolding produce
produce-IsStreams m tid t s w = if_both IsStreams s.subscriptions_ended _ _ w (
    send_track_data-IsStreams m tid _
      (send_group-IsStreams (per_group t) m tid (t.next_object_id / per_group t) s w))

fire_timer-IsStreams :
    (m : Moment) (tid : ℕ) (s : Publisher) → IsStreams s → IsStreams (fire_timer m tid s)
unfolding fire_timer
fire_timer-IsStreams m tid s w = elim (Option-cases (lookup ℕ_discrete tid s.tracks)) [
  | inl e ↦ rw (e, fire_timer) w
  | inr (t, e) ↦
      let w' = retracked s w (insert ℕ_discrete tid (record t { timer_due = none }) s.tracks) in
      rw (e, fire_timer)
        (if_both IsStreams s.sending_allowed _ _
          (elim t.timer_kind
            as (λ k. IsStreams (elim k as (λ x. Publisher) [
              | pub_announce ↦ send_control_frame (announce t) (record s {
                tracks = insert ℕ_discrete tid (record t { timer_due = none }) s.tracks;
              })
              | sub_success ↦ produce m tid t (record s {
                tracks = insert ℕ_discrete tid (record t { timer_due = none }) s.tracks;
              })
            ])) [
              | pub_announce ↦ send_control_frame-IsStreams (announce t) _ w'
              | sub_success ↦ produce-IsStreams m tid t _ w'
            ])
          w')
]

-- Where the streams of a publisher are in order, they stay so at every event.
step-IsStreams : (m : Moment) (e : Event) (s : Publisher) → IsStreams s → IsStreams (step m e s)
unfolding step established send_queue_full send_queue_drain timeout_check handle_control_frame
step-IsStreams m connects s w = record {
  streams = w.streams;
  pending = w.pending;
  outstanding = w.outstanding;
}
step-IsStreams m queue_full s w = record {
  streams = w.streams;
  pending = w.pending;
  outstanding = w.outstanding;
}
step-IsStreams m queue_drain s w =
    flush_send_buffer-IsStreams m _
      (record { streams = w.streams; pending = w.pending; outstanding = w.outstanding })
step-IsStreams m sweep_timer s w =
    flush_send_buffer-IsStreams m _
      (sweep_send_buffer_timeouts-IsStreams m _ (check_outstanding_timeouts-IsStreams m s w))
step-IsStreams m (track_timer tid) s w = fire_timer-IsStreams m tid s w
step-IsStreams m (control_frame c) s w =
    if_both IsStreams (c.kind == ctrl_subscribe_ok) _ _ (retracked s w _) w

run-IsStreams : (es : List (Moment × Event)) (s : Publisher) → IsStreams s → IsStreams (run es s)
unfolding run
run-IsStreams [] s w = w
run-IsStreams ((m, e) ∷ es) s w = run-IsStreams es (step m e s) (step-IsStreams m e s w)

-- A publisher that has sent nothing, with no stream, no reset and nothing kept, and whose next
-- stream is not the control stream.
pub record IsNew (s : Publisher) : Type 0 where
  pub streams : s.subgroup_streams ≡ []
  pub next_stream_id : 0 < s.next_stream_id
  pub out : s.out ≡ []
  pub send_buffer : s.send_buffer ≡ []
  pub outstanding : s.outstanding ≡ []

new-IsStreams : (s : Publisher) → IsNew s → IsStreams s
unfolding Safe is_reset contents
new-IsStreams s n = record {
  streams = record {
    safe = rw n.out tt;
    control = rw n.out refl;
    fresh = λ i h. rw n.out refl;
    positive = n.next_stream_id;
    entries = rw n.streams tt;
  };
  pending = rw n.send_buffer tt;
  outstanding = rw n.outstanding tt;
}

-- From a publisher that has sent nothing, with no stream, nothing buffered and nothing
-- outstanding, and a next stream other than the control stream, over any sequence of events no
-- byte is written on a stream after that stream was reset.
pub run-Safe : (es : List (Moment × Event)) (s : Publisher) → IsNew s → Safe (run es s).out
run-Safe es s n = let w = run-IsStreams es s (new-IsStreams s n) in w.streams.safe

-- From a publisher that has sent nothing, with no stream, nothing buffered and nothing
-- outstanding, and a next stream other than the control stream, over any sequence of events, a
-- stream that a subgroup has open at the end was not reset, is not the control stream, and no
-- other subgroup has it open.
pub run-subgroup_streams :
    (es : List (Moment × Event)) (s : Publisher) (k j : SubgroupKey) (id : ℕ)
    → IsNew s
    → at_key k (run es s).subgroup_streams ≡ some id
    → at_key j (run es s).subgroup_streams ≡ some id
    → (is_reset id (run es s).out ≡ false) × (control_stream < id) × (j ≡ k)
run-subgroup_streams es s k j id n e e' =
    let w = run-IsStreams es s (new-IsStreams s n) in
    let last = run es s in
    let l =
      lookup-All SubgroupKey-discrete
        (λ k i. Live last.subgroup_streams last.reset_subgroups last.next_stream_id last.out k i) k
        id last.subgroup_streams e w.streams.entries in
    (l.open_id, l.tied.positive, l.tied.alone j e')
