-- ===== src/Publisher/Teardown.antt =====
-- applications/moq/MoqPublisherApp.cc: the sweeps of the delivery timeouts, control frames, the teardown.
use moq_veins_simulation_the.Base.{
  ℕ, ◌+◌, ◌-◌, ℤ, pos, negsuc, ◌-ℤ◌, ltb_ℤ, Bool, true, false, ◌||◌, List, [], ◌∷◌, map, none, some,
  leb, ◌==◌, if◌then◌else◌, lookup, bump, ℕ_discrete,
}
use moq_veins_simulation_the.SendBuffer.{Buffer, push_back, contents}
use moq_veins_simulation_the.Quic.{
  quic, tcp, udp, Out, send_quic, send_tcp, send_udp, Moment, is_stale, control_stream,
  control_stream_priority, err_delivery_timeout, err_send_buffer_overflow,
}
use moq_veins_simulation_the.MoqFraming.Control.{
  ControlFrame, no_control, encode_control, ctrl_publish_done, pubdone_too_far_behind,
}
use moq_veins_simulation_the.MoqFraming.Envelope.{encode_envelope, msg_control}
use moq_veins_simulation_the.MoqFraming.Fragment.{fragment_frame}
use moq_veins_simulation_the.Publisher.State.{
  SubgroupKey, SubgroupKey-discrete, TrackMeta, Pending, OutstandingObj, Publisher,
}
use moq_veins_simulation_the.Publisher.Send.{drop_stale, emit_all, observe, reset_subgroup_stream}

-- A stale object that the sweep finds, wherever it stands.
unfoldable pub sweep_out : Pending → Publisher → Publisher
unfolding drop_stale
sweep_out p s =
    let dropped = drop_stale p s in
    record dropped { send_buffer_count = dropped.send_buffer_count - 1 }

-- sweepSendBufferTimeouts: every stale object goes, wherever it stands in the buffer.
unfoldable pub sweep_queue : Moment → List Pending → Publisher → List Pending × Publisher
unfolding sweep_out
sweep_queue m [] s = ([], s)
sweep_queue m (p ∷ ps) s =
    let stale = is_stale m.now p.created_at p.timeout in
    let (kept, last) = sweep_queue m ps (if stale then sweep_out p s else s) in
    ((if stale then kept else p ∷ kept), last)

unfoldable pub sweep_buffer : Moment → Buffer Pending → Publisher → Buffer Pending × Publisher
unfolding sweep_queue
sweep_buffer m [] s = ([], s)
sweep_buffer m ((k, q) ∷ rest) s =
    let (kept, s') = sweep_queue m q s in
    let (others, last) = sweep_buffer m rest s' in
    (elim kept [ [] ↦ others | p ∷ ps ↦ (k, p ∷ ps) ∷ others ], last)

unfoldable pub sweep_send_buffer_timeouts : Moment → Publisher → Publisher
unfolding sweep_buffer
sweep_send_buffer_timeouts m s =
    if s.subscriptions_ended
    then s
    else let (buffer, s') = sweep_buffer m s.send_buffer s in record s' { send_buffer = buffer }

-- `resetSubgroups.count(it->subgroup) > 0`
unfoldable pub was_reset : SubgroupKey → Publisher → Bool
was_reset key s = elim (lookup SubgroupKey-discrete key s.reset_subgroups) [
  | none ↦ false
  | some _ ↦ true
]

unfoldable pub is_late : Moment → OutstandingObj → Bool
is_late m o = ltb_ℤ o.timeout (m.now -ℤ o.created_at)

-- What the loop of checkOutstandingTimeouts does about one object.
unfoldable pub check_outstanding : Moment → OutstandingObj → Publisher → Publisher
unfolding reset_subgroup_stream was_reset is_late
check_outstanding m o s =
    let reset = reset_subgroup_stream o.subgroup o.stream_id err_delivery_timeout s in
    if was_reset o.subgroup s
    then s
    else if is_late m o
    then record reset { reset_after_send = bump ℕ_discrete o.tid reset.reset_after_send }
    else s

-- The loop; the list is what the iterator has not reached.
unfoldable pub sweep_outstanding :
    Moment → List OutstandingObj → Publisher → List OutstandingObj × Publisher
unfolding check_outstanding
sweep_outstanding m [] s = ([], s)
sweep_outstanding m (o ∷ os) s =
    let (kept, last) = sweep_outstanding m os (check_outstanding m o s) in
    ((if was_reset o.subgroup s || is_late m o then kept else o ∷ kept), last)

-- checkOutstandingTimeouts
unfoldable pub check_outstanding_timeouts : Moment → Publisher → Publisher
unfolding sweep_outstanding observe
check_outstanding_timeouts m s =
    let seen = observe m s in
    if m.queue_len == 0
    then record seen { outstanding = [] }
    else let (kept, s') = sweep_outstanding m seen.outstanding seen in
      record s' { outstanding = kept }

-- sendControlFrame: -1 is the object id of control fragments.
unfoldable pub send_control_frame : ControlFrame → Publisher → Publisher
unfolding emit_all
send_control_frame c s =
    let frame = encode_control c in
    let calls : List Out = elim s.proto [
      | quic ↦ send_quic control_stream control_stream_priority frame ∷ []
      | tcp ↦ send_tcp (encode_envelope msg_control frame) ∷ []
      | udp ↦
          map send_udp
            (fragment_frame msg_control c.track_alias (negsuc 0) frame s.udp_fragment_size)
    ] in
    record s { out = emit_all calls s.out }

-- The loop over the open streams.
unfoldable pub reset_all : List (SubgroupKey × ℕ) → Publisher → Publisher
unfolding reset_subgroup_stream
reset_all [] s = s
reset_all ((key, stream_id) ∷ rest) s =
    reset_all rest (reset_subgroup_stream key stream_id err_send_buffer_overflow s)

-- The loop over the buffered objects.
unfoldable pub shed_all : List Pending → Publisher → Publisher
shed_all [] s = s
shed_all (p ∷ ps) s = shed_all ps (record s {
  quic_shed_overflow = bump ℕ_discrete p.tid s.quic_shed_overflow;
  quic_shed = s.quic_shed + 1;
})

-- The loop over the tracks: a PUBLISH_DONE each, and the timer is cancelled.
unfoldable pub publish_done : ℤ → TrackMeta → ControlFrame
publish_done status t = record no_control {
  kind = ctrl_publish_done;
  status_code = status;
  track_id = pos t.track_id;
  publisher_id = t.publisher_id;
  track_namespace = t.track_namespace;
  track_name = t.track_name;
  track_alias = t.track_alias;
}

unfoldable pub end_tracks : ℤ → List (ℕ × TrackMeta) → Publisher → List (ℕ × TrackMeta) × Publisher
unfolding publish_done send_control_frame
end_tracks status [] s = ([], s)
end_tracks status ((i, t) ∷ ts) s =
    let (others, last) = end_tracks status ts (send_control_frame (publish_done status t) s) in
    ((i, record t { timer_due = none }) ∷ others, last)

-- The subscriptions end, and every open stream is reset.
unfoldable pub shut_streams : Moment → ℤ → Publisher → Publisher
unfolding reset_all
shut_streams m status s =
    reset_all s.subgroup_streams (record s {
      subscriptions_ended = true;
      termination_time = m.now;
      termination_status = status;
    })

-- Every buffered object is counted as lost, and the buffer is cleared.
unfoldable pub shed_buffer : Publisher → Publisher
unfolding shed_all
shed_buffer s =
    let shed = shed_all (contents s.send_buffer) s in
    record shed { send_buffer = []; send_buffer_count = 0; outstanding = [] }

unfoldable pub announce_end : ℤ → Publisher → Publisher
unfolding end_tracks
announce_end status s =
    let (tracks, last) = end_tracks status s.tracks s in record last { tracks = tracks }

-- terminateSubscriptions
unfoldable pub terminate_subscriptions : Moment → ℤ → Publisher → Publisher
unfolding shut_streams shed_buffer announce_end
terminate_subscriptions m status s =
    if s.subscriptions_ended then s else announce_end status (shed_buffer (shut_streams m status s))

-- enqueuePending
unfoldable pub enqueue_pending : Moment → Pending → Publisher → Publisher
unfolding terminate_subscriptions
enqueue_pending m p s =
    let s' = record s {
      send_buffer = push_back p.priority p s.send_buffer;
      send_buffer_count = s.send_buffer_count + 1;
    } in
    if leb s'.send_buffer_count s'.send_buffer_limit
    then s'
    else terminate_subscriptions m pubdone_too_far_behind s'
