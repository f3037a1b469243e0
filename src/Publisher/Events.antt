-- ===== src/Publisher/Events.antt =====
-- applications/moq/MoqPublisherApp.cc: sending objects, the track timers, and the handlers of events.
use moq_veins_simulation_the.Base.{
  ℕ, zero, suc, ◌+◌, ◌/◌, ℤ, pos, negsuc, ◌+ℤ◌, true, false, List, [], ◌∷◌, ◌++◌, map, none, some,
  if◌then◌else◌, ◌==◌, ite, lookup, insert, ℕ_discrete,
}
use moq_veins_simulation_the.Reader.{Bytes, Bytes-discrete}
use moq_veins_simulation_the.Quic.{quic, tcp, udp, send_tcp, send_udp, Moment}
use moq_veins_simulation_the.MoqFraming.Object.{ObjectFrame, encode}
use moq_veins_simulation_the.MoqFraming.Control.{
  ControlFrame, no_control, ctrl_announce, ctrl_subscribe_ok,
}
use moq_veins_simulation_the.MoqFraming.Envelope.{encode_envelope, msg_object}
use moq_veins_simulation_the.MoqFraming.Fragment.{fragment_frame}
use moq_veins_simulation_the.Publisher.State.{
  SubgroupKey, SubgroupKey-discrete, pub_announce, sub_success, TrackMeta, Pending, Publisher,
}
use moq_veins_simulation_the.Publisher.Send.{emit_all, charge, flush_send_buffer}
use moq_veins_simulation_the.Publisher.Teardown.{
  enqueue_pending, sweep_send_buffer_timeouts, check_outstanding_timeouts, send_control_frame,
}

abbrev pub key_of : ObjectFrame → ℕ → SubgroupKey
key_of f tid = record { tid = tid; group_id = f.group_id; subgroup_id = f.subgroup_id }

-- The stream of a subgroup, `(nextStreamId += 4) - 4` for a new one.
unfoldable pub open_stream : SubgroupKey → Publisher → ℕ × Publisher
open_stream key s = elim (lookup SubgroupKey-discrete key s.subgroup_streams) [
  | some stream_id ↦ (stream_id, s)
  | none ↦ (
    s.next_stream_id,
    record s {
      subgroup_streams = insert SubgroupKey-discrete key s.next_stream_id s.subgroup_streams;
      next_stream_id = s.next_stream_id + 4;
    },
  )
]

abbrev timeout_of : ℕ → Publisher → ℤ
timeout_of tid s = elim (lookup ℕ_discrete tid s.tracks) [
  | none ↦ pos 0
  | some t ↦ t.delivery_timeout
]

-- The case PROTO_QUIC of sendObjectFrame.
unfoldable pub send_object_quic : Moment → ObjectFrame → ℕ → Publisher → Publisher
unfolding charge open_stream enqueue_pending flush_send_buffer
send_object_quic m f tid s = elim (lookup SubgroupKey-discrete (key_of f tid) s.reset_subgroups) [
  | some code ↦ charge code tid s
  | none ↦
      let (stream_id, s') = open_stream (key_of f tid) s in
      let p : Pending = record {
        tid = tid;
        subgroup = key_of f tid;
        stream_id = stream_id;
        priority = f.priority;
        payload_length = f.payload_length;
        bytes = encode f;
        created_at = f.creation_time;
        timeout = timeout_of tid s';
        sent_offset = 0;
      } in
      flush_send_buffer m (enqueue_pending m p s')
]

-- sendObjectFrame
unfoldable pub send_object_frame : Moment → ObjectFrame → ℕ → Publisher → Publisher
unfolding send_object_quic emit_all
send_object_frame m f tid s = if s.subscriptions_ended then s else elim s.proto [
  | quic ↦ send_object_quic m f tid s
  | tcp ↦ record s { out = send_tcp (encode_envelope msg_object (encode f)) ∷ s.out }
  | udp ↦ record s {
    out =
        emit_all
          (map send_udp
            (fragment_frame msg_object f.track_alias f.object_id (encode f) s.udp_fragment_size))
          s.out;
  }
]

-- `objectsPerGroup > 0 ? objectsPerGroup : 1`
unfoldable pub per_group : TrackMeta → ℕ
per_group t = elim t.objects_per_group [ pos n ↦ (if n == 0 then 1 else n) | negsuc n ↦ 1 ]

-- The next object of a track, in the group that the burst belongs to.
unfoldable pub next_object : Moment → ℕ → TrackMeta → ObjectFrame
next_object m group_id t = record {
  track_id = pos t.track_id;
  track_alias = t.track_alias;
  group_id = pos group_id;
  subgroup_id = pos 0;
  object_id = pos t.next_object_id;
  priority = t.priority;
  payload_length = t.packet_size;
  creation_time = m.now;
}

-- `ps.objectsOffered++; ps.bytesOffered += packetSize`
unfoldable pub offer : TrackMeta → Publisher → Publisher
offer t s = record s {
  pub_stats = λ i.
      let st = s.pub_stats i in
      ite (ℕ_discrete t.track_id i)
        (record st {
          objects_offered = st.objects_offered + 1;
          bytes_offered = st.bytes_offered +ℤ t.packet_size;
        })
        st;
}

-- The loop over the objects of a group. `track` points into the map: what the calls inside do to
-- the entry is read back after each of them.
unfoldable pub send_group : ℕ → Moment → ℕ → ℕ → Publisher → Publisher
unfolding next_object send_object_frame offer
send_group zero m tid group_id s = s
send_group (suc n) m tid group_id s = elim (lookup ℕ_discrete tid s.tracks) [
  | none ↦ s
  | some t ↦
      let f = next_object m group_id t in
      let counted = record s {
        tracks =
            insert ℕ_discrete tid (record t { next_object_id = t.next_object_id + 1 }) s.tracks;
      } in
      send_group n m tid group_id (offer t (send_object_frame m f tid counted))
]

-- sendTrackData, for a track that there is.
unfoldable pub send_track_data : Moment → ℕ → Publisher → Publisher
send_track_data m tid s =
    if s.subscriptions_ended then s else elim (lookup ℕ_discrete tid s.tracks) [
      | none ↦ s
      | some t ↦ record s {
        tracks =
            insert ℕ_discrete tid (record t { timer_due = some (m.now +ℤ t.send_interval) })
              s.tracks;
      }
    ]

unfoldable pub announce : TrackMeta → ControlFrame
announce t = record no_control {
  kind = ctrl_announce;
  track_id = pos t.track_id;
  publisher_id = t.publisher_id;
  priority = t.priority;
  payload_size = t.packet_size;
  send_interval = t.send_interval;
  delivery_timeout = t.delivery_timeout;
  track_namespace = t.track_namespace;
  track_name = t.track_name;
  track_alias = t.track_alias;
}

-- The branch SUB_SUCCESS of handleMessageWhenUp: one group, then the timer for the next.
unfoldable pub produce : Moment → ℕ → TrackMeta → Publisher → Publisher
unfolding send_group send_track_data per_group
produce m tid t s =
    if s.subscriptions_ended
    then s
    else send_track_data m tid (send_group (per_group t) m tid (t.next_object_id / per_group t) s)

-- A track's timer fires: it is no longer scheduled, and its kind says what is to be done.
unfoldable pub fire_timer : Moment → ℕ → Publisher → Publisher
unfolding produce announce
fire_timer m tid s = elim (lookup ℕ_discrete tid s.tracks) [
  | none ↦ s
  | some t ↦
      let s' = record s {
        tracks = insert ℕ_discrete tid (record t { timer_due = none }) s.tracks;
      } in
      if s'.sending_allowed
      then elim t.timer_kind [
        | pub_announce ↦ send_control_frame (announce t) s'
        | sub_success ↦ produce m tid t s'
      ]
      else s'
]

-- `track.trackAlias == trackAlias`, for the first track for which that holds.
unfoldable pub start_track : Moment → Bytes → List (ℕ × TrackMeta) → List (ℕ × TrackMeta)
start_track m wanted [] = []
start_track m wanted ((i, t) ∷ ts) =
    ite (Bytes-discrete t.track_alias wanted)
      ((i, record t { timer_kind = sub_success; timer_due = some m.now }) ∷ ts)
      ((i, t) ∷ start_track m wanted ts)

-- handleControlFrame
unfoldable pub handle_control_frame : Moment → ControlFrame → Publisher → Publisher
unfolding start_track
handle_control_frame m c s =
    if c.kind == ctrl_subscribe_ok
    then record s { tracks = start_track m (c.track_namespace ++ (b'/' ∷ c.track_name)) s.tracks }
    else s

-- sendTrackAnnouncementData
unfoldable pub schedule_all : Moment → List (ℕ × TrackMeta) → List (ℕ × TrackMeta)
schedule_all m [] = []
schedule_all m ((i, t) ∷ ts) = (i, record t { timer_due = some m.now }) ∷ schedule_all m ts

-- socketEstablished, and for UDP the connect timer.
unfoldable pub established : Moment → Publisher → Publisher
unfolding schedule_all
established m s = record s { sending_allowed = true; tracks = schedule_all m s.tracks }

-- The case TIMER_TIMEOUT_CHECK of handleTimeout.
unfoldable pub timeout_check : Moment → Publisher → Publisher
unfolding check_outstanding_timeouts sweep_send_buffer_timeouts flush_send_buffer
timeout_check m s =
    flush_send_buffer m (sweep_send_buffer_timeouts m (check_outstanding_timeouts m s))

-- socketSendQueueFull, socketSendQueueDrain
unfoldable pub send_queue_full : Publisher → Publisher
send_queue_full s = record s { quic_blocked = true }

unfoldable pub send_queue_drain : Moment → Publisher → Publisher
unfolding flush_send_buffer
send_queue_drain m s = flush_send_buffer m (record s { quic_blocked = false })

-- What can happen to a publisher.
pub data Event : Type 0 where
  connects queue_full queue_drain sweep_timer : Event
  track_timer : ℕ → Event
  control_frame : ControlFrame → Event

unfoldable pub step : Moment → Event → Publisher → Publisher
unfolding established send_queue_full send_queue_drain timeout_check fire_timer handle_control_frame
step m connects s = established m s
step m queue_full s = send_queue_full s
step m queue_drain s = send_queue_drain m s
step m sweep_timer s = timeout_check m s
step m (track_timer tid) s = fire_timer m tid s
step m (control_frame c) s = handle_control_frame m c s

unfoldable pub run : List (Moment × Event) → Publisher → Publisher
unfolding step
run [] s = s
run ((m, e) ∷ es) s = run es (step m e s)
