-- ===== src/Subscriber/Receive.antt =====
-- applications/moq/MoqSubscriberApp.cc: the receives of the three transports, the statistics, the end
-- of the subscription, and SUBSCRIBE.
use moq_veins_simulation_the.Base.{
  ℕ, ◌+◌, ℤ, negsuc, Bool, List, [], ◌∷◌, ◌++◌, Option, none, some, ◌==◌, if◌then◌else◌, lookup,
  insert, erase, ℕ_discrete, false,
}
use mathlib.Core.Option
use moq_veins_simulation_the.Reader.{Bytes, Bytes-discrete, incomplete, parsed, overread}
use moq_veins_simulation_the.Stream.{Drain, drained, past_end, stuck, drain}
use moq_veins_simulation_the.Quic.{control_stream}
use moq_veins_simulation_the.MoqFraming.Object.{ObjectFrame, try_parse}
use moq_veins_simulation_the.MoqFraming.Control.{ControlFrame, ctrl_publish_done, try_parse_control}
use moq_veins_simulation_the.MoqFraming.Envelope.{
  Enveloped, control, object, unknown_class, msg_object, try_parse_envelope,
}
use moq_veins_simulation_the.MoqFraming.Fragment.{UdpFragment, parse_udp_fragment}
use moq_veins_simulation_the.MoqFraming.Reassembly.{Reassembler, empty, add}
use moq_veins_simulation_the.Broker.Sets.{set_insert}
use moq_veins_simulation_the.Subscriber.Stats.{MoqTrackStat, no_objects, add_object, is_negative}
use moq_veins_simulation_the.Subscriber.State.{
  ObjectKey, ObjectKey-discrete, StreamReassembler, recv, Subscriber,
}

-- trackStat
unfoldable pub track_stat : Bytes → Subscriber → MoqTrackStat
track_stat alias s = elim (lookup Bytes-discrete alias s.sub_stats) [
  | none ↦ no_objects
  | some ts ↦ ts
]

-- recordObject
unfoldable pub record_object : ObjectFrame → ℤ → ℤ → Subscriber → Subscriber
unfolding track_stat add_object
record_object f frame_start_time now s = record s {
  sub_stats =
      insert Bytes-discrete f.track_alias
        (add_object f frame_start_time now (track_stat f.track_alias s)) s.sub_stats;
  receive_count = s.receive_count + 1;
}

-- noteSubscriptionEnded
unfoldable pub note_subscription_ended : ℤ → ControlFrame → Subscriber → Subscriber
note_subscription_ended now c s =
    if is_negative s.subscription_end_time
    then record s { subscription_end_time = now; subscription_end_status = c.status_code }
    else s

-- The stream that the set names first.
unfoldable pub start_next_recv : Subscriber → Subscriber
start_next_recv s = elim s.recv_pending [
  | [] ↦ record s { recv_in_flight = none }
  | id ∷ ids ↦ record s { recv_pending = ids; recv_in_flight = some id; out = recv id ∷ s.out }
]

-- `recvInFlight == s`
unfoldable pub is_in_flight : ℕ → Subscriber → Bool
is_in_flight id s = elim s.recv_in_flight [ none ↦ false | some i ↦ id == i ]

-- socketDataAvailable
unfoldable pub data_available : ℕ → Subscriber → Subscriber
unfolding start_next_recv set_insert is_in_flight
data_available id s =
    let noted = record s { recv_pending = set_insert id s.recv_pending } in
    if is_in_flight id s
    then s
    else elim s.recv_in_flight [ none ↦ start_next_recv noted | some i ↦ noted ]

-- The loops over the parsed frames: of a data stream, of the control stream, and of TCP. The frame
-- behind the first one began to arrive now.
unfoldable pub record_objects : ℤ → ℤ → List ObjectFrame → Subscriber → Subscriber
unfolding record_object
record_objects start now [] s = s
record_objects start now (f ∷ fs) s = record_objects now now fs (record_object f start now s)

unfoldable pub note_controls : ℤ → List ControlFrame → Subscriber → Subscriber
unfolding note_subscription_ended
note_controls now [] s = s
note_controls now (c ∷ cs) s =
    note_controls now cs
      (if c.kind == ctrl_publish_done then note_subscription_ended now c s else s)

-- Over TCP, a control frame is skipped, whatever its kind.
unfoldable pub record_enveloped : ℤ → ℤ → List Enveloped → Subscriber → Subscriber
unfolding record_object
record_enveloped start now [] s = s
record_enveloped start now (e ∷ es) s =
    record_enveloped now now es
      (elim e [ control c ↦ s | object f ↦ record_object f start now s | unknown_class ↦ s ])

-- `streamBuffers[streamId]`
unfoldable pub stream_buffer : ℕ → Subscriber → StreamReassembler
stream_buffer id s = elim (lookup ℕ_discrete id s.stream_buffers) [
  | none ↦ record { content = []; frame_start_time = negsuc 0 }
  | some rb ↦ rb
]

-- `if (rb.data.empty()) rb.frameStartTime = now;`
abbrev pub started : ℤ → Bytes → ℤ → ℤ
started now content start = elim content [ [] ↦ now | b ∷ bs ↦ start ]

-- With a frame parsed, the next one's first byte arrived now.
abbrev pub restarted : {A : Type 0} → ℤ → List A → ℤ → ℤ
restarted now fs start = elim fs [ [] ↦ start | f ∷ gs ↦ now ]

unfoldable pub keep_stream : ℕ → Bytes → ℤ → Subscriber → Subscriber
keep_stream id rest start s = record s {
  stream_buffers =
      insert ℕ_discrete id (record { content = rest; frame_start_time = start }) s.stream_buffers;
}

-- The loops of socketDataArrived of QUIC on a stream's buffer: the frames are handled, and what is
-- left stays. A read past the buffer's end is `none`.
unfoldable pub took_controls : ℤ → ℕ → ℤ → Drain ControlFrame → Subscriber → Option Subscriber
unfolding note_controls keep_stream
took_controls now id start (drained cs rest) s =
    some (note_controls now cs (keep_stream id rest start s))
took_controls now id start past_end s = none
took_controls now id start stuck s = none

unfoldable pub took_objects : ℤ → ℕ → ℤ → Drain ObjectFrame → Subscriber → Option Subscriber
unfolding record_objects keep_stream
took_objects now id start (drained fs rest) s =
    some (record_objects start now fs (keep_stream id rest (restarted now fs start) s))
took_objects now id start past_end s = none
took_objects now id start stuck s = none

-- socketDataArrived of QUIC, up to the next recv.
unfoldable pub stream_arrived : ℤ → ℕ → Bytes → Subscriber → Option Subscriber
unfolding stream_buffer took_controls took_objects
stream_arrived now id bytes s =
    let rb = stream_buffer id s in
    let start = started now rb.content rb.frame_start_time in
    if id == control_stream
    then took_controls now id start (drain try_parse_control (rb.content ++ bytes)) s
    else took_objects now id start (drain try_parse (rb.content ++ bytes)) s

-- socketDataArrived of QUIC. The packet is that of the recv in flight; QUIC delivers none without.
unfoldable pub data_arrived : ℤ → Bytes → Subscriber → Option Subscriber
unfolding stream_arrived start_next_recv
data_arrived now bytes s = elim s.recv_in_flight [
  | none ↦ none
  | some id ↦
      Option.map start_next_recv (stream_arrived now id bytes (record s { recv_in_flight = none }))
]

-- socketStreamReset
unfoldable pub stream_reset : ℕ → Subscriber → Subscriber
stream_reset id s = elim (lookup ℕ_discrete id s.stream_buffers) [
  | none ↦ s
  | some rb ↦ record s {
    stream_buffers = erase ℕ_discrete id s.stream_buffers;
    objects_reset_by_peer = s.objects_reset_by_peer + 1;
  }
]

-- socketDataArrived of TCP
unfoldable pub tcp_arrived : ℤ → Bytes → Subscriber → Option Subscriber
unfolding record_enveloped
tcp_arrived now bytes s =
    let start = started now s.tcp_recv_buf s.tcp_frame_start in
    elim (drain try_parse_envelope (s.tcp_recv_buf ++ bytes)) [
      | drained es rest ↦ some (
          record_enveloped start now es
            (record s { tcp_recv_buf = rest; tcp_frame_start = restarted now es start }))
      | past_end ↦ none
      | stuck ↦ none
    ]

-- `udpReasm[key]`
unfoldable pub reassembler_of : ObjectKey → Subscriber → Reassembler
reassembler_of key s = elim (lookup ObjectKey-discrete key s.udp_reasm) [
  | none ↦ empty
  | some r ↦ r
]

-- The complete object is recorded if it is a frame, and its reassembler is erased.
unfoldable pub object_complete : ℤ → ObjectKey → Reassembler → Subscriber → Option Subscriber
unfolding record_object
object_complete now key r s =
    let erased = record s { udp_reasm = erase ObjectKey-discrete key s.udp_reasm } in
    elim (try_parse r.content) [
      | incomplete ↦ some erased
      | parsed (f, consumed) ↦ some (record_object f r.first_byte_time now erased)
      | overread ↦ none
    ]

unfoldable pub fragment_arrived : ℤ → UdpFragment → Subscriber → Option Subscriber
unfolding reassembler_of object_complete
fragment_arrived now f s =
    let key : ObjectKey = record { track_alias = f.track_alias; object_id = f.object_id } in
    let (r, complete) = add f now (reassembler_of key s) in
    if complete
    then object_complete now key r s
    else some (record s { udp_reasm = insert ObjectKey-discrete key r s.udp_reasm })

-- socketDataArrived of UDP
unfoldable pub udp_arrived : ℤ → Bytes → Subscriber → Option Subscriber
unfolding fragment_arrived
udp_arrived now bytes s = elim (parse_udp_fragment bytes) [
  | incomplete ↦ some s
  | parsed f ↦ if f.msg_class == msg_object then fragment_arrived now f s else some s
  | overread ↦ none
]
