-- ===== src/Subscriber/Subscribe.antt =====
-- applications/moq/MoqSubscriberApp.cc: the SUBSCRIBE of each track.
use moq_veins_simulation_the.Base.{
  ℕ, ℤ, pos, negsuc, true, List, [], ◌∷◌, map, none, some, if◌then◌else◌, lookup, insert,
  ℕ_discrete,
}
use moq_veins_simulation_the.Reader.{Bytes}
use moq_veins_simulation_the.Quic.{
  quic, tcp, udp, Out, send_quic, send_tcp, send_udp, control_stream, control_stream_priority,
}
use moq_veins_simulation_the.MoqFraming.Control.{
  ControlFrame, no_control, ctrl_subscribe, encode_control,
}
use moq_veins_simulation_the.MoqFraming.Envelope.{msg_control, encode_envelope}
use moq_veins_simulation_the.MoqFraming.Fragment.{fragment_frame}
use moq_veins_simulation_the.Subscriber.State.{SubscribedTrack, SubCall, sent, Subscriber}

unfoldable pub log_sent : List Out → List SubCall → List SubCall
log_sent [] log = log
log_sent (o ∷ os) log = log_sent os (sent o ∷ log)

-- sendControlFrame: -1 is the object id of control fragments.
unfoldable pub subscriber_sends : ControlFrame → Subscriber → Subscriber
unfolding log_sent
subscriber_sends c s =
    let frame = encode_control c in
    let calls : List Out = elim s.proto [
      | quic ↦ send_quic control_stream control_stream_priority frame ∷ []
      | tcp ↦ send_tcp (encode_envelope msg_control frame) ∷ []
      | udp ↦
          map send_udp
            (fragment_frame msg_control c.track_alias (negsuc 0) frame s.udp_fragment_size)
    ] in
    record s { out = log_sent calls s.out }

unfoldable pub subscribe_frame : Bytes → SubscribedTrack → ControlFrame
subscribe_frame vehicle t = record no_control {
  kind = ctrl_subscribe;
  subscriber_id = vehicle;
  track_namespace = t.track_namespace;
  track_name = t.track_name;
  track_alias = t.track_alias;
  subscriber_priority = t.priority;
  start_object_id = pos 0;
}

-- A track's timer fires. `vehicle` is the name of the car.
unfoldable pub subscribe_timer : Bytes → ℕ → Subscriber → Subscriber
unfolding subscriber_sends subscribe_frame
subscribe_timer vehicle tid s = elim (lookup ℕ_discrete tid s.tracks) [
  | none ↦ s
  | some t ↦
      let fired = record s {
        tracks = insert ℕ_discrete tid (record t { timer_due = none }) s.tracks;
      } in
      if s.sending_allowed then subscriber_sends (subscribe_frame vehicle t) fired else fired
]

-- sendTrackSubscribeData
unfoldable pub schedule_subscribes : ℤ → List (ℕ × SubscribedTrack) → List (ℕ × SubscribedTrack)
schedule_subscribes now [] = []
schedule_subscribes now ((i, t) ∷ ts) =
    (i, record t { timer_due = some now }) ∷ schedule_subscribes now ts

-- socketEstablished, and for UDP the connect timer.
unfoldable pub subscriber_established : ℤ → Subscriber → Subscriber
unfolding schedule_subscribes
subscriber_established now s = record s {
  sending_allowed = true;
  tracks = schedule_subscribes now s.tracks;
}
