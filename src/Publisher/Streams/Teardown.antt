-- ===== src/Publisher/Streams/Teardown.antt =====
-- applications/moq/MoqPublisherApp.cc: control frames and the teardown keep the streams in order.
use moq_veins_simulation_the.Base.{
  ℕ, ◌≡◌, refl, ℤ, true, List, [], ◌∷◌, map, All, All-map, if_both, negsuc,
}
use moq_veins_simulation_the.Reader.{Bytes}
use moq_veins_simulation_the.SendBuffer.{contents}
use moq_veins_simulation_the.Quic.{
  Protocol, quic, tcp, udp, Out, send_quic, reset_stream, send_tcp, send_udp, Moment,
  control_stream, control_stream_priority, err_send_buffer_overflow,
}
use moq_veins_simulation_the.MoqFraming.Control.{ControlFrame, encode_control}
use moq_veins_simulation_the.MoqFraming.Envelope.{encode_envelope, msg_control}
use moq_veins_simulation_the.MoqFraming.Fragment.{fragment_frame}
use moq_veins_simulation_the.Publisher.State.{SubgroupKey, TrackMeta, Pending, Publisher}
use moq_veins_simulation_the.Publisher.Send.{emit_all, reset_subgroup_stream}
use moq_veins_simulation_the.Publisher.Teardown.{
  send_control_frame, reset_all, shed_all, publish_done, end_tracks, shut_streams, shed_buffer,
  announce_end, terminate_subscriptions,
}
use moq_veins_simulation_the.Publisher.Streams.Core.{
  is_reset, Safe, StreamMap, Live, Streams, StreamsOf, TiedOf, Evolves, stays, then_Evolves,
  reset-Evolves, calls-Streams,
}
use moq_veins_simulation_the.Publisher.Streams.Sweeps.{IsStreams}

-- Calls that write on no data stream and reset none.
abbrev pub IsControl : Out → Type 0
IsControl (send_quic i prio bytes) = i ≡ control_stream
IsControl (reset_stream i code) = ⊥
IsControl (send_tcp bytes) = Unit {0}
IsControl (send_udp bytes) = Unit {0}

pub control-Streams :
    (streams resets : StreamMap) (next : ℕ) (os : List Out) (log : List Out)
    → All IsControl os
    → Streams streams resets next log
    → Streams streams resets next (emit_all os log)
unfolding Safe is_reset emit_all
control-Streams streams resets next [] log c w = w
control-Streams streams resets next (send_quic i prio bytes ∷ os) log (e, c) w =
    control-Streams streams resets next os (send_quic i prio bytes ∷ log) c
      (calls-Streams streams resets next log _ w (rw e w.control, w.safe) (λ j. refl))
control-Streams streams resets next (reset_stream i code ∷ os) log (e, c) w = absurd e
control-Streams streams resets next (send_tcp bytes ∷ os) log (e, c) w =
    control-Streams streams resets next os (send_tcp bytes ∷ log) c
      (calls-Streams streams resets next log _ w w.safe (λ j. refl))
control-Streams streams resets next (send_udp bytes ∷ os) log (e, c) w =
    control-Streams streams resets next os (send_udp bytes ∷ log) c
      (calls-Streams streams resets next log _ w w.safe (λ j. refl))

pub udp-IsControl : (bs : List Bytes) → All IsControl (map send_udp bs)
udp-IsControl [] = tt
udp-IsControl (b ∷ bs) = (tt, udp-IsControl bs)

calls-IsControl :
    (p : Protocol) (alias frame : Bytes) (n : ℕ)
    → All IsControl (elim p as (λ x. List Out) [
      | quic ↦ send_quic control_stream control_stream_priority frame ∷ []
      | tcp ↦ send_tcp (encode_envelope msg_control frame) ∷ []
      | udp ↦ map send_udp (fragment_frame msg_control alias (negsuc 0) frame n)
    ])
calls-IsControl quic alias frame n = (refl, tt)
calls-IsControl tcp alias frame n = (tt, tt)
calls-IsControl udp alias frame n =
    udp-IsControl (fragment_frame msg_control alias (negsuc 0) frame n)

pub send_control_frame-Evolves :
    (c : ControlFrame) (s : Publisher) → StreamsOf s → Evolves s (send_control_frame c s)
unfolding send_control_frame
send_control_frame-Evolves c s w = record {
  streams =
      control-Streams s.subgroup_streams s.reset_subgroups s.next_stream_id _ s.out
        (calls-IsControl s.proto c.track_alias (encode_control c) s.udp_fragment_size) w;
  keeps = λ k i t. t;
  outstanding = refl;
  send_buffer = refl;
}

end_tracks-Evolves :
    (status : ℤ) (ts : List (ℕ × TrackMeta)) (s : Publisher)
    → StreamsOf s
    → Evolves s (end_tracks status ts s).1
unfolding end_tracks
end_tracks-Evolves status [] s w = stays s w
end_tracks-Evolves status ((i, t) ∷ ts) s w =
    let s' = send_control_frame (publish_done status t) s in
    let first = send_control_frame-Evolves (publish_done status t) s w in
    then_Evolves s s' (end_tracks status ts s').1 first
      (end_tracks-Evolves status ts s' first.streams)

reset_all-Evolves :
    (es : StreamMap) (s : Publisher)
    → StreamsOf s
    → All (λ (e : SubgroupKey × ℕ). TiedOf s e.0 e.1) es
    → Evolves s (reset_all es s)
unfolding reset_all
reset_all-Evolves [] s w a = stays s w
reset_all-Evolves ((key, id) ∷ es) s w (t, a) =
    let s' = reset_subgroup_stream key id err_send_buffer_overflow s in
    let first = reset-Evolves key id err_send_buffer_overflow s w t in
    then_Evolves s s' (reset_all es s') first (
      reset_all-Evolves es s' first.streams
        (All-map (λ (e : SubgroupKey × ℕ). TiedOf s e.0 e.1) (λ e h. first.keeps e.0 e.1 h) es a))

-- The fields that the loop over the buffered objects leaves alone.
shed_all-StreamsOf : (ps : List Pending) (s : Publisher) → StreamsOf s → StreamsOf (shed_all ps s)
unfolding shed_all
shed_all-StreamsOf [] s w = w
shed_all-StreamsOf (p ∷ ps) s w = shed_all-StreamsOf ps _ w

-- The teardown keeps the streams in order.
pub terminate_subscriptions-IsStreams :
    (m : Moment) (status : ℤ) (s : Publisher)
    → IsStreams s
    → IsStreams (terminate_subscriptions m status s)
unfolding terminate_subscriptions announce_end shed_buffer shut_streams contents
terminate_subscriptions-IsStreams m status s w =
    let ended : Publisher = record s {
      subscriptions_ended = true;
      termination_time = m.now;
      termination_status = status;
    } in
    let tied =
      All-map
        (λ (e : SubgroupKey × ℕ).
          Live s.subgroup_streams s.reset_subgroups s.next_stream_id s.out e.0 e.1)
        (λ e l. l.tied) s.subgroup_streams w.streams.entries in
    let reset = reset_all-Evolves s.subgroup_streams ended w.streams tied in
    let shut = shut_streams m status s in
    let shed = shed_buffer shut in
    let last =
      end_tracks-Evolves status shed.tracks shed
        (shed_all-StreamsOf (contents shut.send_buffer) shut reset.streams) in
    if_both IsStreams s.subscriptions_ended _ _ w (record {
      streams = last.streams;
      pending = rw last.send_buffer tt;
      outstanding = rw last.outstanding tt;
    })
