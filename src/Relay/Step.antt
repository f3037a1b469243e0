-- ===== src/Relay/Step.antt =====
-- The counters of the relay over its handlers: objects, control messages, timers and flow control.
use moq_veins_simulation_the.Base.{
  ℕ, ◌+◌, ◌≡◌, refl, ◌∙◌, arith, ℤ, some, List, [], ◌∷◌, map, inl, inr, Option-cases, if_both,
  ite-some, subst, leb, lookup, ◌==◌,
}
use mathlib.Core.Option.{some-injective}
use moq_veins_simulation_the.Reader.{Bytes, Bytes-discrete}
use moq_veins_simulation_the.Quic.{
  Protocol, quic, tcp, udp, Out, send_quic, control_stream, control_stream_priority,
}
use moq_veins_simulation_the.MoqFraming.Object.{ObjectFrame}
use moq_veins_simulation_the.MoqFraming.Control.{
  ControlFrame, encode_control, ctrl_announce, ctrl_subscribe, ctrl_publish_done,
  pubdone_track_ended,
}
use moq_veins_simulation_the.Relay.State.{
  TrackKey, TrackKey-discrete, DownSubgroup, DownSubgroup-discrete, SockSendState, OutstandingFwd,
  RelayMoment, Relay,
}
use moq_veins_simulation_the.Relay.Send.{
  reset_stream_of, charge, shed_stale, shed_overflow, record_forward, check_outstanding,
  sweep_outstanding, check_outstanding_timeouts, flush_all, timeout_check,
}
use moq_veins_simulation_the.Relay.Control.{
  key_of, alias_of, subscribers, register_track, add_subscriber, tell_publisher, end_socket,
  send_publish_done, unsubscribe, end_subscriber_track, end_each, end_track_downstream,
  handle_control_frame,
}
use moq_veins_simulation_the.Relay.Forward.{
  split_alias, open_stream, sock_state, tracks_with, check_limit, end_tracks, forward_quic,
  forward_to_subscriber, forward_all, count_received, on_object_frame, subgroup_of, key_of_alias,
  Sids-discrete,
}
use moq_veins_simulation_the.Relay.Count.{
  IsCounted, flush_socket-IsCounted, end_socket-IsCounted, enqueue-IsCounted,
}

-- What the counters are read from.
abbrev pub Same : Relay → Relay → Type 0
Same s s' = (s'.sock_send ≡ s.sock_send) × (s'.pending_forward_count ≡ s.pending_forward_count)

pub IsCounted-Same : (s s' : Relay) → Same s s' → IsCounted s → IsCounted s'
unfolding IsCounted
IsCounted-Same s s' (a, b) (c, d, e) = (rw a c, rw (a, b) d, rw a e)

pub send_publish_done-Same :
    (sid : Bytes) (k : TrackKey) (status : ℤ) (s : Relay)
    → Same s (send_publish_done sid k status s)
unfolding send_publish_done
send_publish_done-Same sid k status s = ground arith

pub unsubscribe-Same : (sid : Bytes) (k : TrackKey) (s : Relay) → Same s (unsubscribe sid k s)
unfolding unsubscribe
unsubscribe-Same sid k s = ground arith

pub end_subscriber_track-IsCounted :
    (sid : Bytes) (k : TrackKey) (status : ℤ) (s : Relay)
    → IsCounted s
    → IsCounted (end_subscriber_track sid k status s)
unfolding end_subscriber_track
end_subscriber_track-IsCounted sid k status s h =
    elim (Option-cases (lookup Bytes-discrete sid s.subscriber_peers)) [
      | inl e ↦ rw (e, end_subscriber_track) h
      | inr (sock, e) ↦
          let ended = end_socket (alias_of k) sock s in
          let told = send_publish_done sid k status ended in
          rw (e, end_subscriber_track)
            (IsCounted-Same told _ (unsubscribe-Same sid k told) (
              IsCounted-Same ended told (send_publish_done-Same sid k status ended)
                (end_socket-IsCounted (alias_of k) sock s h)))
    ]

end_each-IsCounted :
    (sids : List Bytes) (k : TrackKey) (status : ℤ) (s : Relay)
    → IsCounted s
    → IsCounted (end_each sids k status s)
unfolding end_each
end_each-IsCounted [] k status s h = h
end_each-IsCounted (sid ∷ sids) k status s h =
    end_each-IsCounted sids k status _ (end_subscriber_track-IsCounted sid k status s h)

end_tracks-IsCounted :
    (sid : Bytes) (ks : List TrackKey) (s : Relay) → IsCounted s → IsCounted (end_tracks sid ks s)
unfolding end_tracks
end_tracks-IsCounted sid [] s h = h
end_tracks-IsCounted sid (k ∷ ks) s h =
    end_tracks-IsCounted sid ks _ (end_subscriber_track-IsCounted sid k _ s h)

check_limit-IsCounted :
    (id : ℕ) (sid : Bytes) (s : Relay) → IsCounted s → IsCounted (check_limit id sid s)
unfolding check_limit
check_limit-IsCounted id sid s h =
    let dropped : Relay = record s { relay_dropped_total = s.relay_dropped_total + 1 } in
    if_both IsCounted (leb (sock_state id s).count s.quic_forward_buffer_limit) s _ h (
      end_tracks-IsCounted sid (tracks_with sid s.subscriber_by_track) dropped
        (IsCounted-Same s dropped (refl, refl) h))

open_stream-Same : (key : DownSubgroup) (s : Relay) → Same s (open_stream key s).1
unfolding open_stream
open_stream-Same key s = ground arith

charge-Same : (code : ℕ) (alias : Bytes) (s : Relay) → Same s (charge code alias s)
unfolding charge shed_stale shed_overflow
charge-Same code alias s = ground arith

forward_quic-IsCounted :
    (m : RelayMoment) (sid : Bytes) (sock : ℕ) (f : ObjectFrame) (frame : Bytes)
    (first_byte_time : ℤ) (s : Relay)
    → IsCounted s
    → IsCounted (forward_quic m sid sock f frame first_byte_time s)
unfolding forward_quic
forward_quic-IsCounted m sid sock f frame first_byte_time s h =
    elim (Option-cases (lookup DownSubgroup-discrete (subgroup_of sid f) s.reset_downstream)) [
      | inl e ↦
          rw (e, forward_quic)
            (flush_socket-IsCounted m sock _ (
              check_limit-IsCounted sock sid _ (
                enqueue-IsCounted sock _ _
                  (IsCounted-Same s _ (open_stream-Same (subgroup_of sid f) s) h))))
      | inr (code, e) ↦
          rw (e, forward_quic) (IsCounted-Same s _ (charge-Same code f.track_alias s) h)
    ]

forward_to_subscriber-IsCounted :
    (m : RelayMoment) (sid : Bytes) (f : ObjectFrame) (frame : Bytes) (first_byte_time : ℤ)
    (s : Relay)
    → IsCounted s
    → IsCounted (forward_to_subscriber m sid f frame first_byte_time s)
unfolding forward_to_subscriber record_forward
forward_to_subscriber-IsCounted m sid f frame first_byte_time s h =
    elim (Option-cases (lookup Bytes-discrete sid s.subscriber_peers)) [
      | inl e ↦ rw (e, forward_to_subscriber) h
      | inr (peer, e) ↦
          rw (e, forward_to_subscriber)
            (by_protocol s.proto _ _ _
              (forward_quic-IsCounted m sid peer f frame first_byte_time s h)
              (IsCounted-Same s _ (refl, refl) h) (IsCounted-Same s _ (refl, refl) h))
    ]
  where
    by_protocol :
        (p : Protocol) (x y z : Relay)
        → IsCounted x
        → IsCounted y
        → IsCounted z
        → IsCounted (elim p [ quic ↦ x | tcp ↦ y | udp ↦ z ])
    by_protocol quic x y z hx hy hz = hx
    by_protocol tcp x y z hx hy hz = hy
    by_protocol udp x y z hx hy hz = hz

forward_all-IsCounted :
    (m : RelayMoment) (k : TrackKey) (sids : List Bytes) (f : ObjectFrame) (frame : Bytes)
    (first_byte_time : ℤ) (s s' : Relay)
    → forward_all m k sids f frame first_byte_time s ≡ some s'
    → IsCounted s
    → IsCounted s'
unfolding forward_all
forward_all-IsCounted m k [] f frame first_byte_time s s' e h =
    let same : s ≡ s' = some-injective s s' e in subst IsCounted same h
forward_all-IsCounted m k (sid ∷ sids) f frame first_byte_time s s' e h =
    let next = forward_to_subscriber m sid f frame first_byte_time s in
    forward_all-IsCounted m k sids f frame first_byte_time next s'
      (ite-some
        (Sids-discrete (lookup TrackKey-discrete k next.subscriber_by_track)
          (lookup TrackKey-discrete k s.subscriber_by_track))
        _ s' e)
      (forward_to_subscriber-IsCounted m sid f frame first_byte_time s h)

count_received-Same : (alias : Bytes) (s : Relay) → Same s (count_received alias s)
unfolding count_received
count_received-Same alias s = (refl, refl)

-- Where the count of every socket is the number of objects that wait for it and the queue depth
-- is their sum, an object that arrives leaves it so, if the loop over the subscribers does not
-- go on with a changed vector.
pub on_object_frame-IsCounted :
    (m : RelayMoment) (f : ObjectFrame) (frame : Bytes) (first_byte_time : ℤ) (s s' : Relay)
    → on_object_frame m f frame first_byte_time s ≡ some s'
    → IsCounted s
    → IsCounted s'
unfolding on_object_frame
on_object_frame-IsCounted m f frame first_byte_time s s' e h =
    let counted : Relay = count_received f.track_alias s in
    let h' : IsCounted counted = IsCounted-Same s counted (count_received-Same f.track_alias s) h in
    elim (Option-cases (split_alias f.track_alias)) [
      | inl e1 ↦ subst IsCounted (some-injective s s' (rw (e1, on_object_frame) at e)) h
      | inr (x, e1) ↦
          elim (Option-cases
            (lookup TrackKey-discrete (key_of_alias x) counted.subscriber_by_track)) [
              | inl e2 ↦
                  subst IsCounted (some-injective counted s' (rw (e1, e2, on_object_frame) at e)) h'
              | inr (sids, e2) ↦
                  forward_all-IsCounted m (key_of_alias x) sids f frame first_byte_time counted s'
                    (rw (e1, e2, on_object_frame) at e) h'
            ]
    ]

tell_publisher-Same :
    (calls : ControlFrame → List Out) (c : ControlFrame) (s : Relay)
    → Same s (tell_publisher calls c s)
unfolding tell_publisher
tell_publisher-Same calls c s = ground arith

-- Where the count of every socket is the number of objects that wait for it and the queue depth
-- is their sum, every control message over QUIC leaves it so, the end of a track included.
pub handle_control_frame-IsCounted :
    (peer : ℕ) (c : ControlFrame) (s : Relay)
    → IsCounted s
    → IsCounted (handle_control_frame peer c s)
unfolding handle_control_frame add_subscriber register_track end_track_downstream
handle_control_frame-IsCounted peer c s h =
    let announced : IsCounted (register_track peer c s) = IsCounted-Same s _ (refl, refl) h in
    let added : IsCounted (add_subscriber peer c s) = IsCounted-Same s _ (refl, refl) h in
    let subscribed : IsCounted (
        tell_publisher
          (λ ok. send_quic control_stream control_stream_priority (encode_control ok) ∷ []) c
          (add_subscriber peer c s)) =
      IsCounted-Same (add_subscriber peer c s) _
        (tell_publisher-Same
          (λ ok. send_quic control_stream control_stream_priority (encode_control ok) ∷ []) c
          (add_subscriber peer c s))
        added in
    let done : IsCounted (end_track_downstream (key_of c) pubdone_track_ended s) =
      end_each-IsCounted (subscribers (key_of c) s) (key_of c) pubdone_track_ended s h in
    if_both IsCounted (c.kind == ctrl_announce) _ _ announced (
      if_both IsCounted (c.kind == ctrl_subscribe) _ _ subscribed
        (if_both IsCounted (c.kind == ctrl_publish_done) _ _ done h))

check_outstanding-Same :
    (m : RelayMoment) (o : OutstandingFwd) (s : Relay) → Same s (check_outstanding m o s)
unfolding check_outstanding reset_stream_of
check_outstanding-Same m o s = ground arith

sweep_outstanding-Same :
    (m : RelayMoment) (os : List OutstandingFwd) (s : Relay) → Same s (sweep_outstanding m os s).1
unfolding sweep_outstanding
sweep_outstanding-Same m [] s = (refl, refl)
sweep_outstanding-Same m (o ∷ os) s =
    let (a, b) = check_outstanding-Same m o s in
    let (c, d) = sweep_outstanding-Same m os (check_outstanding m o s) in (c ∙ a, d ∙ b)

flush_all-IsCounted :
    (m : RelayMoment) (ids : List ℕ) (s : Relay) → IsCounted s → IsCounted (flush_all m ids s)
unfolding flush_all
flush_all-IsCounted m [] s h = h
flush_all-IsCounted m (id ∷ ids) s h = flush_all-IsCounted m ids _ (flush_socket-IsCounted m id s h)

-- Where the count of every socket is the number of objects that wait for it and the queue depth
-- is their sum, the check of the delivery timeouts with the flushes of all sockets leaves it
-- so.
pub timeout_check-IsCounted :
    (m : RelayMoment) (s : Relay) → IsCounted s → IsCounted (timeout_check m s)
unfolding timeout_check check_outstanding_timeouts
timeout_check-IsCounted m s h =
    let checked = check_outstanding_timeouts m s in
    flush_all-IsCounted m (map (λ (e : ℕ × SockSendState). e.0) checked.sock_send) checked
      (IsCounted-Same s checked (sweep_outstanding-Same m s.outstanding s) h)
