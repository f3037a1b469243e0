-- ===== src/Publisher/Streams/Objects.antt =====
-- applications/moq/MoqPublisherApp.cc: the sending of objects keeps the streams in order.
use moq_veins_simulation_the.Base.{
  ℕ, ◌+◌, List, [], ◌∷◌, map, inl, inr, All, Option-cases, if_both, leb, ◌==◌,
}
use moq_veins_simulation_the.SendBuffer.{push_back, contents, All-push_back}
use moq_veins_simulation_the.Quic.{
  Out, Moment, quic, tcp, udp, send_tcp, send_udp, err_send_buffer_overflow,
}
use moq_veins_simulation_the.MoqFraming.Object.{ObjectFrame, encode}
use moq_veins_simulation_the.MoqFraming.Envelope.{encode_envelope, msg_object}
use moq_veins_simulation_the.MoqFraming.Fragment.{fragment_frame}
use moq_veins_simulation_the.MoqFraming.Control.{pubdone_too_far_behind}
use moq_veins_simulation_the.Publisher.State.{TrackMeta, Pending, Publisher}
use moq_veins_simulation_the.Publisher.Send.{charge, emit_all}
use moq_veins_simulation_the.Publisher.Teardown.{enqueue_pending}
use moq_veins_simulation_the.Publisher.Events.{key_of, send_object_quic, send_object_frame}
use moq_veins_simulation_the.Publisher.Streams.Core.{at_key, Evolves}
use moq_veins_simulation_the.Publisher.Streams.Sweeps.{
  PendingTied, IsStreams, keep_pending, keep_outstanding,
}
use moq_veins_simulation_the.Publisher.Streams.Teardown.{
  control-Streams, IsControl, udp-IsControl, terminate_subscriptions-IsStreams,
}
use moq_veins_simulation_the.Publisher.Streams.Flush.{flush_send_buffer-IsStreams}
use moq_veins_simulation_the.Publisher.Streams.Open.{open_stream-Tied}

enqueue_pending-IsStreams :
    (m : Moment) (p : Pending) (s : Publisher)
    → IsStreams s
    → PendingTied s p
    → IsStreams (enqueue_pending m p s)
unfolding enqueue_pending
enqueue_pending-IsStreams m p s w t =
    let s' : Publisher = record s {
      send_buffer = push_back p.priority p s.send_buffer;
      send_buffer_count = s.send_buffer_count + 1;
    } in
    let w' : IsStreams s' = record {
      streams = w.streams;
      pending = All-push_back (PendingTied s) p.priority p s.send_buffer t w.pending;
      outstanding = w.outstanding;
    } in
    if_both IsStreams (leb s'.send_buffer_count s'.send_buffer_limit) _ _ w'
      (terminate_subscriptions-IsStreams m pubdone_too_far_behind s' w')

pub evolved : (s s' : Publisher) → Evolves s s' → IsStreams s → IsStreams s'
evolved s s' e w = record {
  streams = e.streams;
  pending = rw e.send_buffer (keep_pending s s' (contents s.send_buffer) e w.pending);
  outstanding = rw e.outstanding (keep_outstanding s s' s.outstanding e w.outstanding);
}

-- What a handler does besides.
module _ (s : Publisher) (w : IsStreams s) where
  pub retracked : (ts : List (ℕ × TrackMeta)) → IsStreams (record s { tracks = ts })
  retracked ts = record { streams = w.streams; pending = w.pending; outstanding = w.outstanding }

charge-IsStreams : (code tid : ℕ) (s : Publisher) → IsStreams s → IsStreams (charge code tid s)
unfolding charge
charge-IsStreams code tid s w =
    if_both IsStreams (code == err_send_buffer_overflow) _ _
      (record { streams = w.streams; pending = w.pending; outstanding = w.outstanding })
      (record { streams = w.streams; pending = w.pending; outstanding = w.outstanding })

send_object_quic-IsStreams :
    (m : Moment) (f : ObjectFrame) (tid : ℕ) (s : Publisher)
    → IsStreams s
    → IsStreams (send_object_quic m f tid s)
unfolding send_object_quic
send_object_quic-IsStreams m f tid s w =
    elim (Option-cases (at_key (key_of f tid) s.reset_subgroups)) [
      | inr (code, e) ↦ rw (e, send_object_quic) (charge-IsStreams code tid s w)
      | inl e ↦
          let (ev, t) = open_stream-Tied (key_of f tid) s w.streams e in
          rw (e, send_object_quic)
            (flush_send_buffer-IsStreams m _ (enqueue_pending-IsStreams m _ _ (evolved s _ ev w) t))
    ]

-- The calls of TCP and of UDP.
emitted :
    (s : Publisher) (os : List Out)
    → All IsControl os
    → IsStreams s
    → IsStreams (record s { out = emit_all os s.out })
emitted s os c w = record {
  streams =
      control-Streams s.subgroup_streams s.reset_subgroups s.next_stream_id os s.out c w.streams;
  pending = w.pending;
  outstanding = w.outstanding;
}

pub send_object_frame-IsStreams :
    (m : Moment) (f : ObjectFrame) (tid : ℕ) (s : Publisher)
    → IsStreams s
    → IsStreams (send_object_frame m f tid s)
unfolding send_object_frame emit_all
send_object_frame-IsStreams m f tid s w =
    let datagrams =
      map send_udp
        (fragment_frame msg_object f.track_alias f.object_id (encode f) s.udp_fragment_size) in
    let frame = encode_envelope msg_object (encode f) in
    if_both IsStreams s.subscriptions_ended _ _ w
      (elim s.proto
        as (λ p. IsStreams (elim p as (λ x. Publisher) [
          | quic ↦ send_object_quic m f tid s
          | tcp ↦ record s { out = send_tcp frame ∷ s.out }
          | udp ↦ record s { out = emit_all datagrams s.out }
        ])) [
          | quic ↦ send_object_quic-IsStreams m f tid s w
          | tcp ↦ emitted s (send_tcp frame ∷ []) (tt, tt) w
          | udp ↦ emitted s datagrams (udp-IsControl _) w
        ])
