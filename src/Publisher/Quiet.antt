-- ===== src/Publisher/Quiet.antt =====
-- What of the publisher has no part in the pacing: all that writes nothing on a data stream.
use moq_veins_simulation_the.Base.{
  ℕ, ◌+◌, leb, ◌≡◌, ◌⊎◌, refl, arith, List, [], ◌∷◌, map, inl, inr, ℤ, negsuc, Option-cases,
  if_both, ◌==◌, lookup, ℕ_discrete,
}
use moq_veins_simulation_the.SendBuffer.{Buffer, contents, push_back}
use moq_veins_simulation_the.Reader.{Bytes}
use moq_veins_simulation_the.Quic.{Protocol, Moment, Out, send_udp, quic, tcp, udp}
use moq_veins_simulation_the.MoqFraming.Control.{
  encode_control, ControlFrame, pubdone_too_far_behind,
}
use moq_veins_simulation_the.MoqFraming.Envelope.{msg_control}
use moq_veins_simulation_the.MoqFraming.Fragment.{fragment_frame}
use moq_veins_simulation_the.Publisher.State.{
  SubgroupKey, TrackMeta, Pending, OutstandingObj, Publisher,
}
use moq_veins_simulation_the.Publisher.Send.{
  emit_all, observe, charge, shed_stale, drop_stale, reset_subgroup_stream,
}
use moq_veins_simulation_the.Publisher.Teardown.{
  sweep_out, sweep_queue, sweep_buffer, sweep_send_buffer_timeouts, check_outstanding,
  sweep_outstanding, check_outstanding_timeouts, send_control_frame, reset_all, shed_all,
  end_tracks, shut_streams, shed_buffer, announce_end, terminate_subscriptions, enqueue_pending,
  publish_done,
}
use moq_veins_simulation_the.Publisher.Events.{open_stream, offer, send_track_data}
use moq_veins_simulation_the.Publisher.Pacing.{written, Still, Still-refl, Still-trans}

sweep_out-Still : (p : Pending) (s : Publisher) → Still s (sweep_out p s)
unfolding sweep_out drop_stale shed_stale reset_subgroup_stream written
sweep_out-Still p s = record {
  limit = ground arith;
  chunk = ground arith;
  event = ground arith;
  bytes = ground arith;
  out = ground arith;
}

sweep_queue-Still :
    (m : Moment) (ps : List Pending) (s : Publisher) → Still s (sweep_queue m ps s).1
unfolding sweep_queue
sweep_queue-Still m [] s = Still-refl s
sweep_queue-Still m (p ∷ ps) s =
    Still-trans s _ _ (if_both (Still s) _ (sweep_out p s) s (sweep_out-Still p s) (Still-refl s))
      (sweep_queue-Still m ps _)

sweep_buffer-Still :
    (m : Moment) (b : Buffer Pending) (s : Publisher) → Still s (sweep_buffer m b s).1
unfolding sweep_buffer
sweep_buffer-Still m [] s = Still-refl s
sweep_buffer-Still m ((k, q) ∷ rest) s =
    Still-trans s _ _ (sweep_queue-Still m q s) (sweep_buffer-Still m rest (sweep_queue m q s).1)

pub sweep_send_buffer_timeouts-Still :
    (m : Moment) (s : Publisher) → Still s (sweep_send_buffer_timeouts m s)
unfolding sweep_send_buffer_timeouts
sweep_send_buffer_timeouts-Still m s =
    let k = sweep_buffer-Still m s.send_buffer s in
    if_both (Still s) s.subscriptions_ended _ _ (Still-refl s)
      (record { limit = k.limit; chunk = k.chunk; event = k.event; bytes = k.bytes; out = k.out })

check_outstanding-Still :
    (m : Moment) (o : OutstandingObj) (s : Publisher) → Still s (check_outstanding m o s)
unfolding check_outstanding reset_subgroup_stream written
check_outstanding-Still m o s = record {
  limit = ground arith;
  chunk = ground arith;
  event = ground arith;
  bytes = ground arith;
  out = ground arith;
}

sweep_outstanding-Still :
    (m : Moment) (os : List OutstandingObj) (s : Publisher) → Still s (sweep_outstanding m os s).1
unfolding sweep_outstanding
sweep_outstanding-Still m [] s = Still-refl s
sweep_outstanding-Still m (o ∷ os) s =
    Still-trans s _ _ (check_outstanding-Still m o s)
      (sweep_outstanding-Still m os (check_outstanding m o s))

pub check_outstanding_timeouts-Still :
    (m : Moment) (s : Publisher) → Still s (check_outstanding_timeouts m s)
unfolding check_outstanding_timeouts observe
check_outstanding_timeouts-Still m s =
    let k = sweep_outstanding-Still m s.outstanding (observe m s) in
    if_both (Still s) (m.queue_len == 0) _ _
      (record { limit = refl; chunk = refl; event = refl; bytes = refl; out = refl })
      (record { limit = k.limit; chunk = k.chunk; event = k.event; bytes = k.bytes; out = k.out })

pub written-emit_all :
    (xs : List Bytes) (log : List Out) → written (emit_all (map send_udp xs) log) ≡ written log
unfolding written emit_all
written-emit_all [] log = refl
written-emit_all (x ∷ xs) log = written-emit_all xs (send_udp x ∷ log)

pub Protocol-cases : (p : Protocol) → (p ≡ quic) ⊎ (p ≡ tcp) ⊎ (p ≡ udp)
Protocol-cases quic = inl refl
Protocol-cases tcp = inr (inl refl)
Protocol-cases udp = inr (inr refl)

pub send_control_frame-Still : (c : ControlFrame) (s : Publisher) → Still s (send_control_frame c s)
unfolding send_control_frame emit_all written
send_control_frame-Still c s = record {
  limit = refl;
  chunk = refl;
  event = refl;
  bytes = refl;
  out = elim (Protocol-cases s.proto) [
    | inl e ↦ rw e (omega arith)
    | inr (inl e) ↦ rw e refl
    | inr (inr e) ↦ rw e (
        written-emit_all
          (fragment_frame msg_control c.track_alias (negsuc 0) (encode_control c)
            s.udp_fragment_size)
          s.out)
  ];
}

reset_all-Still : (ks : List (SubgroupKey × ℕ)) (s : Publisher) → Still s (reset_all ks s)
unfolding reset_all reset_subgroup_stream written
reset_all-Still [] s = Still-refl s
reset_all-Still ((k, i) ∷ ks) s =
    let h = reset_all-Still ks _ in
    record { limit = h.limit; chunk = h.chunk; event = h.event; bytes = h.bytes; out = h.out }

shed_all-Still : (ps : List Pending) (s : Publisher) → Still s (shed_all ps s)
unfolding shed_all
shed_all-Still [] s = Still-refl s
shed_all-Still (p ∷ ps) s =
    let h = shed_all-Still ps _ in
    record { limit = h.limit; chunk = h.chunk; event = h.event; bytes = h.bytes; out = h.out }

end_tracks-Still :
    (status : ℤ) (ts : List (ℕ × TrackMeta)) (s : Publisher) → Still s (end_tracks status ts s).1
unfolding end_tracks
end_tracks-Still status [] s = Still-refl s
end_tracks-Still status ((i, t) ∷ ts) s =
    Still-trans s _ _ (send_control_frame-Still (publish_done status t) s)
      (end_tracks-Still status ts _)

shut_streams-Still : (m : Moment) (status : ℤ) (s : Publisher) → Still s (shut_streams m status s)
unfolding shut_streams
shut_streams-Still m status s =
    let h = reset_all-Still s.subgroup_streams _ in
    record { limit = h.limit; chunk = h.chunk; event = h.event; bytes = h.bytes; out = h.out }

shed_buffer-Still : (s : Publisher) → Still s (shed_buffer s)
unfolding shed_buffer
shed_buffer-Still s =
    let h = shed_all-Still (contents s.send_buffer) s in
    record { limit = h.limit; chunk = h.chunk; event = h.event; bytes = h.bytes; out = h.out }

announce_end-Still : (status : ℤ) (s : Publisher) → Still s (announce_end status s)
unfolding announce_end
announce_end-Still status s =
    let h = end_tracks-Still status s.tracks s in
    record { limit = h.limit; chunk = h.chunk; event = h.event; bytes = h.bytes; out = h.out }

terminate_subscriptions-Still :
    (m : Moment) (status : ℤ) (s : Publisher) → Still s (terminate_subscriptions m status s)
unfolding terminate_subscriptions
terminate_subscriptions-Still m status s =
    let shut = shut_streams m status s in
    if_both (Still s) s.subscriptions_ended _ _ (Still-refl s) (
      Still-trans s _ _ (shut_streams-Still m status s) (
        Still-trans shut _ _ (shed_buffer-Still shut)
          (announce_end-Still status (shed_buffer shut))))

pub enqueue_pending-Still :
    (m : Moment) (p : Pending) (s : Publisher) → Still s (enqueue_pending m p s)
unfolding enqueue_pending
enqueue_pending-Still m p s =
    let added = record s {
      send_buffer = push_back p.priority p s.send_buffer;
      send_buffer_count = s.send_buffer_count + 1;
    } in
    let h = terminate_subscriptions-Still m pubdone_too_far_behind added in
    if_both (Still s) (leb added.send_buffer_count added.send_buffer_limit) added
      (terminate_subscriptions m pubdone_too_far_behind added)
      (record { limit = refl; chunk = refl; event = refl; bytes = refl; out = refl })
      (record { limit = h.limit; chunk = h.chunk; event = h.event; bytes = h.bytes; out = h.out })

pub charge-Still : (code tid : ℕ) (s : Publisher) → Still s (charge code tid s)
unfolding charge
charge-Still code tid s = record {
  limit = ground arith;
  chunk = ground arith;
  event = ground arith;
  bytes = ground arith;
  out = ground arith;
}

pub open_stream-Still : (key : SubgroupKey) (s : Publisher) → Still s (open_stream key s).1
unfolding open_stream
open_stream-Still key s = record {
  limit = ground arith;
  chunk = ground arith;
  event = ground arith;
  bytes = ground arith;
  out = ground arith;
}

pub logged-Still :
    (s : Publisher) (log : List Out)
    → written log ≡ written s.out
    → Still s (record s { out = log })
logged-Still s log e = record { limit = refl; chunk = refl; event = refl; bytes = refl; out = e }

-- The tracks and the counts of the objects that were offered have no part in the pacing.
pub retracked-Still :
    (s : Publisher) (ts : List (ℕ × TrackMeta)) → Still s (record s { tracks = ts })
retracked-Still s ts = record { limit = refl; chunk = refl; event = refl; bytes = refl; out = refl }

pub offer-Still : (t : TrackMeta) (s : Publisher) → Still s (offer t s)
unfolding offer
offer-Still t s = record { limit = refl; chunk = refl; event = refl; bytes = refl; out = refl }

pub send_track_data-Still :
    (m : Moment) (tid : ℕ) (s : Publisher) → Still s (send_track_data m tid s)
unfolding send_track_data
send_track_data-Still m tid s = elim (Option-cases (lookup ℕ_discrete tid s.tracks)) [
  | inl e ↦
      rw (e, send_track_data)
        (if_both (Still s) s.subscriptions_ended _ _ (Still-refl s) (Still-refl s))
  | inr (t, e) ↦
      rw (e, send_track_data)
        (if_both (Still s) s.subscriptions_ended _ _ (Still-refl s) (retracked-Still s _))
]
