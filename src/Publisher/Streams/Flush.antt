-- ===== src/Publisher/Streams/Flush.antt =====
-- applications/moq/MoqPublisherApp.cc: the flush writes on open streams only.
use moq_veins_simulation_the.Base.{
  ℕ, suc, ◌+◌, ◌-◌, ◌≡◌, refl, List, ◌∷◌, ◌++◌, none, some, inl, inr, All, All-append, Option-cases,
  if_both, ltb_ℤ, ◌==◌, take, drop, length, pos, leb, ◌||◌, ite_both,
}
use moq_veins_simulation_the.SendBuffer.{
  Front, front, contents, front-contents, pop-contents, put-contents,
}
use moq_veins_simulation_the.Quic.{
  send_quic, Moment, is_stale, quic_priority_of, err_send_buffer_overflow,
}
use moq_veins_simulation_the.Publisher.State.{Pending, Publisher, ℤ-discrete}
use moq_veins_simulation_the.Publisher.Send.{
  observe, chunk_len, chunk_sent, note_sent, do_send_quic_chunk, charge, drop_stale, pop_front,
  send_front, flush_front, flush_stop, work, enter_event, flush_send_buffer,
}
use moq_veins_simulation_the.Publisher.Loop.{flush_loop_inv}
use moq_veins_simulation_the.Publisher.Streams.Core.{
  Safe, is_reset, StreamsOf, at_key, calls-Streams, still_unreset,
}
use moq_veins_simulation_the.Publisher.Streams.Sweeps.{
  PendingTied, OutstandingTied, IsStreams, keep_pending, keep_outstanding, drop_stale-Evolves,
}

-- The objects but for the one at the front.
abbrev behind : Front Pending → List Pending
behind f = f.later ++ contents f.rest

pop_front-IsStreams :
    (f : Front Pending) (s : Publisher)
    → StreamsOf s
    → All (PendingTied s) (behind f)
    → All (OutstandingTied s) s.outstanding
    → IsStreams (pop_front f s)
unfolding pop_front
pop_front-IsStreams f s w a o = record {
  streams = w;
  pending = rw (pop-contents f) a;
  outstanding = o;
}

-- A write on the stream of an object whose subgroup was not reset.
write-StreamsOf :
    (p : Pending) (bytes : List ℕ) (prio : ℕ) (s : Publisher)
    → StreamsOf s
    → PendingTied s p
    → at_key p.subgroup s.reset_subgroups ≡ none
    → StreamsOf (record s { out = send_quic p.stream_id prio bytes ∷ s.out })
unfolding Safe is_reset
write-StreamsOf p bytes prio s w t e =
    let opened =
      still_unreset s.subgroup_streams s.reset_subgroups s.next_stream_id s.out p.subgroup
        p.stream_id w t e in
    calls-Streams s.subgroup_streams s.reset_subgroups s.next_stream_id s.out _ w (opened, w.safe)
      (λ i. refl)

-- What a write does to the streams and to the outstanding objects.
record Wrote (s s' : Publisher) : Type 0 where
  streams : StreamsOf s'
  subgroup_streams : s'.subgroup_streams ≡ s.subgroup_streams
  reset_subgroups : s'.reset_subgroups ≡ s.reset_subgroups
  next_stream_id : s'.next_stream_id ≡ s.next_stream_id
  outstanding : All (OutstandingTied s') s'.outstanding

note_sent-Wrote :
    (p : Pending) (s : Publisher)
    → StreamsOf s
    → PendingTied s p
    → All (OutstandingTied s) s.outstanding
    → Wrote s (note_sent p s)
unfolding note_sent
note_sent-Wrote p s w t a = record {
  streams = w;
  subgroup_streams = refl;
  reset_subgroups = refl;
  next_stream_id = refl;
  outstanding =
      if_both (All (OutstandingTied s)) (ltb_ℤ (pos 0) p.timeout) _ _
        (All-append (OutstandingTied s) s.outstanding _ a (t, tt)) a;
}

do_send_quic_chunk-Wrote :
    (p : Pending) (s : Publisher)
    → StreamsOf s
    → PendingTied s p
    → All (OutstandingTied s) s.outstanding
    → at_key p.subgroup s.reset_subgroups ≡ none
    → Wrote s (do_send_quic_chunk p s)
unfolding do_send_quic_chunk
do_send_quic_chunk-Wrote p s w t a e =
    let bytes = take (chunk_len s p) (drop p.sent_offset p.bytes) in
    let s' : Publisher = record s {
      out = send_quic p.stream_id (quic_priority_of p.priority) bytes ∷ s.out;
    } in
    let w' = write-StreamsOf p bytes (quic_priority_of p.priority) s w t e in
    let n = note_sent-Wrote p s' w' t a in
    if_both (Wrote s) ((chunk_sent s p).sent_offset == length p.bytes) _ _
      (record {
        streams = n.streams;
        subgroup_streams = n.subgroup_streams;
        reset_subgroups = n.reset_subgroups;
        next_stream_id = n.next_stream_id;
        outstanding = n.outstanding;
      })
      (record {
        streams = w';
        subgroup_streams = refl;
        reset_subgroups = refl;
        next_stream_id = refl;
        outstanding = a;
      })

after_write :
    (s s' : Publisher) (ps : List Pending)
    → Wrote s s'
    → All (PendingTied s) ps
    → All (PendingTied s') ps
after_write s s' ps x a = rw (x.subgroup_streams, x.reset_subgroups, x.next_stream_id) a

send_front-IsStreams :
    (f : Front Pending) (s : Publisher)
    → StreamsOf s
    → All (PendingTied s) (f.item ∷ behind f)
    → All (OutstandingTied s) s.outstanding
    → at_key f.item.subgroup s.reset_subgroups ≡ none
    → IsStreams (send_front f s)
unfolding send_front chunk_sent
send_front-IsStreams f s w (t, a) o e =
    let sent = do_send_quic_chunk f.item s in
    let x = do_send_quic_chunk-Wrote f.item s w t o e in
    let (t', a') = after_write s sent (f.item ∷ behind f) x (t, a) in
    let p' = chunk_sent s f.item in
    if_both IsStreams (p'.sent_offset == length f.item.bytes) _ _
      (pop_front-IsStreams f
        (record sent {
          quic_bytes_this_event =
              sent.quic_bytes_this_event + (p'.sent_offset - f.item.sent_offset);
        })
        x.streams a' x.outstanding)
      (record {
        streams = x.streams;
        pending = rw (put-contents f p') (t', a');
        outstanding = x.outstanding;
      })

charge-StreamsOf :
    (code tid : ℕ) (s : Publisher)
    → StreamsOf s
    → All (OutstandingTied s) s.outstanding
    → (f : Front Pending) → All (PendingTied s) (behind f)
    → IsStreams (pop_front f (charge code tid s))
unfolding charge
charge-StreamsOf code tid s w o f a =
    if_both (λ x. IsStreams (pop_front f x)) (code == err_send_buffer_overflow) _ _
      (pop_front-IsStreams f _ w a o) (pop_front-IsStreams f _ w a o)

-- One round of the flush.
flush_front-IsStreams :
    (m : Moment) (f : Front Pending) (s : Publisher)
    → StreamsOf s
    → All (PendingTied s) (f.item ∷ behind f)
    → All (OutstandingTied s) s.outstanding
    → IsStreams (flush_front m f s)
unfolding flush_front
flush_front-IsStreams m f s w (t, a) o =
    elim (Option-cases (at_key f.item.subgroup s.reset_subgroups)) [
      | inr (code, e) ↦ rw (e, flush_front) (charge-StreamsOf code f.item.tid s w o f a)
      | inl e ↦
          let dropped = drop_stale-Evolves f.item s w t in
          let s' = drop_stale f.item s in
          rw (e, flush_front)
            (if_both IsStreams (is_stale m.now f.item.created_at f.item.timeout) _ _
              (pop_front-IsStreams f s' dropped.streams (keep_pending s s' (behind f) dropped a)
                (rw dropped.outstanding (keep_outstanding s s' s.outstanding dropped o)))
              (send_front-IsStreams f s w (t, a) o e))
    ]

flush_stop-IsStreams : (m : Moment) (s : Publisher) → IsStreams s → IsStreams (flush_stop m s)
unfolding flush_stop observe contents
flush_stop-IsStreams m s w = if_both IsStreams (s.quic_blocked || leb s.send_buffer_count 0) _ _ w (
    if_both IsStreams (leb s.quic_send_queue_limit (m.queue_len + s.quic_bytes_this_event)) _ _
      (record { streams = w.streams; pending = w.pending; outstanding = w.outstanding })
      (record { streams = w.streams; pending = tt; outstanding = w.outstanding }))

flush_step-IsStreams :
    (m : Moment) (f : Front Pending) (s : Publisher)
    → front s.send_buffer ≡ some f
    → IsStreams s
    → IsStreams (flush_front m f (observe m s))
unfolding observe
flush_step-IsStreams m f s e w =
    flush_front-IsStreams m f (observe m s) w.streams
      (rw (front-contents s.send_buffer f e) at w.pending) w.outstanding

enter_event-IsStreams : (m : Moment) (s : Publisher) → IsStreams s → IsStreams (enter_event m s)
unfolding enter_event
enter_event-IsStreams m s w =
    ite_both IsStreams (ℤ-discrete s.quic_write_event m.now) _ _ w
      (record { streams = w.streams; pending = w.pending; outstanding = w.outstanding })

-- The flush keeps the streams in order.
pub flush_send_buffer-IsStreams :
    (m : Moment) (s : Publisher) → IsStreams s → IsStreams (flush_send_buffer m s)
unfolding flush_send_buffer
flush_send_buffer-IsStreams m s w =
    flush_loop_inv IsStreams m (λ f x e may h. flush_step-IsStreams m f x e h)
      (λ x e h. flush_stop-IsStreams m x h) (suc (work s)) (enter_event m s)
      (enter_event-IsStreams m s w)
