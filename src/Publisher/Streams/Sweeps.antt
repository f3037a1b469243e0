-- ===== src/Publisher/Streams/Sweeps.antt =====
-- applications/moq/MoqPublisherApp.cc: the sweeps of the timeouts keep the streams in order.
use moq_veins_simulation_the.Base.{
  refl, ℤ, List, [], ◌∷◌, inl, inr, All, All-append, All-split, All-map, Bool-cases, ltb, ◌||◌,
  ◌==◌, if_both,
}
use moq_veins_simulation_the.SendBuffer.{Buffer, contents}
use moq_veins_simulation_the.Quic.{Moment, is_stale, err_delivery_timeout}
use moq_veins_simulation_the.Publisher.State.{Pending, OutstandingObj, Publisher}
use moq_veins_simulation_the.Publisher.Send.{drop_stale, shed_stale, observe}
use moq_veins_simulation_the.Publisher.Teardown.{
  sweep_out, sweep_queue, sweep_buffer, sweep_send_buffer_timeouts, was_reset, is_late,
  check_outstanding, sweep_outstanding, check_outstanding_timeouts,
}
use moq_veins_simulation_the.Publisher.Streams.Core.{
  StreamsOf, TiedOf, Evolves, stays, then_Evolves, reset-Evolves,
}

abbrev pub PendingTied : Publisher → Pending → Type 0
PendingTied s p = TiedOf s p.subgroup p.stream_id

abbrev pub OutstandingTied : Publisher → OutstandingObj → Type 0
OutstandingTied s o = TiedOf s o.subgroup o.stream_id

-- The streams are in order, and every object that the publisher keeps is tied to its stream.
pub record IsStreams (s : Publisher) : Type 0 where
  pub streams : StreamsOf s
  pub pending : All (PendingTied s) (contents s.send_buffer)
  pub outstanding : All (OutstandingTied s) s.outstanding

pub keep_pending :
    (s s' : Publisher) (ps : List Pending)
    → Evolves s s'
    → All (PendingTied s) ps
    → All (PendingTied s') ps
keep_pending s s' ps e a = All-map (PendingTied s) (λ p t. e.keeps p.subgroup p.stream_id t) ps a

pub keep_outstanding :
    (s s' : Publisher) (os : List OutstandingObj)
    → Evolves s s'
    → All (OutstandingTied s) os
    → All (OutstandingTied s') os
keep_outstanding s s' os e a =
    All-map (OutstandingTied s) (λ o t. e.keeps o.subgroup o.stream_id t) os a

pub drop_stale-Evolves :
    (p : Pending) (s : Publisher) → StreamsOf s → PendingTied s p → Evolves s (drop_stale p s)
unfolding drop_stale shed_stale
drop_stale-Evolves p s w t =
    let reset = reset-Evolves p.subgroup p.stream_id err_delivery_timeout s w t in
    elim (Bool-cases (ltb 0 p.sent_offset)) [
      | inl e ↦ rw e (record {
        streams = reset.streams;
        keeps = reset.keeps;
        outstanding = reset.outstanding;
        send_buffer = reset.send_buffer;
      })
      | inr e ↦
          rw e (record { streams = w; keeps = λ k i h. h; outstanding = refl; send_buffer = refl })
    ]

sweep_out-Evolves :
    (p : Pending) (s : Publisher) → StreamsOf s → PendingTied s p → Evolves s (sweep_out p s)
unfolding sweep_out
sweep_out-Evolves p s w t =
    let e = drop_stale-Evolves p s w t in
    record {
      streams = e.streams;
      keeps = e.keeps;
      outstanding = e.outstanding;
      send_buffer = e.send_buffer;
    }

sweep_queue-Evolves :
    (m : Moment) (ps : List Pending) (s : Publisher)
    → StreamsOf s
    → All (PendingTied s) ps
    → Evolves s (sweep_queue m ps s).1
      × All (PendingTied (sweep_queue m ps s).1) (sweep_queue m ps s).0
unfolding sweep_queue
sweep_queue-Evolves m [] s w a = (stays s w, tt)
sweep_queue-Evolves m (p ∷ ps) s w (t, a) =
    elim (Bool-cases (is_stale m.now p.created_at p.timeout)) [
      | inl e ↦
          let first = sweep_out-Evolves p s w t in
          let (rest, kept) =
            sweep_queue-Evolves m ps (sweep_out p s) first.streams
              (keep_pending s (sweep_out p s) ps first a) in
          rw e (then_Evolves s (sweep_out p s) _ first rest, kept)
      | inr e ↦
          let (rest, kept) = sweep_queue-Evolves m ps s w a in
          rw e (rest, (rest.keeps p.subgroup p.stream_id t, kept))
    ]

-- The queue that is left, unless it is empty.
put_queue-All :
    (P : Pending → Type 0) (k : ℤ) (kept : List Pending) (others : Buffer Pending)
    → All P kept
    → All P (contents others)
    → All P (
        contents
          (elim kept as (λ x. Buffer Pending) [ [] ↦ others | p ∷ ps ↦ (k, p ∷ ps) ∷ others ]))
unfolding contents
put_queue-All P k [] others a b = b
put_queue-All P k (p ∷ ps) others a b = All-append P (p ∷ ps) (contents others) a b

sweep_buffer-Evolves :
    (m : Moment) (b : Buffer Pending) (s : Publisher)
    → StreamsOf s
    → All (PendingTied s) (contents b)
    → Evolves s (sweep_buffer m b s).1
      × All (PendingTied (sweep_buffer m b s).1) (contents (sweep_buffer m b s).0)
unfolding sweep_buffer contents
sweep_buffer-Evolves m [] s w a = (stays s w, tt)
sweep_buffer-Evolves m ((k, q) ∷ rest) s w a =
    let (aq, ar) = All-split (PendingTied s) q (contents rest) a in
    let (first, kept) = sweep_queue-Evolves m q s w aq in
    let s' = (sweep_queue m q s).1 in
    let (others, kept_others) =
      sweep_buffer-Evolves m rest s' first.streams (keep_pending s s' (contents rest) first ar) in
    let last = (sweep_buffer m rest s').1 in
    (
      then_Evolves s s' last first others,
      put_queue-All (PendingTied last) k (sweep_queue m q s).0 (sweep_buffer m rest s').0
          (keep_pending s' last (sweep_queue m q s).0 others kept) kept_others,
    )

-- The sweep of the buffer keeps the streams in order.
pub sweep_send_buffer_timeouts-IsStreams :
    (m : Moment) (s : Publisher) → IsStreams s → IsStreams (sweep_send_buffer_timeouts m s)
unfolding sweep_send_buffer_timeouts
sweep_send_buffer_timeouts-IsStreams m s w =
    let (e, kept) = sweep_buffer-Evolves m s.send_buffer s w.streams w.pending in
    if_both IsStreams s.subscriptions_ended _ _ w (record {
      streams = e.streams;
      pending = kept;
      outstanding = rw e.outstanding (keep_outstanding s _ s.outstanding e w.outstanding);
    })

check_outstanding-Evolves :
    (m : Moment) (o : OutstandingObj) (s : Publisher)
    → StreamsOf s
    → OutstandingTied s o
    → Evolves s (check_outstanding m o s)
unfolding check_outstanding
check_outstanding-Evolves m o s w t =
    let e = reset-Evolves o.subgroup o.stream_id err_delivery_timeout s w t in
    if_both (Evolves s) (was_reset o.subgroup s) _ _ (stays s w) (
      if_both (Evolves s) (is_late m o) _ _
        (record {
          streams = e.streams;
          keeps = e.keeps;
          outstanding = e.outstanding;
          send_buffer = e.send_buffer;
        })
        (stays s w))

sweep_outstanding-Evolves :
    (m : Moment) (os : List OutstandingObj) (s : Publisher)
    → StreamsOf s
    → All (OutstandingTied s) os
    → Evolves s (sweep_outstanding m os s).1
      × All (OutstandingTied (sweep_outstanding m os s).1) (sweep_outstanding m os s).0
unfolding sweep_outstanding
sweep_outstanding-Evolves m [] s w a = (stays s w, tt)
sweep_outstanding-Evolves m (o ∷ os) s w (t, a) =
    let s' = check_outstanding m o s in
    let first = check_outstanding-Evolves m o s w t in
    let (rest, kept) =
      sweep_outstanding-Evolves m os s' first.streams (keep_outstanding s s' os first a) in
    let last = (sweep_outstanding m os s').1 in
    let both = then_Evolves s s' last first rest in
    (
      both,
      if_both (All (OutstandingTied last)) (was_reset o.subgroup s || is_late m o) _ _ kept
          (both.keeps o.subgroup o.stream_id t, kept),
    )

-- The check of the outstanding objects keeps the streams in order.
pub check_outstanding_timeouts-IsStreams :
    (m : Moment) (s : Publisher) → IsStreams s → IsStreams (check_outstanding_timeouts m s)
unfolding check_outstanding_timeouts observe
check_outstanding_timeouts-IsStreams m s w =
    let seen = observe m s in
    let (e, kept) = sweep_outstanding-Evolves m seen.outstanding seen w.streams w.outstanding in
    if_both IsStreams (m.queue_len == 0) _ _
      (record { streams = w.streams; pending = w.pending; outstanding = tt })
      (record {
        streams = e.streams;
        pending = rw e.send_buffer (keep_pending seen _ (contents s.send_buffer) e w.pending);
        outstanding = kept;
      })
