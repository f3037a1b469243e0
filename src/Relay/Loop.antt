-- ===== src/Relay/Loop.antt =====
-- The loop of flushSocket: what a round is, an invariant rule, and that the fuel is enough.
use moq_veins_simulation_the.Base.{
  ℕ, zero, suc, ◌≤◌, ◌<◌, ◌≡◌, ap, arith, none, some, ◌∷◌, ◌++◌, inl, inr, length, All,
  Option-cases,
}
use moq_veins_simulation_the.SendBuffer.{
  Front, front, contents, total, front-contents, pop-contents, put-contents,
}
use moq_veins_simulation_the.Relay.State.{FwdItem, SockSendState, RelayMoment, Relay}
use moq_veins_simulation_the.Relay.Send.{
  reset_stream_of, reset_downstream_stream, shed_stale, shed_overflow, charge, record_forward,
  chunk_len, chunk_sent, note_sent, do_forward_send_chunk, Flushing, pop_front, drop_stale,
  count_bytes, send_front, flush_front, flush_round, flush_stop, flush_loop, left_to_send, work,
}

module _ (m : RelayMoment) (id : ℕ) where
  flush_round_cases :
      (st : SockSendState) (s : Relay) (x : Flushing)
      → flush_round m id st s ≡ some x
      → (f : Front FwdItem) × (front st.buffer ≡ some f) × (x ≡ flush_front m id f st s)
  unfolding flush_round
  flush_round_cases st s x e = elim (Option-cases (front st.buffer)) [
    | inl h ↦ absurd (ground (arith, h))
    | inr (f, h) ↦ (f, h, ground (arith, h))
  ]

  -- What a round preserves, and what the erasing of empty queues preserves, holds of the whole loop.
  module _ {ℓ} (P : SockSendState → Relay → Type ℓ)
      (step : (f : Front FwdItem) (st : SockSendState) (s : Relay)
        → front st.buffer ≡ some f
        → P st s
        → P (flush_front m id f st s).0 (flush_front m id f st s).1)
      (stop : (st : SockSendState) (s : Relay)
        → flush_round m id st s ≡ none
        → P st s
        → P (flush_stop m id st s).0 (flush_stop m id st s).1) where
    pub flush_loop_inv :
        (fuel : ℕ) (st : SockSendState) (s : Relay)
        → P st s
        → P (flush_loop fuel m id st s).0 (flush_loop fuel m id st s).1
    unfolding flush_loop
    flush_loop_inv zero st s p = p
    flush_loop_inv (suc fuel) st s p = elim (Option-cases (flush_round m id st s)) [
      | inl h ↦ rw (h, flush_loop) (stop st s h p)
      | inr (x, h) ↦
          let (f, ef, ex) = flush_round_cases st s x h in
          rw (h, flush_loop) (flush_loop_inv fuel x.0 x.1 (rw ex (step f st s ef p)))
    ]

  -- No object has more bytes sent than it has.
  abbrev InBounds : FwdItem → Type 0
  InBounds i = i.sent_offset ≤ length i.bytes

  -- A write takes a byte at least, and the objects of the buffer are partly sent at most.
  unfoldable pub CanSend : SockSendState → Relay → Type 0
  unfolding contents
  CanSend st s = (0 < s.quic_chunk_bytes) × All InBounds (contents st.buffer)

  flush_front-work :
      (f : Front FwdItem) (st : SockSendState) (s : Relay)
      → contents st.buffer ≡ f.item ∷ (f.later ++ contents f.rest)
      → CanSend st s
      → (work (flush_front m id f st s).0 < work st)
        × CanSend (flush_front m id f st s).0 (flush_front m id f st s).1
  unfolding CanSend work flush_front charge drop_stale send_front pop_front do_forward_send_chunk
      note_sent record_forward count_bytes reset_downstream_stream reset_stream_of shed_stale
      shed_overflow total chunk_sent left_to_send chunk_len
  flush_front-work f st s e (h, a) =
      let all : All InBounds (f.item ∷ (f.later ++ contents f.rest)) = rw e at a in
      ground (
        arith,
        pop-contents f,
        put-contents f (chunk_sent s f.item),
        ap (total left_to_send) e,
        all,
      )

  -- The loop has ended by its own tests: another call would not do a round.
  abbrev pub Halted : Flushing → Type 0
  Halted x = flush_round m id x.0 x.1 ≡ none

  flush_stop-Halted :
      (st : SockSendState) (s : Relay) → Halted (st, s) → Halted (flush_stop m id st s)
  unfolding flush_stop flush_round front
  flush_stop-Halted st s h = ground (arith, h)

  -- Where a write takes a byte at least and no waiting object has more bytes sent than it has,
  -- fuel above the work left on a socket is enough: the loop of the flush ends by its own
  -- tests, and no further round could begin.
  pub flush_loop-Halted :
      (fuel : ℕ) (st : SockSendState) (s : Relay)
      → CanSend st s
      → work st < fuel
      → Halted (flush_loop fuel m id st s)
  unfolding flush_loop
  flush_loop-Halted zero st s hc h = absurd (omega arith)
  flush_loop-Halted (suc fuel) st s hc h = elim (Option-cases (flush_round m id st s)) [
    | inl e ↦ rw (e, flush_loop) (flush_stop-Halted st s e)
    | inr (x, e) ↦
        let (f, ef, ex) = flush_round_cases st s x e in
        let (less, can) = flush_front-work f st s (front-contents st.buffer f ef) hc in
        rw (e, flush_loop)
          (flush_loop-Halted fuel x.0 x.1 (rw ex can) (rw ex (omega (arith, less))))
  ]
