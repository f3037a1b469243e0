-- ===== src/Publisher/Pacing.antt =====
-- The bytes that the publisher hands over to QUIC on data streams within one moment.
use moq_veins_simulation_the.Base.{
  ℕ, suc, ◌+◌, ◌≤◌, ◌<◌, ◌≡◌, ◌≢◌, ◌⊎◌, ◌∙◌, refl, arith, List, [], ◌∷◌, none, some, inl, inr,
  length, length-take, drop, ◌==◌, if◌then◌else◌,
}
use moq_veins_simulation_the.SendBuffer.{Front, front}
use moq_veins_simulation_the.Quic.{
  Moment, Out, send_quic, reset_stream, send_tcp, send_udp, control_stream,
}
use moq_veins_simulation_the.Publisher.State.{Pending, Publisher}
use moq_veins_simulation_the.Publisher.Send.{
  observe, chunk_len, chunk_sent, do_send_quic_chunk, note_sent, charge, shed_stale, drop_stale,
  pop_front, send_front, flush_front, flush_round, flush_stop, work, enter_event, flush_send_buffer,
  reset_subgroup_stream,
}
use moq_veins_simulation_the.Publisher.Loop.{MayWrite, flush_loop_inv}

-- The bytes written on data streams, by a log of calls.
unfoldable pub written : List Out → ℕ
written [] = 0
written (send_quic i p bytes ∷ os) = (if i == control_stream then 0 else length bytes) + written os
written (reset_stream i code ∷ os) = written os
written (send_tcp bytes ∷ os) = written os
written (send_udp bytes ∷ os) = written os

-- What the pacing depends on, and the bytes written, are as before.
pub record Still (s s' : Publisher) : Type 0 where
  pub limit : s'.quic_send_queue_limit ≡ s.quic_send_queue_limit
  pub chunk : s'.quic_chunk_bytes ≡ s.quic_chunk_bytes
  pub event : s'.quic_write_event ≡ s.quic_write_event
  pub bytes : s'.quic_bytes_this_event ≡ s.quic_bytes_this_event
  pub out : written s'.out ≡ written s.out

pub Still-refl : (s : Publisher) → Still s s
Still-refl s = record { limit = refl; chunk = refl; event = refl; bytes = refl; out = refl }

pub Still-trans : (a b c : Publisher) → Still a b → Still b c → Still a c
Still-trans a b c h k = record {
  limit = k.limit ∙ h.limit;
  chunk = k.chunk ∙ h.chunk;
  event = k.event ∙ h.event;
  bytes = k.bytes ∙ h.bytes;
  out = k.out ∙ h.out;
}

-- At the moment `m`, counted from a log with `w` bytes: nothing was written yet, or what was
-- written at this moment is within the bytes of this event, and they within the limit and a chunk.
unfoldable pub IsPaced : ℕ → ℕ → ℕ → Moment → Publisher → Type 0
IsPaced limit chunk w m s =
    (s.quic_send_queue_limit ≡ limit)
    × (s.quic_chunk_bytes ≡ chunk)
    × (w ≤ written s.out)
    × (((s.quic_write_event ≢ m.now) × (written s.out ≡ w))
        ⊎ ((s.quic_write_event ≡ m.now)
            × (written s.out ≤ w + s.quic_bytes_this_event)
            × ((s.quic_bytes_this_event ≡ 0)
                ⊎ (m.queue_len + s.quic_bytes_this_event < limit + chunk))))

-- The same, once the bytes of the event are counted.
abbrev InEvent : ℕ → ℕ → ℕ → Moment → Publisher → Type 0
InEvent limit chunk w m s =
    (s.quic_send_queue_limit ≡ limit)
    × (s.quic_chunk_bytes ≡ chunk)
    × (w ≤ written s.out)
    × (s.quic_write_event ≡ m.now)
    × (written s.out ≤ w + s.quic_bytes_this_event)
    × ((s.quic_bytes_this_event ≡ 0) ⊎ (m.queue_len + s.quic_bytes_this_event < limit + chunk))

pub IsPaced-Still :
    (limit chunk w : ℕ) (m : Moment) (s s' : Publisher)
    → Still s s'
    → IsPaced limit chunk w m s
    → IsPaced limit chunk w m s'
unfolding IsPaced
IsPaced-Still limit chunk w m s s' k (a, b, c, h) = (
  k.limit ∙ a,
  k.chunk ∙ b,
  omega (arith, c, k.out),
  elim h [
    | inl (e, o) ↦ inl (rw k.event e, k.out ∙ o)
    | inr (e, o, q) ↦ inr (k.event ∙ e, omega (arith, o, k.out, k.bytes), rw k.bytes q)
  ],
)

-- A round that writes began below the limit, and wrote a chunk at most.
flush_front-InEvent :
    (limit chunk w : ℕ) (m : Moment) (f : Front Pending) (s : Publisher)
    → front s.send_buffer ≡ some f
    → MayWrite m s
    → InEvent limit chunk w m s
    → InEvent limit chunk w m (flush_front m f (observe m s))
unfolding observe flush_front charge drop_stale send_front pop_front do_send_quic_chunk note_sent
    reset_subgroup_stream shed_stale chunk_sent chunk_len written
flush_front-InEvent limit chunk w m f s e may h =
    ground (arith, may, h, length-take (chunk_len s f.item) (drop f.item.sent_offset f.item.bytes))

flush_stop-InEvent :
    (limit chunk w : ℕ) (m : Moment) (s : Publisher)
    → flush_round m s ≡ none
    → InEvent limit chunk w m s
    → InEvent limit chunk w m (flush_stop m s)
unfolding flush_stop observe
flush_stop-InEvent limit chunk w m s e h = ground (arith, h)

enter_event-InEvent :
    (limit chunk w : ℕ) (m : Moment) (s : Publisher)
    → IsPaced limit chunk w m s
    → InEvent limit chunk w m (enter_event m s)
unfolding IsPaced enter_event
enter_event-InEvent limit chunk w m s h = ground (arith, h)

pub flush_send_buffer-IsPaced :
    (limit chunk w : ℕ) (m : Moment) (s : Publisher)
    → IsPaced limit chunk w m s
    → IsPaced limit chunk w m (flush_send_buffer m s)
unfolding flush_send_buffer IsPaced
flush_send_buffer-IsPaced limit chunk w m s h =
    let (a, b, c, d, e, g) =
      flush_loop_inv (InEvent limit chunk w m) m (flush_front-InEvent limit chunk w m)
        (flush_stop-InEvent limit chunk w m) (suc (work s)) (enter_event m s)
        (enter_event-InEvent limit chunk w m s h) in
    (a, b, c, inr (d, e, g))
