-- ===== src/Relay/Count.antt =====
-- The relay's counters: each socket's number of objects, and the queue depth over all sockets.
use moq_veins_simulation_the.Base.{
  lookup-insert_other, sym, ℕ, suc, ◌+◌, ◌-◌, ◌≤◌, ◌≡◌, refl, ap, ◌∙◌, arith, none, some, List, [],
  ◌∷◌, inl, inr, length, All, Option-cases, Bool-cases, lookup, insert, ℕ_discrete,
}
use mathlib.Core.Logic.{if_pos, if_neg}
use moq_veins_simulation_the.Reader.{Bytes}
use moq_veins_simulation_the.SendBuffer.{
  Buffer, Front, front, front-none, push_back, contents, total, front-contents, pop-contents,
  put-contents, total-append, total-push_back,
}
use moq_veins_simulation_the.Relay.State.{FwdItem, SockSendState, RelayMoment, Relay}
use moq_veins_simulation_the.Relay.Send.{
  reset_stream_of, reset_downstream_stream, shed_stale, shed_overflow, charge, record_forward,
  chunk_sent, note_sent, do_forward_send_chunk, pop_front, drop_stale, count_bytes, send_front,
  flush_front, flush_round, flush_stop, flush_loop, work, enter_event, flush_socket,
}
use moq_veins_simulation_the.Relay.Control.{is_alias, lose, end_queue, end_buffer, end_socket}
use moq_veins_simulation_the.Relay.Forward.{sock_state, enqueue}
use moq_veins_simulation_the.Relay.Loop.{flush_loop_inv}

abbrev one : FwdItem → ℕ
one i = 1

-- A socket's count is the number of objects that wait for it.
unfoldable pub IsExact : SockSendState → Type 0
unfolding total
IsExact st = st.count ≡ total one (contents st.buffer)

abbrev pub count_of : ℕ × SockSendState → ℕ
count_of e = e.1.count

-- The sockets of the map differ.
abbrev pub IsMap : List (ℕ × SockSendState) → Type 0
IsMap [] = Unit {0}
IsMap ((j, x) ∷ m) = (lookup ℕ_discrete j m ≡ none) × IsMap m

-- The queue depth is the number of objects that wait, over all sockets.
unfoldable pub IsCounted : Relay → Type 0
unfolding IsExact total
IsCounted s =
    All (λ (e : ℕ × SockSendState). IsExact e.1) s.sock_send
    × (s.pending_forward_count ≡ total count_of s.sock_send)
    × IsMap s.sock_send

-- One socket's objects against the rest of the queue depth, `n`, while the map of the sockets stays.
unfoldable Depth : ℕ → List (ℕ × SockSendState) → SockSendState → Relay → Type 0
unfolding IsExact
Depth n socks st s = IsExact st × (s.pending_forward_count ≡ n + st.count) × (s.sock_send ≡ socks)

flush_front-Depth :
    (n : ℕ) (socks : List (ℕ × SockSendState)) (m : RelayMoment) (id : ℕ) (f : Front FwdItem)
    (st : SockSendState) (s : Relay)
    → front st.buffer ≡ some f
    → Depth n socks st s
    → Depth n socks (flush_front m id f st s).0 (flush_front m id f st s).1
unfolding Depth IsExact flush_front charge drop_stale send_front pop_front do_forward_send_chunk
    note_sent record_forward count_bytes reset_downstream_stream reset_stream_of shed_stale
    shed_overflow total chunk_sent
flush_front-Depth n socks m id f st s e h = ground (
  arith,
  h,
  pop-contents f,
  put-contents f (chunk_sent s f.item),
  ap (total one) (front-contents st.buffer f e),
)

flush_stop-Depth :
    (n : ℕ) (socks : List (ℕ × SockSendState)) (m : RelayMoment) (id : ℕ) (st : SockSendState)
    (s : Relay)
    → flush_round m id st s ≡ none
    → Depth n socks st s
    → Depth n socks (flush_stop m id st s).0 (flush_stop m id st s).1
unfolding Depth IsExact flush_round flush_stop total contents
flush_stop-Depth n socks m id st s e h = elim (Option-cases (front st.buffer)) [
  | inl ef ↦ ground (arith, e, h, ef, ap (total one) (front-none st.buffer ef))
  | inr (f, ef) ↦ ground (arith, e, h, ef)
]

-- The entries of a map that an assignment leaves.
pub total-insert :
    (id : ℕ) (st : SockSendState) (m : List (ℕ × SockSendState))
    → total count_of (insert ℕ_discrete id st m)
        + elim (lookup ℕ_discrete id m) [ none ↦ 0 | some old ↦ old.count ]
      ≡ total count_of m + st.count
unfolding total insert lookup
total-insert id st [] = omega arith
total-insert id st ((j, x) ∷ m) = ground (arith, total-insert id st m)

pub All-insert :
    (id : ℕ) (st : SockSendState) (m : List (ℕ × SockSendState))
    → IsExact st
    → All (λ (e : ℕ × SockSendState). IsExact e.1) m
    → All (λ (e : ℕ × SockSendState). IsExact e.1) (insert ℕ_discrete id st m)
unfolding insert
All-insert id st [] h a = (h, tt)
All-insert id st ((j, x) ∷ m) h a = ground (arith, h, a, All-insert id st m h a.1)

pub insert-IsMap :
    (id : ℕ) (st : SockSendState) (m : List (ℕ × SockSendState))
    → IsMap m
    → IsMap (insert ℕ_discrete id st m)
unfolding insert lookup
insert-IsMap id st [] u = (refl, tt)
insert-IsMap id st ((j, x) ∷ m) (n, u) = elim (ℕ_discrete j id) [
  | yes e ↦
      rw (if_pos (ℕ_discrete j id) e ((id, st) ∷ m) ((j, x) ∷ insert ℕ_discrete id st m))
        (rw e at n, u)
  | no d ↦
      rw (if_neg (ℕ_discrete j id) d ((id, st) ∷ m) ((j, x) ∷ insert ℕ_discrete id st m))
        (lookup-insert_other ℕ_discrete id j st m (λ e. d (sym e)) ∙ n, insert-IsMap id st m u)
]

pub lookup-IsExact :
    (id : ℕ) (st : SockSendState) (m : List (ℕ × SockSendState))
    → lookup ℕ_discrete id m ≡ some st
    → All (λ (e : ℕ × SockSendState). IsExact e.1) m
    → IsExact st × (st.count ≤ total count_of m)
unfolding lookup total
lookup-IsExact id st [] e a = absurd (cc)
lookup-IsExact id st ((j, x) ∷ m) e a = ground (arith, a, lookup-IsExact id st m)

enter_event-Depth :
    (m : RelayMoment) (id : ℕ) (st : SockSendState) (s : Relay)
    → IsExact st
    → st.count ≤ s.pending_forward_count
    → Depth (s.pending_forward_count - st.count) s.sock_send st (enter_event m s)
unfolding Depth enter_event
enter_event-Depth m id st s h le = ground (arith, h, le)

-- A flush of a socket leaves the counters right.
pub flush_socket-IsCounted :
    (m : RelayMoment) (id : ℕ) (s : Relay) → IsCounted s → IsCounted (flush_socket m id s)
unfolding flush_socket IsCounted Depth
flush_socket-IsCounted m id s (a, p, u) = elim (Option-cases (lookup ℕ_discrete id s.sock_send)) [
  | inl e ↦ rw (e, flush_socket) (a, p, u)
  | inr (st, e) ↦
      let (exact, le) = lookup-IsExact id st s.sock_send e a in
      let (exact', depth, socks) =
        flush_loop_inv m id (Depth (s.pending_forward_count - st.count) s.sock_send)
          (flush_front-Depth (s.pending_forward_count - st.count) s.sock_send m id)
          (flush_stop-Depth (s.pending_forward_count - st.count) s.sock_send m id) (suc (work st))
          st (enter_event m s) (enter_event-Depth m id st s exact (omega (arith, p, le))) in
      let size =
        total-insert id (flush_loop (suc (work st)) m id st (enter_event m s)).0 s.sock_send in
      rw (e, flush_socket)
        (rw socks (
          All-insert id _ s.sock_send exact' a,
          omega (arith, depth, p, le, rw e at size),
          insert-IsMap id _ s.sock_send u,
        ))
]

-- What endSubscriberTrack takes from a queue leaves the queue depth too.
lose-depth :
    (i : FwdItem) (s : Relay)
    → ((lose i s).pending_forward_count ≡ s.pending_forward_count)
      × ((lose i s).sock_send ≡ s.sock_send)
unfolding lose shed_overflow reset_downstream_stream reset_stream_of
lose-depth i s = ground arith

end_queue-depth :
    (alias : Bytes) (q : List FwdItem) (s : Relay)
    → ((end_queue alias q s).1.pending_forward_count ≡ s.pending_forward_count)
      × ((end_queue alias q s).1.sock_send ≡ s.sock_send)
      × (length (end_queue alias q s).0 ≤ length q)
unfolding end_queue
end_queue-depth alias [] s = ground arith
end_queue-depth alias (i ∷ q) s = elim (Bool-cases (is_alias alias i)) [
  | inl e ↦ rw e (
      let (a, b, c) = end_queue-depth alias q (lose i s) in
      let (d, f) = lose-depth i s in (a ∙ d, b ∙ f, omega (arith, c)))
  | inr e ↦ rw e (let (a, b, c) = end_queue-depth alias q s in (a, b, omega (arith, c)))
]

total-one : (q : List FwdItem) → total one q ≡ length q
unfolding total
total-one [] = refl
total-one (i ∷ q) = omega (arith, total-one q)

end_buffer-depth :
    (alias : Bytes) (b : Buffer FwdItem) (s : Relay)
    → total one (contents b) ≤ s.pending_forward_count
    → let x = end_buffer alias b s in
      (x.2.pending_forward_count + x.1 ≡ s.pending_forward_count)
      × (x.2.sock_send ≡ s.sock_send)
      × (total one (contents x.0) + x.1 ≡ total one (contents b))
unfolding end_buffer contents total
end_buffer-depth alias [] s h = ground arith
end_buffer-depth alias ((k, q) ∷ rest) s h =
    let x = end_queue alias q s in
    let (a, b, c) = end_queue-depth alias q s in
    let s' : Relay = record x.1 {
      pending_forward_count = x.1.pending_forward_count - (length q - length x.0);
    } in
    let split = total-append one q (contents rest) in
    let (d, e, f) = end_buffer-depth alias rest s' (omega (arith, h, split, a, total-one q)) in
    let joined = total-append one x.0 (contents (end_buffer alias rest s').0) in
    (
      omega (arith, d, a, c, h, split, total-one q),
      e ∙ b,
      omega (arith, f, joined, split, total-one q, total-one x.0, c),
    )

pub end_socket-IsCounted :
    (alias : Bytes) (sock : ℕ) (s : Relay) → IsCounted s → IsCounted (end_socket alias sock s)
unfolding end_socket IsCounted IsExact
end_socket-IsCounted alias sock s (a, p, u) =
    elim (Option-cases (lookup ℕ_discrete sock s.sock_send)) [
      | inl e ↦ rw (e, end_socket) (a, p, u)
      | inr (st, e) ↦
          let (exact, le) = lookup-IsExact sock st s.sock_send e a in
          let (b, c, d) = end_buffer-depth alias st.buffer s (omega (arith, exact, le, p)) in
          let x = end_buffer alias st.buffer s in
          let st' : SockSendState = record st { buffer = x.0; count = st.count - x.1 } in
          let exact' : IsExact st' = omega (arith, exact, d) in
          let size = total-insert sock st' s.sock_send in
          rw (e, end_socket)
            (rw c (
              All-insert sock st' s.sock_send exact' a,
              omega (arith, b, d, exact, p, le, rw e at size),
              insert-IsMap sock st' s.sock_send u,
            ))
    ]

pub sock_state-IsExact : (id : ℕ) (s : Relay) → IsCounted s → IsExact (sock_state id s)
unfolding sock_state IsCounted IsExact total contents
sock_state-IsExact id s (a, p, u) = elim (Option-cases (lookup ℕ_discrete id s.sock_send)) [
  | inl e ↦ rw (e, sock_state) refl
  | inr (st, e) ↦ rw (e, sock_state) (lookup-IsExact id st s.sock_send e a).0
]

pub sock_state-count :
    (id : ℕ) (s : Relay)
    → (sock_state id s).count
      ≡ elim (lookup ℕ_discrete id s.sock_send) [ none ↦ 0 | some old ↦ old.count ]
unfolding sock_state
sock_state-count id s = ground arith

-- An object that is added is counted once.
pub enqueue-IsCounted :
    (id : ℕ) (i : FwdItem) (s : Relay) → IsCounted s → IsCounted (enqueue id i s)
unfolding enqueue IsCounted IsExact
enqueue-IsCounted id i s (a, p, u) =
    let st = sock_state id s in
    let st' : SockSendState = record st {
      buffer = push_back i.priority i st.buffer;
      count = st.count + 1;
    } in
    let size = total-insert id st' s.sock_send in
    let exact = sock_state-IsExact id s (a, p, u) in
    (
      All-insert id st' s.sock_send
          (omega (arith, total-push_back one i.priority i st.buffer, exact)) a,
      omega (arith, p, size, sock_state-count id s),
      insert-IsMap id st' s.sock_send u,
    )
