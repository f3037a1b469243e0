-- ===== src/Relay/Release.antt =====
-- The relay's counters where a connection ends, and in the flow control events.
use moq_veins_simulation_the.Base.{
  ℕ, ◌+◌, ◌≡◌, refl, ◌∙◌, sym, arith, none, some, List, [], ◌∷◌, All, inl, inr, Option-cases, Bool,
  lookup, erase, ℕ_discrete, lookup-erase_other, if_pos, if_neg, false, true,
}
use moq_veins_simulation_the.Reader.{Bytes}
use moq_veins_simulation_the.SendBuffer.{total}
use moq_veins_simulation_the.Relay.State.{SockSendState, RelayMoment, Relay}
use moq_veins_simulation_the.Relay.Forward.{sock_state}
use moq_veins_simulation_the.Relay.Count.{
  IsMap, IsExact, IsCounted, flush_socket-IsCounted, total-insert, All-insert, insert-IsMap,
  sock_state-IsExact, sock_state-count, count_of,
}
use moq_veins_simulation_the.Relay.Step.{Same}
use moq_veins_simulation_the.Relay.Close.{
  release_socket, forget_subscriber, forget_all, set_blocked, send_queue_full, send_queue_drain,
}

-- What the map is without a socket.
erase_absent :
    (id : ℕ) (m : List (ℕ × SockSendState))
    → lookup ℕ_discrete id m ≡ none
    → erase ℕ_discrete id m ≡ m
unfolding lookup erase
erase_absent id [] h = refl
erase_absent id ((j, x) ∷ m) h = ground (arith, erase_absent id m)

total-erase :
    (id : ℕ) (st : SockSendState) (m : List (ℕ × SockSendState))
    → IsMap m
    → lookup ℕ_discrete id m ≡ some st
    → total count_of (erase ℕ_discrete id m) + st.count ≡ total count_of m
unfolding total lookup erase
total-erase id st [] u e = absurd (cc)
total-erase id st ((j, x) ∷ m) (n, u) e = elim (ℕ_discrete j id) [
  | yes p ↦ let same = erase_absent id m (rw p at n) in ground (arith, p, same, e)
  | no d ↦ ground (arith, d, total-erase id st m u, e)
]

All-erase :
    (id : ℕ) (m : List (ℕ × SockSendState))
    → All (λ (e : ℕ × SockSendState). IsExact e.1) m
    → All (λ (e : ℕ × SockSendState). IsExact e.1) (erase ℕ_discrete id m)
unfolding erase
All-erase id [] a = tt
All-erase id ((j, x) ∷ m) a = ground (arith, a, All-erase id m a.1)

erase-IsMap : (id : ℕ) (m : List (ℕ × SockSendState)) → IsMap m → IsMap (erase ℕ_discrete id m)
unfolding erase
erase-IsMap id [] u = tt
erase-IsMap id ((j, x) ∷ m) (n, u) = elim (ℕ_discrete j id) [
  | yes p ↦
      rw (if_pos (ℕ_discrete j id) p (erase ℕ_discrete id m) ((j, x) ∷ erase ℕ_discrete id m))
        (erase-IsMap id m u)
  | no d ↦
      rw (if_neg (ℕ_discrete j id) d (erase ℕ_discrete id m) ((j, x) ∷ erase ℕ_discrete id m))
        (lookup-erase_other ℕ_discrete id j m (λ e. d (sym e)) ∙ n, erase-IsMap id m u)
]

pub release_socket-IsCounted :
    (sock : ℕ) (s : Relay) → IsCounted s → IsCounted (release_socket sock s)
unfolding release_socket IsCounted
release_socket-IsCounted sock s (a, p, u) =
    elim (Option-cases (lookup ℕ_discrete sock s.sock_send)) [
      | inl e ↦ rw (e, release_socket) (a, p, u)
      | inr (st, e) ↦
          rw (e, release_socket)
            (
              All-erase sock s.sock_send a,
              omega (arith, p, total-erase sock st s.sock_send u e),
              erase-IsMap sock s.sock_send u,
            )
    ]

pub forget_all-Same : (sids : List Bytes) (s : Relay) → Same s (forget_all sids s)
unfolding forget_all forget_subscriber
forget_all-Same [] s = (refl, refl)
forget_all-Same (sid ∷ sids) s =
    let (a, b) = forget_all-Same sids (forget_subscriber sid s) in (a, b)

set_blocked-IsCounted :
    (b : Bool) (sock : ℕ) (s : Relay) → IsCounted s → IsCounted (set_blocked b sock s)
unfolding set_blocked IsCounted IsExact
set_blocked-IsCounted b sock s (a, p, u) =
    let st' : SockSendState = record (sock_state sock s) { blocked = b } in
    (
      All-insert sock st' s.sock_send (sock_state-IsExact sock s (a, p, u)) a,
      omega (arith, p, total-insert sock st' s.sock_send, sock_state-count sock s),
      insert-IsMap sock st' s.sock_send u,
    )

pub send_queue_full-IsCounted :
    (sock : ℕ) (s : Relay) → IsCounted s → IsCounted (send_queue_full sock s)
unfolding send_queue_full
send_queue_full-IsCounted sock s h = set_blocked-IsCounted true sock s h

pub send_queue_drain-IsCounted :
    (m : RelayMoment) (sock : ℕ) (s : Relay) → IsCounted s → IsCounted (send_queue_drain m sock s)
unfolding send_queue_drain
send_queue_drain-IsCounted m sock s h =
    flush_socket-IsCounted m sock (set_blocked false sock s) (set_blocked-IsCounted false sock s h)
