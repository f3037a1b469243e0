-- ===== src/Relay/Gone.antt =====
-- What socketClosed of the relay leaves of a connection.
use moq_veins_simulation_the.Base.{
  ℕ, ◌≡◌, ◌≢◌, refl, arith, none, some, List, [], ◌∷◌, lookup, ℕ_discrete, lookup-erase,
  lookup-erase_present, All, true, if◌then◌else◌, ◌==◌, sym, ap, ◌∙◌, if_pos, if_neg,
}
use moq_veins_simulation_the.Reader.{Bytes, Bytes-discrete}
use moq_veins_simulation_the.Relay.State.{Relay, DownSubgroup, DownSubgroup-discrete}
use moq_veins_simulation_the.Relay.Control.{is_in}
use moq_veins_simulation_the.Subscriber.State.{StreamReassembler}
use moq_veins_simulation_the.Relay.Receive.{
  StreamKey, StreamKey-discrete, Node, pending_of, in_flight_of,
}
use moq_veins_simulation_the.Relay.Close.{
  release_socket, forget_subscriber, forget_all, gone_subscribers, socket_closed, of_others,
  of_other_sockets,
}

forget_all-peers :
    (sids : List Bytes) (sid : Bytes) (peer : ℕ) (s : Relay)
    → lookup Bytes-discrete sid (forget_all sids s).subscriber_peers ≡ some peer
    → (lookup Bytes-discrete sid s.subscriber_peers ≡ some peer) × All (λ x. x ≢ sid) sids
unfolding forget_all forget_subscriber
forget_all-peers [] sid peer s e = (e, tt)
forget_all-peers (x ∷ sids) sid peer s e =
    let (h, rest) = forget_all-peers sids sid peer (forget_subscriber x s) e in
    let (d, kept) = lookup-erase_present Bytes-discrete x sid peer s.subscriber_peers h in
    (kept, (d, rest))

gone_subscribers_complete :
    (sock : ℕ) (sid : Bytes) (m : List (Bytes × ℕ))
    → All (λ x. x ≢ sid) (gone_subscribers sock m)
    → lookup Bytes-discrete sid m ≢ some sock
unfolding gone_subscribers lookup
gone_subscribers_complete sock sid [] a e = cc
gone_subscribers_complete sock sid ((x, peer) ∷ m) a e =
    ground (arith, a, e, gone_subscribers_complete sock sid m)

forget_all-sock_send : (sids : List Bytes) (s : Relay) → (forget_all sids s).sock_send ≡ s.sock_send
unfolding forget_all forget_subscriber
forget_all-sock_send [] s = refl
forget_all-sock_send (sid ∷ sids) s = forget_all-sock_send sids (forget_subscriber sid s)

release_socket-peers :
    (sock : ℕ) (s : Relay) → (release_socket sock s).subscriber_peers ≡ s.subscriber_peers
unfolding release_socket
release_socket-peers sock s = ground arith

release_socket-released :
    (sock : ℕ) (s : Relay) → lookup ℕ_discrete sock (release_socket sock s).sock_send ≡ none
unfolding release_socket
release_socket-released sock s = ground (arith, lookup-erase ℕ_discrete sock sock s.sock_send)

gone_subscribers_in :
    (sock : ℕ) (sid : Bytes) (m : List (Bytes × ℕ))
    → lookup Bytes-discrete sid m ≡ some sock
    → is_in sid (gone_subscribers sock m) ≡ true
unfolding gone_subscribers lookup is_in
gone_subscribers_in sock sid [] e = cc
gone_subscribers_in sock sid ((x, peer) ∷ m) e = ground (arith, e, gone_subscribers_in sock sid m)

-- A subscriber's subgroups go, and no other entry is made.
of_others-none :
    (sid : Bytes) (k : DownSubgroup) (m : List (DownSubgroup × ℕ))
    → k.subscriber_id ≡ sid
    → lookup DownSubgroup-discrete k (of_others sid m) ≡ none
unfolding of_others lookup
of_others-none sid k [] e = refl
of_others-none sid k ((j, v) ∷ m) e = elim (Bytes-discrete j.subscriber_id sid) [
  | yes p ↦
      rw
        (if_pos (Bytes-discrete j.subscriber_id sid) p (of_others sid m) ((j, v) ∷ of_others sid m))
        (of_others-none sid k m e)
  | no d ↦
      rw
        (if_neg (Bytes-discrete j.subscriber_id sid) d (of_others sid m) ((j, v) ∷ of_others sid m))
        (if_neg (DownSubgroup-discrete j k)
            (λ q. d (ap (λ (x : DownSubgroup). x.subscriber_id) q ∙ e)) _ _
          ∙ of_others-none sid k m e)
]

of_others-keeps_none :
    (sid : Bytes) (k : DownSubgroup) (m : List (DownSubgroup × ℕ))
    → lookup DownSubgroup-discrete k m ≡ none
    → lookup DownSubgroup-discrete k (of_others sid m) ≡ none
unfolding of_others lookup
of_others-keeps_none sid k [] e = refl
of_others-keeps_none sid k ((j, v) ∷ m) e = ground (arith, e, of_others-keeps_none sid k m)

-- No stream of a subgroup is open, and none is noted as reset.
abbrev pub NoSubgroup : DownSubgroup → Relay → Type 0
NoSubgroup k s =
    (lookup DownSubgroup-discrete k s.downstream_streams ≡ none)
    × (lookup DownSubgroup-discrete k s.reset_downstream ≡ none)

forget_all-keeps_none :
    (sids : List Bytes) (k : DownSubgroup) (s : Relay)
    → NoSubgroup k s
    → NoSubgroup k (forget_all sids s)
unfolding forget_all forget_subscriber
forget_all-keeps_none [] k s h = h
forget_all-keeps_none (x ∷ sids) k s (a, b) =
    forget_all-keeps_none sids k (forget_subscriber x s) (
      of_others-keeps_none x k s.downstream_streams a,
      of_others-keeps_none x k s.reset_downstream b,
    )

forget_all-NoSubgroup :
    (sids : List Bytes) (sid : Bytes) (k : DownSubgroup) (s : Relay)
    → is_in sid sids ≡ true
    → k.subscriber_id ≡ sid
    → NoSubgroup k (forget_all sids s)
unfolding forget_all forget_subscriber is_in
forget_all-NoSubgroup [] sid k s e h = absurd (cc)
forget_all-NoSubgroup (x ∷ sids) sid k s e h = elim (Bytes-discrete x sid) [
  | yes p ↦ forget_all-keeps_none sids k (forget_subscriber x s) (
    of_others-none x k s.downstream_streams (h ∙ sym p),
    of_others-none x k s.reset_downstream (h ∙ sym p),
  )
  | no d ↦
      forget_all-NoSubgroup sids sid k (forget_subscriber x s)
        (sym (if_neg (Bytes-discrete x sid) d true (is_in sid sids)) ∙ e) h
]

of_other_sockets-lookup :
    (sock : ℕ) (k : StreamKey) (m : List (StreamKey × StreamReassembler))
    → lookup StreamKey-discrete k (of_other_sockets sock m)
      ≡ (if k.socket_id == sock then none else lookup StreamKey-discrete k m)
unfolding of_other_sockets lookup
of_other_sockets-lookup sock k [] = ground arith
of_other_sockets-lookup sock k ((j, v) ∷ m) =
    ground (
      arith,
      of_other_sockets-lookup sock k m,
      λ (q : j ≡ k). ap (λ (x : StreamKey). x.socket_id) q,
    )

-- When a QUIC connection closed, the relay reaches no subscriber by its socket, has no stream
-- open or noted as reset for a subgroup of a subscriber that it reached by it, has nothing that
-- waits to be sent on it, no outstanding recv on it and no stream of it that waits for one, and
-- of the receive buffers it has lost exactly those of the socket.
pub socket_closed-gone :
    (sock : ℕ) (n : Node)
    → let n' = socket_closed sock n in
      ((sid : Bytes) → lookup Bytes-discrete sid n'.relay.subscriber_peers ≢ some sock)
      × ((sid : Bytes) (k : DownSubgroup)
          → lookup Bytes-discrete sid n.relay.subscriber_peers ≡ some sock
          → k.subscriber_id ≡ sid
          → NoSubgroup k n'.relay)
      × (lookup ℕ_discrete sock n'.relay.sock_send ≡ none)
      × (in_flight_of sock n' ≡ none)
      × (pending_of sock n' ≡ [])
      × ((k : StreamKey)
          → lookup StreamKey-discrete k n'.recv_buffers
            ≡ (if k.socket_id == sock then none else lookup StreamKey-discrete k n.recv_buffers))
unfolding socket_closed in_flight_of pending_of
socket_closed-gone sock n = (
  λ sid e.
      let (h, others) =
        forget_all-peers (gone_subscribers sock n.relay.subscriber_peers) sid sock
          (release_socket sock n.relay) e in
      gone_subscribers_complete sock sid n.relay.subscriber_peers others
        (rw (release_socket-peers sock n.relay) at h),
  λ sid k e h.
      forget_all-NoSubgroup (gone_subscribers sock n.relay.subscriber_peers) sid k
        (release_socket sock n.relay) (gone_subscribers_in sock sid n.relay.subscriber_peers e) h,
  rw
      (forget_all-sock_send (gone_subscribers sock n.relay.subscriber_peers)
        (release_socket sock n.relay))
      (release_socket-released sock n.relay),
  ground (arith, lookup-erase ℕ_discrete sock sock n.recv_in_flight),
  ground (arith, lookup-erase ℕ_discrete sock sock n.recv_pending),
  λ k. of_other_sockets-lookup sock k n.recv_buffers,
)
