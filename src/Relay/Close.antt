-- ===== src/Relay/Close.antt =====
-- applications/moq/MoqRelayApp.cc: the end of a QUIC connection, and the flow control events.
use moq_veins_simulation_the.Base.{
  ℕ, ◌-◌, Bool, true, false, List, [], ◌∷◌, none, some, ◌==◌, if◌then◌else◌, ite, lookup, insert,
  erase, ℕ_discrete,
}
use moq_veins_simulation_the.Reader.{Bytes, Bytes-discrete}
use moq_veins_simulation_the.Subscriber.State.{StreamReassembler}
use moq_veins_simulation_the.Relay.State.{DownSubgroup, RelayMoment, Relay}
use moq_veins_simulation_the.Relay.Send.{flush_socket}
use moq_veins_simulation_the.Relay.Forward.{sock_state}
use moq_veins_simulation_the.Relay.Receive.{StreamKey, Node}

-- The objects that wait for the socket go with it.
unfoldable pub release_socket : ℕ → Relay → Relay
release_socket sock s = elim (lookup ℕ_discrete sock s.sock_send) [
  | none ↦ s
  | some st ↦ record s {
    pending_forward_count = s.pending_forward_count - st.count;
    sock_send = erase ℕ_discrete sock s.sock_send;
  }
]

-- goneSubscribers
unfoldable pub gone_subscribers : ℕ → List (Bytes × ℕ) → List Bytes
gone_subscribers sock [] = []
gone_subscribers sock ((sid, peer) ∷ m) =
    let gone = gone_subscribers sock m in if peer == sock then sid ∷ gone else gone

-- The entries of the subgroups that are not the subscriber's.
unfoldable pub of_others : Bytes → List (DownSubgroup × ℕ) → List (DownSubgroup × ℕ)
of_others sid [] = []
of_others sid ((k, v) ∷ m) =
    let kept = of_others sid m in ite (Bytes-discrete k.subscriber_id sid) kept ((k, v) ∷ kept)

unfoldable pub forget_subscriber : Bytes → Relay → Relay
unfolding of_others
forget_subscriber sid s = record s {
  downstream_streams = of_others sid s.downstream_streams;
  reset_downstream = of_others sid s.reset_downstream;
  subscriber_peers = erase Bytes-discrete sid s.subscriber_peers;
}

unfoldable pub forget_all : List Bytes → Relay → Relay
unfolding forget_subscriber
forget_all [] s = s
forget_all (sid ∷ sids) s = forget_all sids (forget_subscriber sid s)

-- The buffers of the streams of other sockets.
unfoldable pub of_other_sockets :
    ℕ → List (StreamKey × StreamReassembler) → List (StreamKey × StreamReassembler)
of_other_sockets sock [] = []
of_other_sockets sock ((k, v) ∷ m) =
    let kept = of_other_sockets sock m in if k.socket_id == sock then kept else (k, v) ∷ kept

-- socketClosed of a QUIC socket.
unfoldable pub socket_closed : ℕ → Node → Node
unfolding release_socket gone_subscribers forget_all of_other_sockets
socket_closed sock n = record n {
  relay = forget_all (gone_subscribers sock n.relay.subscriber_peers) (release_socket sock n.relay);
  recv_pending = erase ℕ_discrete sock n.recv_pending;
  recv_in_flight = erase ℕ_discrete sock n.recv_in_flight;
  recv_buffers = of_other_sockets sock n.recv_buffers;
}

unfoldable pub set_blocked : Bool → ℕ → Relay → Relay
unfolding sock_state
set_blocked b sock s = record s {
  sock_send = insert ℕ_discrete sock (record (sock_state sock s) { blocked = b }) s.sock_send;
}

-- socketSendQueueFull
unfoldable pub send_queue_full : ℕ → Relay → Relay
unfolding set_blocked
send_queue_full sock s = set_blocked true sock s

-- socketSendQueueDrain
unfoldable pub send_queue_drain : RelayMoment → ℕ → Relay → Relay
unfolding set_blocked flush_socket
send_queue_drain m sock s = flush_socket m sock (set_blocked false sock s)
