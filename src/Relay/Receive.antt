-- ===== src/Relay/Receive.antt =====
-- applications/moq/MoqRelayApp.cc: the receives of the QUIC transport, one outstanding for each socket.
use moq_veins_simulation_the.Base.{
  ℕ, ◌+◌, ℤ, pos, negsuc, List, [], ◌∷◌, ◌++◌, take, Option, none, some, ◌==◌, if◌then◌else◌, ite,
  lookup, insert, erase, ℕ_discrete,
}
use mathlib.Core.Option
use moq_veins_simulation_the.Reader.{Bytes, Parse, incomplete, parsed, overread}
use moq_veins_simulation_the.Stream.{Drain, drained, past_end, stuck, drain}
use moq_veins_simulation_the.Quic.{control_stream}
use moq_veins_simulation_the.Publisher.State.{ℤ-discrete}
use moq_veins_simulation_the.MoqFraming.Object.{ObjectFrame, try_parse}
use moq_veins_simulation_the.MoqFraming.Control.{ControlFrame, try_parse_control}
use moq_veins_simulation_the.Broker.Sets.{set_insert}
use moq_veins_simulation_the.Subscriber.State.{StreamReassembler}
use moq_veins_simulation_the.Subscriber.Receive.{started}
use moq_veins_simulation_the.Relay.State.{RelayMoment, Relay}
use moq_veins_simulation_the.Relay.Control.{handle_control_frame}
use moq_veins_simulation_the.Relay.Forward.{on_object_frame}

-- A socket's id and a stream.
pub record StreamKey : Type 0 where
  pub socket_id : ℕ
  pub stream_id : ℤ

unfoldable pub StreamKey-discrete : Discrete StreamKey
StreamKey-discrete = hlevel ℕ_discrete

-- What the handlers of received data keep. `recv_in_flight` is negative where no recv is outstanding,
-- `recvs` lists the calls of recv, the latest first.
pub record Node : Type 0 where
  pub relay : Relay
  pub recv_pending : List (ℕ × List ℕ)
  pub recv_in_flight : List (ℕ × ℤ)
  pub recv_buffers : List (StreamKey × StreamReassembler)
  pub upstream_resets : ℕ
  pub recvs : List (ℕ × ℕ)

unfoldable pub pending_of : ℕ → Node → List ℕ
pending_of sock n = elim (lookup ℕ_discrete sock n.recv_pending) [ none ↦ [] | some ids ↦ ids ]

-- The stream of the outstanding recv; with no entry it is none.
unfoldable pub in_flight_of : ℕ → Node → Option ℕ
in_flight_of sock n = elim (lookup ℕ_discrete sock n.recv_in_flight) [
  | none ↦ none
  | some (pos id) ↦ some id
  | some (negsuc k) ↦ none
]

-- startNextRecv
unfoldable pub start_next_recv : ℕ → Node → Node
unfolding pending_of
start_next_recv sock n = elim (pending_of sock n) [
  | [] ↦ record n {
    recv_pending = insert ℕ_discrete sock [] n.recv_pending;
    recv_in_flight = insert ℕ_discrete sock (negsuc 0) n.recv_in_flight;
  }
  | id ∷ ids ↦ record n {
    recv_pending = insert ℕ_discrete sock ids n.recv_pending;
    recv_in_flight = insert ℕ_discrete sock (pos id) n.recv_in_flight;
    recvs = (sock, id) ∷ n.recvs;
  }
]

-- socketDataAvailable
unfoldable pub data_available : ℕ → ℕ → Node → Node
unfolding pending_of in_flight_of start_next_recv set_insert
data_available sock id n =
    let noted : Node = record n {
      recv_pending = insert ℕ_discrete sock (set_insert id (pending_of sock n)) n.recv_pending;
    } in
    elim (in_flight_of sock n) [
      | some i ↦ (if i == id then n else noted)
      | none ↦ start_next_recv sock noted
    ]

-- A message with the bytes that it was parsed from.
unfoldable pub with_bytes : {A : Type 0} → (Bytes → Parse (A × ℕ)) → Bytes → Parse ((A × Bytes) × ℕ)
with_bytes parse buf = elim (parse buf) [
  | incomplete ↦ incomplete
  | parsed (a, k) ↦ parsed ((a, take k buf), k)
  | overread ↦ overread
]

-- The loops over the frames that a buffer gives. Frames behind the first began to arrive now.
unfoldable pub handle_controls : ℕ → List ControlFrame → Relay → Relay
unfolding handle_control_frame
handle_controls sock [] s = s
handle_controls sock (c ∷ cs) s = handle_controls sock cs (handle_control_frame sock c s)

unfoldable pub handle_objects : RelayMoment → ℤ → List (ObjectFrame × Bytes) → Relay → Option Relay
unfolding on_object_frame
handle_objects m start [] s = some s
handle_objects m start ((f, frame) ∷ fs) s =
    Option.bind (on_object_frame m f frame start s) (handle_objects m m.now fs)

-- `recvInFlight.count(socketId) ? recvInFlight[socketId] : 0`
unfoldable pub arrived_on : ℕ → Node → ℤ
arrived_on sock n = elim (lookup ℕ_discrete sock n.recv_in_flight) [ none ↦ pos 0 | some i ↦ i ]

-- `recvBuffers[{socketId, recvStreamId}]`
unfoldable pub recv_buffer : StreamKey → Node → StreamReassembler
recv_buffer k n = elim (lookup StreamKey-discrete k n.recv_buffers) [
  | none ↦ record { content = []; frame_start_time = negsuc 0 }
  | some rb ↦ rb
]

-- A buffer behind its loop, with the relay that the frames leave.
unfoldable pub keep_buffer : StreamKey → Bytes → ℤ → Node → Relay → Node
keep_buffer k rest start n s = record n {
  relay = s;
  recv_buffers =
      insert StreamKey-discrete k (record { content = rest; frame_start_time = start })
        n.recv_buffers;
}

abbrev pub restart : {A : Type 0} → ℤ → List A → ℤ → ℤ
restart now [] start = start
restart now (f ∷ fs) start = now

-- A read past the buffer's end is `none`.
unfoldable pub took_controls : StreamKey → ℤ → Drain ControlFrame → Node → Option Node
unfolding handle_controls keep_buffer
took_controls k start (drained cs rest) n =
    some (keep_buffer k rest start n (handle_controls k.socket_id cs n.relay))
took_controls k start past_end n = none
took_controls k start stuck n = none

unfoldable pub took_objects :
    RelayMoment → StreamKey → ℤ → Drain (ObjectFrame × Bytes) → Node → Option Node
unfolding handle_objects keep_buffer
took_objects m k start (drained fs rest) n =
    Option.map (keep_buffer k rest (restart m.now fs start) n) (handle_objects m start fs n.relay)
took_objects m k start past_end n = none
took_objects m k start stuck n = none

-- The bytes behind what the stream's buffer has.
unfoldable pub take_in : RelayMoment → StreamKey → Bytes → Node → Option Node
unfolding recv_buffer took_controls took_objects with_bytes drain
take_in m k bytes n =
    let rb = recv_buffer k n in
    let start = started m.now rb.content rb.frame_start_time in
    ite (ℤ-discrete k.stream_id (pos control_stream))
      (took_controls k start (drain try_parse_control (rb.content ++ bytes)) n)
      (took_objects m k start (drain (with_bytes try_parse) (rb.content ++ bytes)) n)

-- socketDataArrived
unfoldable pub data_arrived : RelayMoment → ℕ → Bytes → Node → Option Node
unfolding arrived_on take_in start_next_recv
data_arrived m sock bytes n =
    let idle : Node = record n {
      recv_in_flight = insert ℕ_discrete sock (negsuc 0) n.recv_in_flight;
    } in
    Option.map (start_next_recv sock)
      (take_in m (record { socket_id = sock; stream_id = arrived_on sock n }) bytes idle)

-- socketStreamReset
unfoldable pub stream_reset : ℕ → ℕ → Node → Node
stream_reset sock id n =
    let k : StreamKey = record { socket_id = sock; stream_id = pos id } in
    elim (lookup StreamKey-discrete k n.recv_buffers) [
      | none ↦ n
      | some rb ↦ record n {
        recv_buffers = erase StreamKey-discrete k n.recv_buffers;
        upstream_resets = n.upstream_resets + 1;
      }
    ]
