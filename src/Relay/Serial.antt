-- ===== src/Relay/Serial.antt =====
-- The receives of the relay: which streams of a socket wait, and which recv is outstanding.
use moq_veins_simulation_the.Base.{
  ℕ, ◌≡◌, ◌≢◌, inl, inr, ite, refl, subst, ◌∙◌, arith, ℤ, pos, negsuc, none, some, List, [], ◌∷◌,
  Option-cases, if_both, if_neg, ◌==◌, list_cases, ite_branch, map_cases, bind_cases, insert,
  ℕ_discrete, lookup-insert, lookup-erase,
}
use mathlib.Core.Option.{some-injective}
use moq_veins_simulation_the.Reader.{Bytes}
use moq_veins_simulation_the.Stream.{Drain, drained, past_end, stuck}
use moq_veins_simulation_the.Quic.{control_stream}
use moq_veins_simulation_the.Publisher.State.{ℤ-discrete}
use moq_veins_simulation_the.MoqFraming.Object.{ObjectFrame}
use moq_veins_simulation_the.MoqFraming.Control.{ControlFrame}
use moq_veins_simulation_the.Broker.Sets.{set_insert}
use moq_veins_simulation_the.Relay.State.{RelayMoment}
use moq_veins_simulation_the.Relay.Receive.{
  StreamKey, handle_objects, keep_buffer, took_controls, took_objects, take_in, Node,
  start_next_recv, data_available, data_arrived, stream_reset, pending_of, in_flight_of,
}
use moq_veins_simulation_the.Relay.Close.{socket_closed}
use moq_veins_simulation_the.Relay.Run.{
  RelayEvent, available, arrived, reset, closed, queue_full, queue_drain, timeout_due, step, run,
}

abbrev ServedAt : ℕ → Node → Type 0
ServedAt j n = in_flight_of j n ≡ none → pending_of j n ≡ []

-- An entry of the two maps is written.
pending_of_entry :
    (sock j : ℕ) (ids : List ℕ) (n : Node)
    → pending_of j (record n { recv_pending = insert ℕ_discrete sock ids n.recv_pending })
      ≡ ite (ℕ_discrete sock j) ids (pending_of j n)
unfolding pending_of
pending_of_entry sock j ids n = ground (arith, lookup-insert ℕ_discrete sock j ids n.recv_pending)

in_flight_of_entry :
    (sock j : ℕ) (i : ℤ) (n : Node)
    → in_flight_of j (record n { recv_in_flight = insert ℕ_discrete sock i n.recv_in_flight })
      ≡ ite (ℕ_discrete sock j) (elim i [ pos id ↦ some id | negsuc k ↦ none ]) (in_flight_of j n)
unfolding in_flight_of
in_flight_of_entry sock j i n = ground (arith, lookup-insert ℕ_discrete sock j i n.recv_in_flight)

start_next_recv-ServedAt :
    (sock j : ℕ) (n : Node) → (sock ≢ j → ServedAt j n) → ServedAt j (start_next_recv sock n)
unfolding start_next_recv in_flight_of pending_of
start_next_recv-ServedAt sock j n h e = elim (list_cases (pending_of sock n)) [
  | inl x ↦
      ground (arith, x, h, e, pending_of_entry sock j [] n, in_flight_of_entry sock j (negsuc 0) n)
  | inr (id, ids, x) ↦
      ground (arith, x, h, e, pending_of_entry sock j ids n, in_flight_of_entry sock j (pos id) n)
]

-- The maps of the receives, which the frames of a buffer leave.
abbrev Quiet : Node → Node → Type 0
Quiet n n' = (n'.recv_pending ≡ n.recv_pending) × (n'.recv_in_flight ≡ n.recv_in_flight)

took_controls-Quiet :
    (k : StreamKey) (start : ℤ) (d : Drain ControlFrame) (n n' : Node)
    → took_controls k start d n ≡ some n'
    → Quiet n n'
unfolding took_controls keep_buffer
took_controls-Quiet k start (drained cs rest) n n' e =
    subst (Quiet n) (some-injective _ n' e) (refl, refl)
took_controls-Quiet k start past_end n n' e = absurd (cc)
took_controls-Quiet k start stuck n n' e = absurd (cc)

took_objects-Quiet :
    (m : RelayMoment) (k : StreamKey) (start : ℤ) (d : Drain (ObjectFrame × Bytes)) (n n' : Node)
    → took_objects m k start d n ≡ some n'
    → Quiet n n'
unfolding took_objects keep_buffer
took_objects-Quiet m k start (drained fs rest) n n' e =
    let (s, es, en) = map_cases _ (handle_objects m start fs n.relay) n' e in rw en (refl, refl)
took_objects-Quiet m k start past_end n n' e = absurd (cc)
took_objects-Quiet m k start stuck n n' e = absurd (cc)

take_in-Quiet :
    (m : RelayMoment) (k : StreamKey) (bytes : Bytes) (n n' : Node)
    → take_in m k bytes n ≡ some n'
    → Quiet n n'
unfolding take_in
take_in-Quiet m k bytes n n' e =
    ite_branch (Quiet n) (ℤ-discrete k.stream_id (pos control_stream)) _ _ n' e
      (took_controls-Quiet k _ _ n n') (took_objects-Quiet m k _ _ n n')

-- Where no recv on a socket is outstanding, no stream of the socket waits for one.
abbrev pub IsServed : Node → Type 0
IsServed n = (j : ℕ) → ServedAt j n

data_available-IsServed :
    (sock id : ℕ) (n : Node) → IsServed n → IsServed (data_available sock id n)
unfolding data_available in_flight_of pending_of
data_available-IsServed sock id n h j =
    let ids = set_insert id (pending_of sock n) in
    let noted : Node = record n { recv_pending = insert ℕ_discrete sock ids n.recv_pending } in
    let other : sock ≢ j → ServedAt j noted =
      λ d e. pending_of_entry sock j ids n ∙ if_neg (ℕ_discrete sock j) d _ _ ∙ h j e in
    elim (Option-cases (in_flight_of sock n)) [
      | inl x ↦ rw (x, data_available) (start_next_recv-ServedAt sock j noted other)
      | inr (i, x) ↦
          rw (x, data_available)
            (if_both (ServedAt j) (i == id) n noted (h j)
              (elim (ℕ_discrete sock j) [ yes p ↦ λ e. absurd (cc) | no d ↦ other d ]))
    ]

data_arrived-IsServed :
    (m : RelayMoment) (sock : ℕ) (bytes : Bytes) (n n' : Node)
    → data_arrived m sock bytes n ≡ some n'
    → IsServed n
    → IsServed n'
unfolding data_arrived in_flight_of pending_of
data_arrived-IsServed m sock bytes n n' e h j =
    let (x, ex, en) = map_cases (start_next_recv sock) _ n' e in
    let (a, b) = take_in-Quiet m _ bytes _ x ex in
    rw en (
      start_next_recv-ServedAt sock j x
        (λ d ei. ground (arith, a, b, h j, ei, d, in_flight_of_entry sock j (negsuc 0) n)))

stream_reset-IsServed : (sock id : ℕ) (n : Node) → IsServed n → IsServed (stream_reset sock id n)
unfolding stream_reset in_flight_of pending_of
stream_reset-IsServed sock id n h j e = ground (arith, h j, e)

socket_closed-IsServed : (sock : ℕ) (n : Node) → IsServed n → IsServed (socket_closed sock n)
unfolding socket_closed in_flight_of pending_of
socket_closed-IsServed sock n h j e = ground (
  arith,
  h j,
  e,
  lookup-erase ℕ_discrete sock j n.recv_pending,
  lookup-erase ℕ_discrete sock j n.recv_in_flight,
)

step-IsServed :
    (m : RelayMoment) (e : RelayEvent) (n n' : Node)
    → step m e n ≡ some n'
    → IsServed n
    → IsServed n'
unfolding step in_flight_of pending_of
step-IsServed m (available sock id) n n' e h =
    subst IsServed (some-injective _ n' e) (data_available-IsServed sock id n h)
step-IsServed m (arrived sock bytes) n n' e h = data_arrived-IsServed m sock bytes n n' e h
step-IsServed m (reset sock id) n n' e h =
    subst IsServed (some-injective _ n' e) (stream_reset-IsServed sock id n h)
step-IsServed m (closed sock) n n' e h =
    subst IsServed (some-injective _ n' e) (socket_closed-IsServed sock n h)
step-IsServed m (queue_full sock) n n' e h = subst IsServed (some-injective _ n' e) (λ j. h j)
step-IsServed m (queue_drain sock) n n' e h = subst IsServed (some-injective _ n' e) (λ j. h j)
step-IsServed m timeout_due n n' e h = subst IsServed (some-injective _ n' e) (λ j. h j)

-- In a relay where on every socket with no outstanding recv no stream waits for one, that stays
-- so over every run of events that does not go on with a changed vector or read past the end of
-- a buffer.
pub run-IsServed :
    (es : List (RelayMoment × RelayEvent)) (n n' : Node)
    → run es n ≡ some n'
    → IsServed n
    → IsServed n'
unfolding run
run-IsServed [] n n' e h = subst IsServed (some-injective n n' e) h
run-IsServed ((m, ev) ∷ es) n n' e h =
    let (x, ex, er) = bind_cases (run es) (step m ev n) n' e in
    run-IsServed es x n' er (step-IsServed m ev n x ex h)
