-- ===== src/Relay/Run.antt =====
-- applications/moq/MoqRelayApp.cc: the events of a QUIC relay, one after the other.
use moq_veins_simulation_the.Base.{
  ℕ, ◌≡◌, sym, subst, ℤ, pos, some, List, [], ◌∷◌, Option, ite_branch, map_cases, bind_cases, arith,
}
use mathlib.Core.Option
use mathlib.Core.Option.{some-injective}
use moq_veins_simulation_the.Reader.{Bytes}
use moq_veins_simulation_the.Stream.{Drain, drained, past_end, stuck}
use moq_veins_simulation_the.Quic.{control_stream}
use moq_veins_simulation_the.Publisher.State.{ℤ-discrete}
use moq_veins_simulation_the.MoqFraming.Object.{ObjectFrame}
use moq_veins_simulation_the.MoqFraming.Control.{ControlFrame}
use moq_veins_simulation_the.Relay.State.{RelayMoment, Relay}
use moq_veins_simulation_the.Relay.Send.{timeout_check}
use moq_veins_simulation_the.Relay.Forward.{on_object_frame}
use moq_veins_simulation_the.Relay.Count.{IsCounted}
use moq_veins_simulation_the.Relay.Step.{
  IsCounted-Same, on_object_frame-IsCounted, handle_control_frame-IsCounted,
  timeout_check-IsCounted,
}
use moq_veins_simulation_the.Relay.Receive.{
  StreamKey, Node, start_next_recv, data_available, handle_controls, handle_objects, keep_buffer,
  took_controls, took_objects, take_in, data_arrived, stream_reset,
}
use moq_veins_simulation_the.Relay.Close.{
  gone_subscribers, socket_closed, send_queue_full, send_queue_drain,
}
use moq_veins_simulation_the.Relay.Release.{
  release_socket-IsCounted, forget_all-Same, send_queue_full-IsCounted, send_queue_drain-IsCounted,
}

-- The callbacks of the sockets, and the timer.
pub data RelayEvent : Type 0 where
  available : ℕ → ℕ → RelayEvent
  arrived : ℕ → Bytes → RelayEvent
  reset : ℕ → ℕ → RelayEvent
  closed : ℕ → RelayEvent
  queue_full : ℕ → RelayEvent
  queue_drain : ℕ → RelayEvent
  timeout_due : RelayEvent

-- What the relay does on an event.
unfoldable pub step : RelayMoment → RelayEvent → Node → Option Node
unfolding data_available data_arrived stream_reset socket_closed send_queue_full send_queue_drain
    timeout_check
step m (available sock id) n = some (data_available sock id n)
step m (arrived sock bytes) n = data_arrived m sock bytes n
step m (reset sock id) n = some (stream_reset sock id n)
step m (closed sock) n = some (socket_closed sock n)
step m (queue_full sock) n = some (record n { relay = send_queue_full sock n.relay })
step m (queue_drain sock) n = some (record n { relay = send_queue_drain m sock n.relay })
step m timeout_due n = some (record n { relay = timeout_check m n.relay })

unfoldable pub run : List (RelayMoment × RelayEvent) → Node → Option Node
unfolding step
run [] n = some n
run ((m, e) ∷ es) n = Option.bind (step m e n) (run es)

handle_controls-IsCounted :
    (sock : ℕ) (cs : List ControlFrame) (s : Relay)
    → IsCounted s
    → IsCounted (handle_controls sock cs s)
unfolding handle_controls
handle_controls-IsCounted sock [] s h = h
handle_controls-IsCounted sock (c ∷ cs) s h =
    handle_controls-IsCounted sock cs _ (handle_control_frame-IsCounted sock c s h)

handle_objects-IsCounted :
    (m : RelayMoment) (start : ℤ) (fs : List (ObjectFrame × Bytes)) (s s' : Relay)
    → handle_objects m start fs s ≡ some s'
    → IsCounted s
    → IsCounted s'
unfolding handle_objects
handle_objects-IsCounted m start [] s s' e h = subst IsCounted (some-injective s s' e) h
handle_objects-IsCounted m start ((f, frame) ∷ fs) s s' e h =
    let (x, ex, er) =
      bind_cases (handle_objects m m.now fs) (on_object_frame m f frame start s) s' e in
    handle_objects-IsCounted m m.now fs x s' er (on_object_frame-IsCounted m f frame start s x ex h)

took_controls-IsCounted :
    (k : StreamKey) (start : ℤ) (d : Drain ControlFrame) (n n' : Node)
    → took_controls k start d n ≡ some n'
    → IsCounted n.relay
    → IsCounted n'.relay
unfolding took_controls keep_buffer
took_controls-IsCounted k start (drained cs rest) n n' e h =
    subst (λ (x : Node). IsCounted x.relay) (some-injective _ n' e)
      (handle_controls-IsCounted k.socket_id cs n.relay h)
took_controls-IsCounted k start past_end n n' e h = absurd (cc)
took_controls-IsCounted k start stuck n n' e h = absurd (cc)

took_objects-IsCounted :
    (m : RelayMoment) (k : StreamKey) (start : ℤ) (d : Drain (ObjectFrame × Bytes)) (n n' : Node)
    → took_objects m k start d n ≡ some n'
    → IsCounted n.relay
    → IsCounted n'.relay
unfolding took_objects keep_buffer
took_objects-IsCounted m k start (drained fs rest) n n' e h =
    let (s, es, en) = map_cases _ (handle_objects m start fs n.relay) n' e in
    rw en (handle_objects-IsCounted m start fs n.relay s es h)
took_objects-IsCounted m k start past_end n n' e h = absurd (cc)
took_objects-IsCounted m k start stuck n n' e h = absurd (cc)

take_in-IsCounted :
    (m : RelayMoment) (k : StreamKey) (bytes : Bytes) (n n' : Node)
    → take_in m k bytes n ≡ some n'
    → IsCounted n.relay
    → IsCounted n'.relay
unfolding take_in
take_in-IsCounted m k bytes n n' e h =
    ite_branch (λ (x : Node). IsCounted x.relay) (ℤ-discrete k.stream_id (pos control_stream)) _ _
      n' e (λ ec. took_controls-IsCounted k _ _ n n' ec h)
      (λ eo. took_objects-IsCounted m k _ _ n n' eo h)

start_next_recv-relay : (sock : ℕ) (n : Node) → (start_next_recv sock n).relay ≡ n.relay
unfolding start_next_recv
start_next_recv-relay sock n = ground arith

data_available-relay : (sock id : ℕ) (n : Node) → (data_available sock id n).relay ≡ n.relay
unfolding data_available start_next_recv
data_available-relay sock id n = ground arith

stream_reset-relay : (sock id : ℕ) (n : Node) → (stream_reset sock id n).relay ≡ n.relay
unfolding stream_reset
stream_reset-relay sock id n = ground arith

step-IsCounted :
    (m : RelayMoment) (e : RelayEvent) (n n' : Node)
    → step m e n ≡ some n'
    → IsCounted n.relay
    → IsCounted n'.relay
unfolding step socket_closed data_arrived
step-IsCounted m (available sock id) n n' e h =
    subst (λ (x : Node). IsCounted x.relay) (some-injective _ n' e)
      (subst IsCounted (sym (data_available-relay sock id n)) h)
step-IsCounted m (arrived sock bytes) n n' e h =
    let (x, ex, en) = map_cases (start_next_recv sock) _ n' e in
    rw (en, start_next_recv-relay sock x) (take_in-IsCounted m _ bytes _ x ex h)
step-IsCounted m (reset sock id) n n' e h =
    subst (λ (x : Node). IsCounted x.relay) (some-injective _ n' e)
      (subst IsCounted (sym (stream_reset-relay sock id n)) h)
step-IsCounted m (closed sock) n n' e h =
    subst (λ (x : Node). IsCounted x.relay) (some-injective _ n' e)
      (IsCounted-Same _ _ (forget_all-Same (gone_subscribers sock n.relay.subscriber_peers) _)
        (release_socket-IsCounted sock n.relay h))
step-IsCounted m (queue_full sock) n n' e h =
    subst (λ (x : Node). IsCounted x.relay) (some-injective _ n' e)
      (send_queue_full-IsCounted sock n.relay h)
step-IsCounted m (queue_drain sock) n n' e h =
    subst (λ (x : Node). IsCounted x.relay) (some-injective _ n' e)
      (send_queue_drain-IsCounted m sock n.relay h)
step-IsCounted m timeout_due n n' e h =
    subst (λ (x : Node). IsCounted x.relay) (some-injective _ n' e)
      (timeout_check-IsCounted m n.relay h)

-- Where the count of every socket is the number of objects that wait for it, the queue depth is
-- their sum and the sockets of the map differ, every run of the events of a relay with QUIC
-- that does not go on with a changed vector or read past the end of a buffer leaves it so: data
-- that comes in, resets of streams, closed connections, full and drained send queues, and the
-- check of the delivery timeouts.
pub run-IsCounted :
    (es : List (RelayMoment × RelayEvent)) (n n' : Node)
    → run es n ≡ some n'
    → IsCounted n.relay
    → IsCounted n'.relay
unfolding run
run-IsCounted [] n n' e h = subst (λ (x : Node). IsCounted x.relay) (some-injective n n' e) h
run-IsCounted ((m, ev) ∷ es) n n' e h =
    let (x, ex, er) = bind_cases (run es) (step m ev n) n' e in
    run-IsCounted es x n' er (step-IsCounted m ev n x ex h)
