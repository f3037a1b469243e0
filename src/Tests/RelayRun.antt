-- ===== src/Tests/RelayRun.antt =====
-- A run of the relay: a stream has data, a part of a frame arrives, and a connection closes.
use moq_veins_simulation_the.Base.{
  ◌≡◌, ◌≢◌, refl, ap, ◌∙◌, ◌++◌, ℤ, flat_map, append-nil, List, [], ◌∷◌, none, some, ℕ_discrete,
  lookup, insert, pos, arith, if◌then◌else◌, ◌==◌, erase, ◌-ℤ◌,
}
use mathlib.Core.Option
use moq_veins_simulation_the.Reader.{incomplete, Bytes, Bytes-discrete}
use moq_veins_simulation_the.Quic.{control_stream, is_stale}
use moq_veins_simulation_the.Publisher.State.{ℤ-discrete}
use moq_veins_simulation_the.MoqFraming.Object.{try_parse, encode}
use moq_veins_simulation_the.Relay.State.{
  RelayMoment, Relay, DownSubgroup, TrackKey-discrete, DownSubgroup-discrete,
}
use moq_veins_simulation_the.Relay.Send.{flush_socket, flush_loop, flush_round, flush_stop}
use moq_veins_simulation_the.SendBuffer.{front, push_back, contents, pop}
use moq_veins_simulation_the.Relay.Count.{IsCounted}
use moq_veins_simulation_the.Relay.Receive.{
  Node, pending_of, in_flight_of, StreamKey, StreamKey-discrete, recv_buffer, take_in,
}
use moq_veins_simulation_the.Relay.Close.{socket_closed}
use moq_veins_simulation_the.Relay.Run.{
  RelayEvent, available, arrived, closed, queue_full, queue_drain, run, step, run-IsCounted,
}
use moq_veins_simulation_the.Relay.Serial.{IsServed, run-IsServed}
use moq_veins_simulation_the.Relay.Gone.{NoSubgroup, socket_closed-gone}
use moq_veins_simulation_the.MoqFraming.Frame.{parse_frame}
use moq_veins_simulation_the.Relay.Frames.{begun, Kept, take_in-handled}
use moq_veins_simulation_the.Relay.Forward.{
  on_object_frame, split_alias, forward_all, forward_to_subscriber, forward_quic, open_stream,
  enqueue, sock_state, check_limit, count_received, Sids-discrete,
}
use moq_veins_simulation_the.Tests.Framing.{object_1, object_1-IsObject}
use moq_veins_simulation_the.Tests.Relay.{relay_1, relay_1-IsCounted, at_100}

abbrev node_1 : Node
node_1 = record {
  relay = relay_1;
  recv_pending = [];
  recv_in_flight = [];
  recv_buffers = [];
  upstream_resets = 0;
  recvs = [];
}

abbrev events_1 : List (RelayMoment × RelayEvent)
events_1 =
    (at_100, available 7 4)
    ∷ (at_100, available 7 8)
    ∷ (at_100, queue_full 3)
    ∷ (at_100, arrived 7 (0 ∷ 0 ∷ []))
    ∷ (at_100, queue_drain 3)
    ∷ (at_100, closed 3)
    ∷ []

abbrev ended_1 : Node
ended_1 = elim (run events_1 node_1) [ none ↦ node_1 | some n ↦ n ]

node_1-IsServed : IsServed node_1
unfolding pending_of in_flight_of lookup
node_1-IsServed j e = refl

events_1-ended : run events_1 node_1 ≡ some ended_1
unfolding run step Option.bind ℤ-discrete lookup insert ℕ_discrete try_parse
events_1-ended = refl

run-IsCounted_example : IsCounted ended_1.relay
run-IsCounted_example = run-IsCounted events_1 node_1 ended_1 events_1-ended relay_1-IsCounted

run-IsServed_example : IsServed ended_1
run-IsServed_example = run-IsServed events_1 node_1 ended_1 events_1-ended node_1-IsServed

socket_closed-gone_example :
    ((sid : Bytes)
      → lookup Bytes-discrete sid (socket_closed 3 node_1).relay.subscriber_peers ≢ some 3)
    × ((sid : Bytes) (k : DownSubgroup)
        → lookup Bytes-discrete sid relay_1.subscriber_peers ≡ some 3
        → k.subscriber_id ≡ sid
        → NoSubgroup k (socket_closed 3 node_1).relay)
    × (lookup ℕ_discrete 3 (socket_closed 3 node_1).relay.sock_send ≡ none)
    × (in_flight_of 3 (socket_closed 3 node_1) ≡ none)
    × (pending_of 3 (socket_closed 3 node_1) ≡ [])
    × ((k : StreamKey)
        → lookup StreamKey-discrete k (socket_closed 3 node_1).recv_buffers
          ≡ (if k.socket_id == 3 then none else lookup StreamKey-discrete k node_1.recv_buffers))
socket_closed-gone_example = socket_closed-gone 3 node_1

-- QUIC's queue is full for the relay.
abbrev relay_2 : Relay
relay_2 = record relay_1 { quic_send_queue_limit = 0 }

abbrev node_2 : Node
node_2 = record node_1 { relay = relay_2 }

abbrev stream_4 : StreamKey
stream_4 = record { socket_id = 7; stream_id = pos 4 }

no_content : (recv_buffer stream_4 node_2).content ≡ []
unfolding recv_buffer lookup
no_content = refl

no_object : try_parse (0 ∷ []) ≡ incomplete
unfolding try_parse parse_frame
no_object = refl

data_stream : stream_4.stream_id ≢ pos control_stream
data_stream e = ground (arith, e)

abbrev start_1 : ℤ
start_1 =
    begun (pos 100) (recv_buffer stream_4 node_2).content
      (recv_buffer stream_4 node_2).frame_start_time

abbrev forwarded_1 : Relay
forwarded_1 = elim (on_object_frame at_100 object_1 (encode object_1) start_1 relay_2) [
  | none ↦ relay_2
  | some s ↦ s
]

object_1-forwarded :
    on_object_frame at_100 object_1 (encode object_1) start_1 relay_2 ≡ some forwarded_1
unfolding on_object_frame split_alias forward_all forward_to_subscriber forward_quic open_stream
    enqueue sock_state check_limit count_received flush_socket flush_loop lookup insert erase
    Bytes-discrete ℕ_discrete TrackKey-discrete DownSubgroup-discrete Sids-discrete flush_round
    ℤ-discrete front push_back contents is_stale ◌-ℤ◌ pop flush_stop
object_1-forwarded = refl

one_object : encode object_1 ++ (0 ∷ []) ≡ flat_map encode (object_1 ∷ []) ++ (0 ∷ [])
unfolding mathlib.Core.List.flat_map
one_object = rw append-nil refl

take_in-handled_example :
    (n' : Node) × (take_in at_100 stream_4 (encode object_1 ++ (0 ∷ [])) node_2 ≡ some n')
    × (n'.relay ≡ forwarded_1)
    × Kept stream_4 (0 ∷ []) (pos 100) node_2 n'
take_in-handled_example =
    take_in-handled at_100 stream_4 (encode object_1 ++ (0 ∷ [])) (0 ∷ []) (object_1 ∷ []) node_2
      forwarded_1 data_stream (object_1-IsObject, tt) no_object
      (ap (λ (b : Bytes). b ++ (encode object_1 ++ (0 ∷ []))) no_content ∙ one_object)
      (forwarded_1, object_1-forwarded, refl)
