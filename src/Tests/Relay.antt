-- ===== src/Tests/Relay.antt =====
-- The relay with one subscriber and one object that waits for it.
use moq_veins_simulation_the.Base.{
  ◌<◌, ◌≡◌, refl, arith, ◌-ℤ◌, pos, negsuc, false, [], ◌∷◌, some, All, ℕ_discrete, lookup, insert,
  erase,
}
use moq_veins_simulation_the.Reader.{Bytes, Bytes-discrete}
use moq_veins_simulation_the.SendBuffer.{front, push_back, pop, contents, total}
use moq_veins_simulation_the.Quic.{quic, is_stale}
use moq_veins_simulation_the.Publisher.State.{ℤ-discrete}
use moq_veins_simulation_the.MoqFraming.Object.{ObjectFrame}
use moq_veins_simulation_the.MoqFraming.Control.{
  ControlFrame, no_control, ctrl_publish_done, ctrl_subscribe, pubdone_track_ended,
}
use moq_veins_simulation_the.Relay.State.{
  TrackKey, TrackKey-discrete, DownSubgroup-discrete, FwdItem, SockSendState, RelayMoment, Relay,
}
use moq_veins_simulation_the.Relay.Send.{
  flush_round, flush_stop, flush_loop, flush_socket, shed_overflow, reset_downstream_stream,
  reset_stream_of, work,
}
use moq_veins_simulation_the.Relay.Control.{
  end_subscriber_track, end_socket, end_buffer, end_queue, lose, remove, send_publish_done,
  unsubscribe,
}
use moq_veins_simulation_the.Relay.Forward.{
  on_object_frame, split_alias, forward_all, forward_to_subscriber, count_received, Sids-discrete,
  forward_quic, open_stream, enqueue, sock_state, check_limit,
}
use moq_veins_simulation_the.Relay.Loop.{CanSend, Halted, flush_loop-Halted}
use moq_veins_simulation_the.Relay.Count.{IsCounted, IsExact}
use moq_veins_simulation_the.Relay.Subscribe.{OtherTrack, end_subscriber_track-OtherTrack}

abbrev pub alias_1 : Bytes
alias_1 = b'v' ∷ b'/' ∷ b'l' ∷ []

abbrev key_1 : TrackKey
key_1 = record { track_namespace = b'v' ∷ []; track_name = b'l' ∷ [] }

abbrev subscriber_1 : Bytes
subscriber_1 = b's' ∷ []

abbrev item_1 : FwdItem
item_1 = record {
  sock = 3;
  subgroup = record {
    subscriber_id = subscriber_1;
    track_alias = alias_1;
    group_id = pos 0;
    subgroup_id = pos 0;
  };
  stream_id = 1;
  bytes = 5 ∷ 6 ∷ 7 ∷ [];
  payload_length = pos 3;
  priority = pos 1;
  track_alias = alias_1;
  first_byte_time = pos 10;
  created_at = pos 10;
  timeout = pos 50;
  sent_offset = 2;
  subscriber_id = subscriber_1;
}

abbrev sock_1 : SockSendState
sock_1 = record { buffer = (pos 1, item_1 ∷ []) ∷ []; count = 1; blocked = false }

abbrev pub relay_1 : Relay
relay_1 = record {
  proto = quic;
  udp_fragment_size = 1200;
  published_tracks = [];
  subscriber_by_track = (key_1, subscriber_1 ∷ []) ∷ [];
  publisher_peers = [];
  publisher_by_track_key = [];
  subscriber_peers = (subscriber_1, 3) ∷ [];
  downstream_streams = [];
  reset_downstream = [];
  downstream_resets = 0;
  outstanding = [];
  relay_reset_after_send = λ _. 0;
  objects_forwarded_total = 0;
  forward_count = λ _. 0;
  recv_from_pub_by_track = λ _. 0;
  sock_send = (3, sock_1) ∷ [];
  pending_forward_count = 1;
  relay_dropped_total = 0;
  relay_shed_stale = λ _. 0;
  relay_shed_overflow = λ _. 0;
  quic_forward_buffer_limit = 10;
  next_data_stream_id = 5;
  quic_send_queue_limit = 100;
  quic_chunk_bytes = 2;
  quic_write_event = negsuc 0;
  quic_bytes_this_event = λ _. 0;
  publish_done_sent = 0;
  out = [];
}

abbrev pub at_100 : RelayMoment
at_100 = record { now = pos 100; queue_len = λ _. 9 }

pub relay_1-IsCounted : IsCounted relay_1
unfolding IsCounted IsExact total contents lookup
relay_1-IsCounted = ground arith

abbrev track_ends : ControlFrame
track_ends = record no_control {
  kind = ctrl_publish_done;
  track_namespace = b'v' ∷ [];
  track_name = b'l' ∷ [];
}

sock_1-CanSend : CanSend at_100 3 sock_1 relay_1
unfolding CanSend contents
sock_1-CanSend = ground arith

sock_1-work : work sock_1 < 5
unfolding work total contents
sock_1-work = ground arith

flush_loop-Halted_example : Halted at_100 3 (flush_loop 5 at_100 3 sock_1 relay_1)
flush_loop-Halted_example = flush_loop-Halted at_100 3 5 sock_1 relay_1 sock_1-CanSend sock_1-work

abbrev subscribe_1 : ControlFrame
subscribe_1 = record no_control {
  kind = ctrl_subscribe;
  subscriber_id = b'u' ∷ [];
  track_namespace = b'v' ∷ [];
  track_name = b'l' ∷ [];
}

relay_1-peer : lookup Bytes-discrete subscriber_1 relay_1.subscriber_peers ≡ some 3
unfolding lookup Bytes-discrete ℕ_discrete
relay_1-peer = refl

-- The socket with its queue empty.
abbrev sock_2 : SockSendState
sock_2 = record { buffer = (pos 1, []) ∷ []; count = 0; blocked = false }

relay_1-ended :
    lookup ℕ_discrete 3
      (end_subscriber_track subscriber_1 key_1 pubdone_track_ended relay_1).sock_send
    ≡ some sock_2
unfolding lookup insert erase Bytes-discrete ℕ_discrete TrackKey-discrete end_subscriber_track
    end_socket end_buffer end_queue lose shed_overflow reset_downstream_stream reset_stream_of
    send_publish_done unsubscribe remove
relay_1-ended = refl

end_subscriber_track-OtherTrack_example : All (OtherTrack alias_1) (contents sock_2.buffer)
end_subscriber_track-OtherTrack_example =
    end_subscriber_track-OtherTrack subscriber_1 key_1 pubdone_track_ended 3 relay_1 sock_2
      relay_1-peer relay_1-ended

abbrev object_1 : ObjectFrame
object_1 = record {
  track_id = pos 1;
  track_alias = alias_1;
  group_id = pos 1;
  subgroup_id = pos 0;
  object_id = pos 1;
  priority = pos 1;
  payload_length = pos 3;
  creation_time = pos 40;
}

abbrev forwarded : Relay
forwarded =
    forward_to_subscriber at_100 subscriber_1 object_1 (1 ∷ 2 ∷ []) (pos 90)
      (count_received alias_1 relay_1)

object_1-forwarded : on_object_frame at_100 object_1 (1 ∷ 2 ∷ []) (pos 90) relay_1 ≡ some forwarded
unfolding on_object_frame split_alias forward_all forward_to_subscriber forward_quic open_stream
    enqueue sock_state check_limit count_received flush_socket flush_loop lookup insert erase
    Bytes-discrete ℕ_discrete TrackKey-discrete DownSubgroup-discrete Sids-discrete flush_round
    ℤ-discrete front push_back contents is_stale ◌-ℤ◌ pop flush_stop
object_1-forwarded = refl
