-- ===== src/Tests/Subscriber.antt =====
-- The MoQ subscriber with a stream that was cut in the middle of an object.
use moq_veins_simulation_the.MoqFraming.Frame.{parse_frame}
use moq_veins_simulation_the.Base.{
  ℕ, ◌+◌, ◌≡◌, refl, some, none, arith, ℤ, pos, negsuc, ◌-ℤ◌, true, List, [], ◌∷◌, ◌++◌, All, take,
  drop, take-append-drop, append-nil, flat_map, ◌∙◌, ap, lookup, sym, insert, ℕ_discrete,
}
use moq_veins_simulation_the.Reader.{Bytes, incomplete}
use moq_veins_simulation_the.Stream.{drain, drain_loop}
use moq_veins_simulation_the.Quic.{quic}
use moq_veins_simulation_the.MoqFraming.Object.{encode, try_parse, try_parse_nothing}
use moq_veins_simulation_the.Subscriber.Stats.{
  SubTrackStat, no_samples, no_objects, add_sample, add_object, shared_stat, shared_stat-add_object,
}
use moq_veins_simulation_the.Subscriber.Bounds.{Sample, add_all, late, Within, add_all-bounds}
use moq_veins_simulation_the.Subscriber.State.{Subscriber, StreamReassembler, recv}
use moq_veins_simulation_the.Subscriber.Receive.{
  track_stat, stream_buffer, stream_arrived, data_arrived, took_objects, record_objects,
  keep_stream, start_next_recv,
}
use moq_veins_simulation_the.Subscriber.Serial.{arrive_all, recvs, read_all, arrive_all-recvs}
use moq_veins_simulation_the.Subscriber.Arrivals.{arrive_on, joined, count_of, arrive_on-received}
use moq_veins_simulation_the.Tests.Framing.{object_1, object_1-IsObject}

abbrev subscriber_0 : Subscriber
subscriber_0 = record {
  proto = quic;
  udp_fragment_size = 1200;
  tracks = [];
  sending_allowed = true;
  recv_pending = 8 ∷ 12 ∷ [];
  recv_in_flight = some 4;
  stream_buffers = [];
  tcp_recv_buf = [];
  tcp_frame_start = negsuc 0;
  udp_reasm = [];
  sub_stats = [];
  receive_count = 0;
  objects_reset_by_peer = 0;
  subscription_end_time = negsuc 0;
  subscription_end_status = negsuc 0;
  out = [];
}

abbrev two_packets : List (ℤ × Bytes)
two_packets = (pos 50, take 20 (encode object_1)) ∷ (pos 60, drop 20 (encode object_1)) ∷ []

two_packets-joined : [] ++ joined two_packets ≡ flat_map encode (object_1 ∷ [])
unfolding joined mathlib.Core.List.flat_map
two_packets-joined =
    ap (λ b. take 20 (encode object_1) ++ b) (append-nil (drop 20 (encode object_1)))
    ∙ take-append-drop 20 (encode object_1)
    ∙ sym (append-nil (encode object_1))

no_buffer : try_parse (stream_buffer 4 subscriber_0).content ≡ incomplete
unfolding stream_buffer lookup
no_buffer = try_parse_nothing

no_content : (stream_buffer 4 subscriber_0).content ≡ []
unfolding stream_buffer lookup
no_content = refl

arrive_on-received_example :
    (s' : Subscriber) × (arrive_on 4 two_packets subscriber_0 ≡ some s')
    × ((track_stat object_1.track_alias s').received
        ≡ (track_stat object_1.track_alias subscriber_0).received
          + count_of object_1.track_alias (object_1 ∷ []))
    × ((stream_buffer 4 s').content ≡ [])
arrive_on-received_example =
    arrive_on-received two_packets (object_1 ∷ []) 4 object_1.track_alias subscriber_0
      (λ e. omega (arith, e)) (object_1-IsObject, tt) no_buffer
      (ap (λ b. b ++ joined two_packets) no_content ∙ two_packets-joined)

abbrev three_packets : List (ℤ × Bytes)
three_packets = (pos 50, []) ∷ (pos 51, []) ∷ (pos 52, []) ∷ []

abbrev empty_since : ℤ → StreamReassembler
empty_since t = record { content = []; frame_start_time = t }

abbrev subscriber_end : Subscriber
subscriber_end = record subscriber_0 {
  recv_pending = [];
  recv_in_flight = none;
  stream_buffers =
      (4, empty_since (pos 50)) ∷ (8, empty_since (pos 51)) ∷ (12, empty_since (pos 52)) ∷ [];
  out = recv 12 ∷ recv 8 ∷ [];
}

three_arrive : arrive_all three_packets subscriber_0 ≡ some subscriber_end
unfolding arrive_all data_arrived stream_arrived start_next_recv took_objects record_objects
    keep_stream stream_buffer lookup insert drain drain_loop try_parse parse_frame ℕ_discrete
three_arrive = refl

arrive_all-recvs_example :
    (recvs subscriber_end.out ≡ read_all (8 ∷ 12 ∷ []) (recvs []))
    × (subscriber_end.recv_in_flight ≡ none)
    × (subscriber_end.recv_pending ≡ [])
arrive_all-recvs_example =
    arrive_all-recvs (8 ∷ 12 ∷ []) three_packets subscriber_0 subscriber_end refl refl three_arrive

shared_stat-add_object_example :
    shared_stat (add_object object_1 (pos 40) (pos 60) no_objects)
    ≡ add_sample object_1.object_id object_1.payload_length
        (pos 60 -ℤ object_1.creation_time)
        (pos 60)
        (shared_stat no_objects)
shared_stat-add_object_example = shared_stat-add_object object_1 (pos 40) (pos 60) no_objects

abbrev sample_1 : Sample
sample_1 = record { sequence = 3; payload_bytes = pos 10; latency = 7; now = pos 100 }

abbrev sample_2 : Sample
sample_2 = record { sequence = 9; payload_bytes = pos 10; latency = 2; now = pos 110 }

abbrev stat_1 : SubTrackStat
stat_1 = add_all (sample_1 ∷ sample_2 ∷ []) (record no_samples { deadline = pos 5 })

add_all-bounds_example :
    (lo : ℕ) × (hi : ℕ) × (stat_1.lowest_seq ≡ pos lo)
    × (stat_1.highest_seq ≡ pos hi)
    × All (Within lo hi) (sample_1 ∷ sample_2 ∷ [])
    × (stat_1.received ≡ 2)
    × (stat_1.deadline_misses ≡ late (pos 5) (sample_1 ∷ sample_2 ∷ []))
    × (stat_1.jitter_count ≡ 1)
add_all-bounds_example = add_all-bounds (pos 5) sample_1 (sample_2 ∷ [])
