-- ===== src/Tests/Streams.antt =====
-- The publisher from the start: a track whose timer fires twice.
use moq_veins_simulation_the.MoqFraming.Words.{put_u32, put_i64}
use moq_veins_simulation_the.MoqFraming.Frame.{with_length}
use moq_veins_simulation_the.MoqFraming.Object.{encode, object_body}
use moq_veins_simulation_the.Publisher.Send.{
  flush_send_buffer, flush_loop, flush_round, flush_front, flush_stop, observe, enter_event, work,
  charge, drop_stale, send_front, pop_front, do_send_quic_chunk, note_sent, chunk_sent, chunk_len,
  left_to_send,
}
use moq_veins_simulation_the.Publisher.Teardown.{enqueue_pending}
use moq_veins_simulation_the.Base.{
  ◌≡◌, ◌<◌, refl, some, arith, false, List, [], ◌∷◌, lookup, insert, erase, dec_lt, dec_le,
  ℕ_discrete, ◌+ℤ◌, ◌-ℤ◌, to_u64,
}
use moq_veins_simulation_the.Quic.{control_stream, Moment, is_stale}
use moq_veins_simulation_the.SendBuffer.{contents, front, push_back, pop, put, total}
use moq_veins_simulation_the.Publisher.State.{Publisher, SubgroupKey-discrete, ℤ-discrete}
use moq_veins_simulation_the.Publisher.Events.{
  Event, queue_drain, sweep_timer, track_timer, run, step, fire_timer, produce, send_group,
  send_track_data, per_group, next_object, send_object_frame, send_object_quic, open_stream, offer,
}
use moq_veins_simulation_the.Publisher.Streams.Core.{is_reset, Safe, at_key}
use moq_veins_simulation_the.Publisher.Streams.Run.{IsNew, run-Safe, run-subgroup_streams}
use moq_veins_simulation_the.Tests.Publisher.{publisher_1, subgroup_1, at_40, at_100}

abbrev publisher_0 : Publisher
publisher_0 = record publisher_1 {
  subgroup_streams = [];
  next_stream_id = 4;
  send_buffer = [];
  send_buffer_count = 0;
  send_buffer_limit = 9;
}

publisher_0-IsNew : IsNew publisher_0
publisher_0-IsNew = record {
  streams = refl;
  next_stream_id = omega arith;
  out = refl;
  send_buffer = refl;
  outstanding = refl;
}

abbrev day : List (Moment × Event)
day = (at_40, track_timer 1) ∷ (at_100, sweep_timer) ∷ (at_100, queue_drain) ∷ []

run-Safe_example : Safe (run day publisher_0).out
run-Safe_example = run-Safe day publisher_0 publisher_0-IsNew

abbrev burst : List (Moment × Event)
burst = (at_40, track_timer 1) ∷ []

stream_4 : at_key subgroup_1 (run burst publisher_0).subgroup_streams ≡ some 4
unfolding run step fire_timer produce send_group send_track_data per_group next_object
    send_object_frame send_object_quic open_stream enqueue_pending flush_send_buffer flush_loop
    flush_round flush_front flush_stop observe enter_event work lookup insert erase charge
    drop_stale send_front pop_front do_send_quic_chunk note_sent chunk_sent chunk_len offer encode
    front push_back pop put contents total left_to_send dec_lt dec_le ℕ_discrete
    SubgroupKey-discrete is_stale ℤ-discrete ◌+ℤ◌ ◌-ℤ◌ with_length object_body put_u32 put_i64
    to_u64
stream_4 = refl

run-subgroup_streams_example :
    (is_reset 4 (run burst publisher_0).out ≡ false)
    × (control_stream < 4)
    × (subgroup_1 ≡ subgroup_1)
run-subgroup_streams_example =
    run-subgroup_streams burst publisher_0 subgroup_1 subgroup_1 4 publisher_0-IsNew stream_4
      stream_4
