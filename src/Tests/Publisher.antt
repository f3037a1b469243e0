-- ===== src/Tests/Publisher.antt =====
-- The publisher with one object in its buffer.
use moq_veins_simulation_the.Base.{
  length, ◌≢◌, ◌≤◌, ◌<◌, ◌⊎◌, ◌-◌, map, ◌+◌, ◌≡◌, refl, some, All, arith, pos, negsuc, true, false,
  List, [], ◌∷◌, none, ite, ℕ_discrete, lookup,
}
use moq_veins_simulation_the.SendBuffer.{Buffer, Front, front, contents, total}
use moq_veins_simulation_the.Quic.{quic, Moment}
use moq_veins_simulation_the.MoqFraming.Object.{ObjectFrame}
use moq_veins_simulation_the.MoqFraming.Control.{pubdone_too_far_behind}
use moq_veins_simulation_the.Publisher.State.{
  SubgroupKey, SubgroupKey-discrete, sub_success, TrackMeta, Pending, Publisher,
}
use moq_veins_simulation_the.Publisher.Send.{flush_send_buffer}
use moq_veins_simulation_the.Publisher.Teardown.{terminate_subscriptions}
use moq_veins_simulation_the.Publisher.Events.{
  Event, queue_drain, sweep_timer, track_timer, send_object_quic, timeout_check, run,
}
use moq_veins_simulation_the.Publisher.Loop.{InBounds, CanSend, Halted, flush_send_buffer-Halted}
use moq_veins_simulation_the.Publisher.Count.{buffered, settled, accounted, IsCounted, Books}
use moq_veins_simulation_the.Publisher.Fate.{send_object_quic-Books, timeout_check-Books}
use moq_veins_simulation_the.Publisher.Order.{IsOrdered, IsKeyed, AtLeast, front-AtLeast}
use moq_veins_simulation_the.Publisher.Pacing.{written}
use moq_veins_simulation_the.Publisher.Taken.{TakenFrom, flush_send_buffer-TakenFrom}
use moq_veins_simulation_the.Publisher.Bursts.{run-written}
use moq_veins_simulation_the.Publisher.Ended.{
  IsEnded, data_calls, run-data_calls, terminate_subscriptions-IsEnded,
}

abbrev pub subgroup_1 : SubgroupKey
subgroup_1 = record { tid = 1; group_id = pos 0; subgroup_id = pos 0 }

abbrev track_1 : TrackMeta
track_1 = record {
  publisher_id = pos 1;
  track_namespace = b'v' ∷ [];
  track_id = 1;
  track_name = b'l' ∷ [];
  track_alias = b'v' ∷ b'/' ∷ b'l' ∷ [];
  packet_size = pos 3;
  send_interval = pos 100;
  priority = pos 1;
  next_object_id = 1;
  delivery_timeout = pos 50;
  objects_per_group = pos 2;
  timer_kind = sub_success;
  timer_due = none;
}

-- Two of three bytes are with QUIC.
abbrev pending_1 : Pending
pending_1 = record {
  tid = 1;
  subgroup = subgroup_1;
  stream_id = 4;
  priority = pos 1;
  payload_length = pos 3;
  bytes = 5 ∷ 6 ∷ 7 ∷ [];
  created_at = pos 10;
  timeout = pos 50;
  sent_offset = 2;
}

abbrev pub publisher_1 : Publisher
publisher_1 = record {
  proto = quic;
  udp_fragment_size = 1200;
  tracks = (1, track_1) ∷ [];
  subgroup_streams = (subgroup_1, 4) ∷ [];
  reset_subgroups = [];
  next_stream_id = 8;
  sending_allowed = true;
  quic_blocked = false;
  quic_queue_max_observed = 0;
  quic_send_queue_limit = 100;
  quic_chunk_bytes = 2;
  quic_write_event = negsuc 0;
  quic_bytes_this_event = 0;
  send_buffer = (pos 1, pending_1 ∷ []) ∷ [];
  send_buffer_count = 1;
  send_buffer_limit = 1;
  quic_shed = 0;
  subscriptions_ended = false;
  termination_time = pos 0;
  termination_status = pos 0;
  quic_shed_stale = λ _. 0;
  quic_shed_overflow = λ _. 0;
  subgroup_resets = 0;
  outstanding = [];
  reset_after_send = λ _. 0;
  pub_stats = λ _. record {
    objects_offered = 1;
    bytes_offered = pos 3;
    objects_sent = 0;
    bytes_sent = pos 0;
  };
  out = [];
}

abbrev publisher_2 : Publisher
publisher_2 = record publisher_1 {
  subscriptions_ended = true;
  send_buffer = [];
  send_buffer_count = 0;
}

-- At 40 the buffered object is fresh, at 100 it is stale.
abbrev pub at_40 : Moment
at_40 = record { now = pos 40; queue_len = 9 }

abbrev pub at_100 : Moment
at_100 = record { now = pos 100; queue_len = 9 }

abbrev object_2 : ObjectFrame
object_2 = record {
  track_id = pos 1;
  track_alias = b'v' ∷ b'/' ∷ b'l' ∷ [];
  group_id = pos 0;
  subgroup_id = pos 0;
  object_id = pos 1;
  priority = pos 1;
  payload_length = pos 3;
  creation_time = pos 40;
}

publisher_1-Books : Books 1 1 publisher_1
unfolding Books IsCounted accounted buffered settled total contents
publisher_1-Books = ground arith

-- The second object goes over the limit of the buffer, so both are lost.
send_object_quic-Books_example :
    Books 1 (ite (ℕ_discrete 1 1) 1 0 + 1) (send_object_quic at_40 object_2 1 publisher_1)
send_object_quic-Books_example =
    send_object_quic-Books 1 1 at_40 object_2 1 publisher_1 publisher_1-Books

timeout_check-Books_example : Books 1 1 (timeout_check at_100 publisher_1)
timeout_check-Books_example = timeout_check-Books 1 1 at_100 publisher_1 publisher_1-Books

publisher_1-CanSend : CanSend publisher_1
unfolding CanSend InBounds contents
publisher_1-CanSend = ground arith

flush_send_buffer-Halted_example : Halted at_40 (flush_send_buffer at_40 publisher_1)
flush_send_buffer-Halted_example = flush_send_buffer-Halted at_40 publisher_1 publisher_1-CanSend

publisher_2-IsEnded : IsEnded publisher_2
unfolding IsEnded
publisher_2-IsEnded = (refl, refl, refl, refl, refl)

abbrev events_1 : List (Moment × Event)
events_1 = (at_40, track_timer 1) ∷ (at_100, sweep_timer) ∷ (at_100, queue_drain) ∷ []

run-data_calls_example :
    IsEnded (run events_1 publisher_2)
    × (data_calls (run events_1 publisher_2).out ≡ data_calls publisher_2.out)
run-data_calls_example = run-data_calls events_1 publisher_2 publisher_2-IsEnded

terminate_subscriptions-IsEnded_example :
    IsEnded (terminate_subscriptions at_40 pubdone_too_far_behind publisher_1)
    × (lookup SubgroupKey-discrete subgroup_1
          (terminate_subscriptions at_40 pubdone_too_far_behind publisher_1).subgroup_streams
        ≡ none)
terminate_subscriptions-IsEnded_example =
    terminate_subscriptions-IsEnded at_40 pubdone_too_far_behind publisher_1 subgroup_1 refl refl

publisher_1-counted : publisher_1.send_buffer_count ≡ length (contents publisher_1.send_buffer)
unfolding contents
publisher_1-counted = refl

flush_send_buffer-TakenFrom_example :
    TakenFrom
      (contents publisher_1.send_buffer)
      publisher_1.send_buffer_count
      (flush_send_buffer at_40 publisher_1)
flush_send_buffer-TakenFrom_example =
    flush_send_buffer-TakenFrom at_40 publisher_1 publisher_1-counted

new_event : publisher_1.quic_write_event ≢ at_40.now
new_event e = ground (arith, e)

abbrev events_2 : List Event
events_2 = track_timer 1 ∷ queue_drain ∷ sweep_timer ∷ []

run-written_example :
    (written publisher_1.out
      ≤ written (run (map (λ (e : Event). (at_40, e)) events_2) publisher_1).out)
    × ((written (run (map (λ (e : Event). (at_40, e)) events_2) publisher_1).out
          ≡ written publisher_1.out)
        ⊎ (at_40.queue_len
              + (written (run (map (λ (e : Event). (at_40, e)) events_2) publisher_1).out
                  - written publisher_1.out)
            < publisher_1.quic_send_queue_limit + publisher_1.quic_chunk_bytes))
run-written_example = run-written at_40 events_2 publisher_1 new_event

abbrev buffer_1 : Buffer Pending
buffer_1 =
    (negsuc 1, [])
    ∷ (pos 1, pending_1 ∷ [])
    ∷ (pos 4, record pending_1 { priority = pos 4 } ∷ [])
    ∷ []

buffer_1-IsOrdered : IsOrdered buffer_1
unfolding IsOrdered IsKeyed
buffer_1-IsOrdered = ground arith

abbrev front_1 : Front Pending
front_1 = record {
  prio = pos 1;
  item = pending_1;
  later = [];
  rest = (pos 4, record pending_1 { priority = pos 4 } ∷ []) ∷ [];
}

buffer_1-front : front buffer_1 ≡ some front_1
unfolding front
buffer_1-front = refl

front-AtLeast_example : All (AtLeast (pos 1)) (contents buffer_1)
front-AtLeast_example = front-AtLeast buffer_1 front_1 buffer_1-front buffer_1-IsOrdered
