-- ===== src/Subscriber/Stats.antt =====
-- The statistics of a track at a receiver: models/SubscriberStats.h, which the MQTT subscriber uses,
-- and those that the MoQ subscriber keeps itself. Durations, which the code turns into seconds as
-- doubles, are exact: the raw integers of simtime_t.
use moq_veins_simulation_the.Base.{
  ℕ, ◌+◌, ◌≡◌, refl, ℤ, pos, negsuc, ◌+ℤ◌, ◌-ℤ◌, ltb_ℤ, Bool, ◌&&◌, ◌||◌, if◌then◌else◌,
}
use moq_veins_simulation_the.MoqFraming.Object.{ObjectFrame}

-- models/SubscriberStats.h
pub record SubTrackStat : Type 0 where
  pub received : ℕ
  pub bytes : ℤ
  pub highest_seq : ℤ
  pub lowest_seq : ℤ
  pub first_recv : ℤ
  pub last_recv : ℤ
  pub last_latency : ℤ
  pub deadline_misses : ℕ
  pub deadline : ℤ
  pub latency_sum : ℤ
  pub latency_max : ℤ
  pub jitter_sum : ℤ
  pub jitter_count : ℕ

abbrev pub no_samples : SubTrackStat
no_samples = record {
  received = 0;
  bytes = pos 0;
  highest_seq = negsuc 0;
  lowest_seq = negsuc 0;
  first_recv = negsuc 0;
  last_recv = negsuc 0;
  last_latency = negsuc 0;
  deadline_misses = 0;
  deadline = pos 0;
  latency_sum = pos 0;
  latency_max = pos 0;
  jitter_sum = pos 0;
  jitter_count = 0;
}

-- `std::fabs(a - b)`
unfoldable pub distance : ℤ → ℤ → ℤ
distance a b = if ltb_ℤ a b then b -ℤ a else a -ℤ b

abbrev pub is_negative : ℤ → Bool
is_negative z = ltb_ℤ z (pos 0)

-- missedDeadline
unfoldable pub missed_deadline : ℤ → ℤ → Bool
missed_deadline deadline latency = ltb_ℤ (pos 0) deadline && ltb_ℤ deadline latency

-- SubTrackStat::add, and the jitter that it returns: -1 for the first sample.
unfoldable pub jitter_of : ℤ → SubTrackStat → ℤ
unfolding distance
jitter_of latency st =
    if is_negative st.last_latency then negsuc 0 else distance latency st.last_latency

unfoldable pub add_sample : ℤ → ℤ → ℤ → ℤ → SubTrackStat → SubTrackStat
unfolding distance missed_deadline
add_sample sequence payload_bytes latency now st = record st {
  received = st.received + 1;
  bytes = st.bytes +ℤ payload_bytes;
  latency_sum = st.latency_sum +ℤ latency;
  latency_max = if ltb_ℤ st.latency_max latency then latency else st.latency_max;
  jitter_sum =
      if is_negative st.last_latency
      then st.jitter_sum
      else st.jitter_sum +ℤ distance latency st.last_latency;
  jitter_count = if is_negative st.last_latency then st.jitter_count else st.jitter_count + 1;
  last_latency = latency;
  deadline_misses =
      if missed_deadline st.deadline latency then st.deadline_misses + 1 else st.deadline_misses;
  lowest_seq =
      if is_negative st.lowest_seq || ltb_ℤ sequence st.lowest_seq then sequence else st.lowest_seq;
  highest_seq = if ltb_ℤ st.highest_seq sequence then sequence else st.highest_seq;
  first_recv = if is_negative st.first_recv then now else st.first_recv;
  last_recv = now;
}

-- MoqSubscriberApp::SubTrackStat
pub record MoqTrackStat : Type 0 where
  pub received : ℕ
  pub bytes : ℤ
  pub highest_obj_id : ℤ
  pub lowest_obj_id : ℤ
  pub first_recv : ℤ
  pub last_recv : ℤ
  pub last_latency : ℤ
  pub deadline_misses : ℕ
  pub deadline : ℤ
  pub latency_sum : ℤ
  pub latency_max : ℤ
  pub completion_sum : ℤ
  pub completion_max : ℤ
  pub jitter_sum : ℤ
  pub jitter_count : ℕ

abbrev pub no_objects : MoqTrackStat
no_objects = record {
  received = 0;
  bytes = pos 0;
  highest_obj_id = negsuc 0;
  lowest_obj_id = negsuc 0;
  first_recv = negsuc 0;
  last_recv = negsuc 0;
  last_latency = negsuc 0;
  deadline_misses = 0;
  deadline = pos 0;
  latency_sum = pos 0;
  latency_max = pos 0;
  completion_sum = pos 0;
  completion_max = pos 0;
  jitter_sum = pos 0;
  jitter_count = 0;
}

-- What recordObject does to the statistics of the object's track.
unfoldable pub add_object : ObjectFrame → ℤ → ℤ → MoqTrackStat → MoqTrackStat
unfolding distance
add_object f frame_start_time now ts =
    let latency = now -ℤ f.creation_time in
    let completion = now -ℤ frame_start_time in
    record ts {
      latency_sum = ts.latency_sum +ℤ latency;
      latency_max = if ltb_ℤ ts.latency_max latency then latency else ts.latency_max;
      completion_sum = ts.completion_sum +ℤ completion;
      completion_max = if ltb_ℤ ts.completion_max completion then completion else ts.completion_max;
      jitter_sum =
          if is_negative ts.last_latency
          then ts.jitter_sum
          else ts.jitter_sum +ℤ distance latency ts.last_latency;
      jitter_count = if is_negative ts.last_latency then ts.jitter_count else ts.jitter_count + 1;
      last_latency = latency;
      deadline_misses =
          if ltb_ℤ (pos 0) ts.deadline && ltb_ℤ ts.deadline latency
          then ts.deadline_misses + 1
          else ts.deadline_misses;
      received = ts.received + 1;
      bytes = ts.bytes +ℤ f.payload_length;
      highest_obj_id =
          if ltb_ℤ ts.highest_obj_id f.object_id then f.object_id else ts.highest_obj_id;
      lowest_obj_id =
          if is_negative ts.lowest_obj_id || ltb_ℤ f.object_id ts.lowest_obj_id
          then f.object_id
          else ts.lowest_obj_id;
      first_recv = if is_negative ts.first_recv then now else ts.first_recv;
      last_recv = now;
    }

-- The statistics that the two subscribers have in common.
unfoldable pub shared_stat : MoqTrackStat → SubTrackStat
shared_stat ts = record {
  received = ts.received;
  bytes = ts.bytes;
  highest_seq = ts.highest_obj_id;
  lowest_seq = ts.lowest_obj_id;
  first_recv = ts.first_recv;
  last_recv = ts.last_recv;
  last_latency = ts.last_latency;
  deadline_misses = ts.deadline_misses;
  deadline = ts.deadline;
  latency_sum = ts.latency_sum;
  latency_max = ts.latency_max;
  jitter_sum = ts.jitter_sum;
  jitter_count = ts.jitter_count;
}

-- What the MoQ subscriber records of an object is, in all that the two subscribers have in
-- common, what the shared statistics record of a message with the id of the object as its
-- sequence number, the payload of the object and its latency.
pub shared_stat-add_object :
    (f : ObjectFrame) (frame_start_time now : ℤ) (ts : MoqTrackStat)
    → shared_stat (add_object f frame_start_time now ts)
      ≡ add_sample f.object_id f.payload_length (now -ℤ f.creation_time) now (shared_stat ts)
unfolding shared_stat add_object add_sample missed_deadline
shared_stat-add_object f frame_start_time now ts = refl
