-- ===== src/Publisher/State.antt =====
-- applications/moq/MoqPublisherApp.h: what the publisher keeps.
use moq_veins_simulation_the.Base.{ℕ, ℤ, Bool, List, Option, ℕ_discrete}
use moq_veins_simulation_the.Reader.{Bytes}
use moq_veins_simulation_the.SendBuffer.{Buffer}
use moq_veins_simulation_the.Quic.{Protocol, Out}

unfoldable pub ℤ-discrete : Discrete ℤ
ℤ-discrete = hlevel ℕ_discrete

pub record SubgroupKey : Type 0 where
  pub tid : ℕ
  pub group_id : ℤ
  pub subgroup_id : ℤ

unfoldable pub SubgroupKey-discrete : Discrete SubgroupKey
SubgroupKey-discrete = hlevel ℕ_discrete

-- The timer of a track: what it means when it fires, and when it is due.
pub data TimerKind : Type 0 where
  pub_announce sub_success : TimerKind

-- models/TrackInfo.h: TrackMeta, the fields that the publisher uses.
pub record TrackMeta : Type 0 where
  pub publisher_id : ℤ
  pub track_namespace : Bytes
  pub track_id : ℕ
  pub track_name : Bytes
  pub track_alias : Bytes
  pub packet_size : ℤ
  pub send_interval : ℤ
  pub priority : ℤ
  pub next_object_id : ℕ
  pub delivery_timeout : ℤ
  pub objects_per_group : ℤ
  pub timer_kind : TimerKind
  pub timer_due : Option ℤ

-- An object in the send buffer. `sent_offset` bytes of it are with QUIC already.
pub record Pending : Type 0 where
  pub tid : ℕ
  pub subgroup : SubgroupKey
  pub stream_id : ℕ
  pub priority : ℤ
  pub payload_length : ℤ
  pub bytes : Bytes
  pub created_at : ℤ
  pub timeout : ℤ
  pub sent_offset : ℕ

-- An object that QUIC has whole, and that may not be delivered yet.
pub record OutstandingObj : Type 0 where
  pub subgroup : SubgroupKey
  pub stream_id : ℕ
  pub tid : ℕ
  pub created_at : ℤ
  pub timeout : ℤ

pub record PubTrackStat : Type 0 where
  pub objects_offered : ℕ
  pub bytes_offered : ℤ
  pub objects_sent : ℕ
  pub bytes_sent : ℤ

-- Maps of counters are functions that read as 0 where there is no entry. `out` is the list of calls
-- on the sockets, the latest first.
pub record Publisher : Type 0 where
  pub proto : Protocol
  pub udp_fragment_size : ℕ
  pub tracks : List (ℕ × TrackMeta)
  pub subgroup_streams : List (SubgroupKey × ℕ)
  pub reset_subgroups : List (SubgroupKey × ℕ)
  pub next_stream_id : ℕ
  pub sending_allowed : Bool
  pub quic_blocked : Bool
  pub quic_queue_max_observed : ℕ
  pub quic_send_queue_limit : ℕ
  pub quic_chunk_bytes : ℕ
  pub quic_write_event : ℤ
  pub quic_bytes_this_event : ℕ
  pub send_buffer : Buffer Pending
  pub send_buffer_count : ℕ
  pub send_buffer_limit : ℕ
  pub quic_shed : ℕ
  pub subscriptions_ended : Bool
  pub termination_time : ℤ
  pub termination_status : ℤ
  pub quic_shed_stale : ℕ → ℕ
  pub quic_shed_overflow : ℕ → ℕ
  pub subgroup_resets : ℕ
  pub outstanding : List OutstandingObj
  pub reset_after_send : ℕ → ℕ
  pub pub_stats : ℕ → PubTrackStat
  pub out : List Out
