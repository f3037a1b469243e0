-- ===== src/Relay/State.antt =====
-- applications/moq/MoqRelayApp.h: what the relay keeps.
use moq_veins_simulation_the.Base.{ℕ, ℤ, Bool, List, ℕ_discrete}
use moq_veins_simulation_the.Reader.{Bytes}
use moq_veins_simulation_the.SendBuffer.{Buffer}
use moq_veins_simulation_the.Quic.{Protocol, Out}

-- models/TrackInfo.h: TrackKey.
pub record TrackKey : Type 0 where
  pub track_namespace : Bytes
  pub track_name : Bytes

unfoldable pub TrackKey-discrete : Discrete TrackKey
TrackKey-discrete = hlevel ℕ_discrete

-- models/TrackInfo.h: TrackMeta, as an announcement fills it.
pub record TrackMeta : Type 0 where
  pub publisher_id : ℤ
  pub track_id : ℤ
  pub track_namespace : Bytes
  pub track_name : Bytes
  pub track_alias : Bytes
  pub packet_size : ℤ
  pub send_interval : ℤ
  pub priority : ℤ
  pub delivery_timeout : ℤ
  pub next_object_id : ℤ

pub record DownSubgroup : Type 0 where
  pub subscriber_id : Bytes
  pub track_alias : Bytes
  pub group_id : ℤ
  pub subgroup_id : ℤ

unfoldable pub DownSubgroup-discrete : Discrete DownSubgroup
DownSubgroup-discrete = hlevel ℕ_discrete

-- An object that QUIC has whole. `sock` is a socket's id.
pub record OutstandingFwd : Type 0 where
  pub subgroup : DownSubgroup
  pub sock : ℕ
  pub stream_id : ℕ
  pub track_alias : Bytes
  pub created_at : ℤ
  pub timeout : ℤ

pub record FwdItem : Type 0 where
  pub sock : ℕ
  pub subgroup : DownSubgroup
  pub stream_id : ℕ
  pub bytes : Bytes
  pub payload_length : ℤ
  pub priority : ℤ
  pub track_alias : Bytes
  pub first_byte_time : ℤ
  pub created_at : ℤ
  pub timeout : ℤ
  pub sent_offset : ℕ
  pub subscriber_id : Bytes

pub record SockSendState : Type 0 where
  pub buffer : Buffer FwdItem
  pub count : ℕ
  pub blocked : Bool

-- The moment of an event. `queue_len` is what QUIC reports of a socket's send queue.
pub record RelayMoment : Type 0 where
  pub now : ℤ
  pub queue_len : ℕ → ℕ

-- A peer is a socket's id, or with UDP an address and a port. The maps of peers that the source has
-- for each transport are one, since a relay runs one transport. Maps of counters are functions that
-- read as 0 where there is no entry. `out` is the list of calls on the sockets, the latest first.
pub record Relay : Type 0 where
  pub proto : Protocol
  pub udp_fragment_size : ℕ
  pub published_tracks : List (TrackKey × TrackMeta)
  pub subscriber_by_track : List (TrackKey × List Bytes)
  pub publisher_peers : List (ℤ × ℕ)
  pub publisher_by_track_key : List (TrackKey × ℕ)
  pub subscriber_peers : List (Bytes × ℕ)
  pub downstream_streams : List (DownSubgroup × ℕ)
  pub reset_downstream : List (DownSubgroup × ℕ)
  pub downstream_resets : ℕ
  pub outstanding : List OutstandingFwd
  pub relay_reset_after_send : Bytes → ℕ
  pub objects_forwarded_total : ℕ
  pub forward_count : Bytes → ℕ
  pub recv_from_pub_by_track : Bytes → ℕ
  pub sock_send : List (ℕ × SockSendState)
  pub pending_forward_count : ℕ
  pub relay_dropped_total : ℕ
  pub relay_shed_stale : Bytes → ℕ
  pub relay_shed_overflow : Bytes → ℕ
  pub quic_forward_buffer_limit : ℕ
  pub next_data_stream_id : ℕ
  pub quic_send_queue_limit : ℕ
  pub quic_chunk_bytes : ℕ
  pub quic_write_event : ℤ
  pub quic_bytes_this_event : ℕ → ℕ
  pub publish_done_sent : ℕ
  pub out : List (ℕ × Out)
