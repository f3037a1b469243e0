-- ===== src/Subscriber/State.antt =====
-- applications/moq/MoqSubscriberApp.h: what the MoQ subscriber keeps.
use moq_veins_simulation_the.Base.{ℕ, ℤ, Bool, List, Option, ℕ_discrete}
use moq_veins_simulation_the.Reader.{Bytes}
use moq_veins_simulation_the.Quic.{Protocol, Out}
use moq_veins_simulation_the.MoqFraming.Reassembly.{Reassembler}
use moq_veins_simulation_the.Subscriber.Stats.{MoqTrackStat}

-- What a UDP object is reassembled under.
pub record ObjectKey : Type 0 where
  pub track_alias : Bytes
  pub object_id : ℤ

unfoldable pub ObjectKey-discrete : Discrete ObjectKey
ObjectKey-discrete = hlevel ℕ_discrete

pub record StreamReassembler : Type 0 where
  pub content : Bytes
  pub frame_start_time : ℤ

-- models/TrackInfo.h: TrackMeta, the fields that the subscriber uses.
pub record SubscribedTrack : Type 0 where
  pub track_namespace : Bytes
  pub track_name : Bytes
  pub track_alias : Bytes
  pub priority : ℤ
  pub timer_due : Option ℤ

-- A call on the socket: the stream is read, or a control frame is sent.
pub data SubCall : Type 0 where
  recv : ℕ → SubCall
  sent : Out → SubCall

-- `recv_in_flight` is the stream of the outstanding recv, and `recv_pending` the set of the streams
-- that have data, in ascending order. `out` is the list of calls, the latest first.
pub record Subscriber : Type 0 where
  pub proto : Protocol
  pub udp_fragment_size : ℕ
  pub tracks : List (ℕ × SubscribedTrack)
  pub sending_allowed : Bool
  pub recv_pending : List ℕ
  pub recv_in_flight : Option ℕ
  pub stream_buffers : List (ℕ × StreamReassembler)
  pub tcp_recv_buf : Bytes
  pub tcp_frame_start : ℤ
  pub udp_reasm : List (ObjectKey × Reassembler)
  pub sub_stats : List (Bytes × MoqTrackStat)
  pub receive_count : ℕ
  pub objects_reset_by_peer : ℕ
  pub subscription_end_time : ℤ
  pub subscription_end_status : ℤ
  pub out : List SubCall
