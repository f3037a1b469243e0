-- ===== src/Broker/State.antt =====
-- applications/mqtt/MqttBrokerApp.h: what the broker keeps.
use moq_veins_simulation_the.Base.{ℕ, List, Option}
use moq_veins_simulation_the.Reader.{Bytes}
use moq_veins_simulation_the.Quic.{Protocol}

-- A call of `send` on the socket of a connection: over QUIC the stream is named.
pub record Sent : Type 0 where
  pub to : ℕ
  pub stream : Option ℕ
  pub bytes : Bytes

-- A socket is named by its id, so the map from ids to sockets is the set of the ids. `out` is the
-- list of calls that send, the latest first.
pub record Broker : Type 0 where
  pub proto : Protocol
  pub recv_bufs : List (ℕ × Bytes)
  pub subscribers_by_topic : List (Bytes × List ℕ)
  pub sockets : List ℕ
  pub qos : ℕ
  pub next_packet_id : ℕ
  pub connects_received : ℕ
  pub subscribes_received : ℕ
  pub publishes_received : ℕ
  pub forwarded : ℕ
  pub expired : ℕ
  pub expired_by_topic : Bytes → ℕ
  pub out : List Sent
