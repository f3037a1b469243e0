-- ===== src/Broker.antt =====
-- applications/mqtt/MqttBrokerApp.{h,cc}: the MQTT broker.
pub mod Sets
pub mod State
pub mod Handlers
pub mod Refine
pub mod Fanout
pub mod Invariant
