-- ===== src/Tests.antt =====
-- Concrete inputs, and the properties at them.
mod Framing
mod Mqtt
mod Publisher
mod Relay
mod Streams
mod Broker
mod Subscriber
mod Client
mod RelayRun
