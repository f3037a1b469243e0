-- ===== src/MqttClient.antt =====
-- applications/mqtt/MqttPublisherApp.{h,cc} and applications/mqtt/MqttSubscriberApp.{h,cc}
pub mod Publishing
pub mod Queue
pub mod Burst
pub mod Receiving
pub mod Delivery
