-- ===== src/MqttFraming.antt =====
-- models/MqttFraming.h
pub mod Words
pub mod Packet
pub mod Messages
pub mod Subscribe
