-- ===== src/Subscriber.antt =====
-- applications/moq/MoqSubscriberApp.{h,cc} and models/SubscriberStats.h
pub mod Stats
pub mod Bounds
pub mod State
pub mod Receive
pub mod Subscribe
pub mod Serial
pub mod Arrivals
