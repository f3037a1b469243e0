-- ===== src/Publisher.antt =====
-- applications/moq/MoqPublisherApp.{h,cc}
pub mod State
pub mod Send
pub mod Teardown
pub mod Events
pub mod Loop
pub mod Count
pub mod Fate
pub mod Ended
pub mod Pacing
pub mod Order
pub mod Streams
pub mod Quiet
pub mod Bursts
pub mod Taken
