-- ===== src/Relay.antt =====
-- applications/moq/MoqRelayApp.{h,cc}
pub mod State
pub mod Send
pub mod Control
pub mod Forward
pub mod Loop
pub mod Count
pub mod Step
pub mod Subscribe
pub mod Receive
pub mod Close
pub mod Release
pub mod Run
pub mod Serial
pub mod Gone
pub mod Frames
