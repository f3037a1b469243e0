-- ===== src/Publisher/Streams.antt =====
-- The data streams of the publisher: what is written on a stream is written before it is reset.
pub mod Core
pub mod Sweeps
pub mod Teardown
pub mod Flush
pub mod Open
pub mod Objects
pub mod Run
