-- ===== src/Stream.antt =====
-- connection/stream.rs: one multiplexed stream.
pub mod State
pub mod Lifecycle
pub mod Shared
pub mod Handle
pub mod Reader
pub mod Copying
pub mod Reading
pub mod Writing
pub mod Credit
pub mod Acks
pub mod Wakers
