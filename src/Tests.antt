-- ===== src/Tests.antt =====
-- Concrete runs of the theorems, by the part of the program.
pub mod Frames
pub mod Connections
pub mod Machines
mod Sending
pub mod Streams
pub mod Sessions
mod Backlogs
mod Tasks
mod Dialling
mod Wakers
