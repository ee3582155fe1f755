-- ===== src/Connection.antt =====
-- connection.rs and its modules closing.rs and cleanup.rs: the connection, which multiplexes streams
-- over one socket.
pub mod StreamMap
pub mod Active
pub mod Opening
pub mod Removal
pub mod Handlers
pub mod Branches
pub mod Inv
pub mod Steps
pub mod Reach
pub mod Isolation
pub mod Backlog
pub mod Delivery
pub mod Inbound
pub mod Departure
pub mod Wires
pub mod Closing
pub mod Cleanup
pub mod Poll
pub mod Machine
