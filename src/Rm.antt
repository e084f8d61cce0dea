-- ===== src/Rm.antt =====
-- The routing manager of RM/: its negotiation of path identifiers and its packet handling.
mod Tests
pub mod Nid
pub mod ByteOrder
pub mod Packet
pub mod Send
pub mod Table
pub mod Negotiate
pub mod Select
pub mod Chain
pub mod Forward
pub mod Config
pub mod Loop
