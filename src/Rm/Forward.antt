-- ===== src/Rm/Forward.antt =====
-- The forwarding of data packets in RM/main.c and RM/wenxingbeng.c.
pub mod Burst
pub mod Traffic
pub mod Get
pub mod Route
