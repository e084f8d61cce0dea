-- ===== src/Monitor.antt =====
-- The monitoring daemon, NetworkMonitoringTools/stats_send_ver_test1: its timers, its lists of devices
-- and of peers, and the measurement of round trips.
mod Tests
pub mod Timer
pub mod Devices
pub mod Rtt
pub mod Requests
pub mod Traps
pub mod Capture
pub mod Query
pub mod Adapter
pub mod Processes
pub mod Sender
pub mod Inform
pub mod Listen
