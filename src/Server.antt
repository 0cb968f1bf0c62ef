-- ===== src/Server.antt =====
-- server/src: the server that receives the telemetry.
pub mod Packet
pub mod Discovery
pub mod Announce
pub mod Store
pub mod Tests
pub mod Receive
