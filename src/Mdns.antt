-- ===== src/Mdns.antt =====
-- src/firmware/network/mdns.rs: what the device answers and announces on the local network, and
-- how it finds the server there.
pub mod Service
pub mod Answer
pub mod Announcement
pub mod Tests
