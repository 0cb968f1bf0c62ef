-- ===== src/Shared.antt =====
-- src/firmware/shared.rs: text and time helpers that the firmware's parts share. A text is the
-- list of its bytes.
-- The children: `Text` the standard library's splitting and number parsing, `Ipv4` addresses,
-- `Hostname`, `Crc` and `Calendar` one function each.
pub mod Bytes
pub mod Utf8
pub mod Text
pub mod Ipv4
pub mod Hostname
pub mod Crc
pub mod Calendar
pub mod Selection
