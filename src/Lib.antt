-- ===== src/Lib.antt =====
-- Brewster is a fermentation controller: firmware for a microcontroller (src/firmware) and a
-- server for the local network (server/src). The firmware reads temperature probes, drives a
-- cooling and a heating relay by two PID controllers, keeps its settings and a history of samples
-- in flash, and sends a telemetry packet a second to the server, which it finds by the server's
-- beacon.
--
-- The parts, and where they stand:
-- - Storage: src/firmware/storage.rs. The statics are the record `Storage`; each function is a
--   function of the same name from the state to the new state, in the child named for its task.
--   The flash device with its partition table is the interface `Flash`; what the code relies on
--   is `FlashLaws`: a successful write is read back, an erase leaves 0xFF, and neither touches
--   other bytes. `Storage/Device` is a device in memory that satisfies them.
-- - Shared: src/firmware/shared.rs, the helpers on addresses, host names, sums and dates.
-- - Status: src/firmware/status.rs. The atomics and cells are the record `Status`; the clock is an
--   argument of the operations that read it.
-- - Config: src/firmware/config.rs, over the texts that the build takes from the environment.
-- - Sensor: src/firmware/sensor.rs: serial numbers, and readings with retries over the interface
--   `OneWire`. `Bus` has the signals at a pin, the interface `Pins`, and the commands over bits,
--   the interface `BitBus`; `Search` is `ds18b20_scan_roms`. What it relies on is `SearchLaws`: the
--   devices that are still in a search pull the wire low together, and the others leave it.
--   `Search/Line` is such a bus for any list of devices.
-- - Http: src/firmware/network/http.rs: how requests are read, and in `Serve` what they do and what
--   is answered. The parser of `f32` is an argument, since floats are an interface; the feature
--   `prometheus` of the build is a Boolean.
-- - Controller: src/firmware/controller.rs, `control_step`. The PID library is the interface `Pid`.
-- - Telemetry: src/firmware/network/udp.rs: discovery, expiry, packets; a round of a task is a
--   function of what the socket answers.
-- - Server: server/src/packet.rs, and server/src/discovery.rs with its beacon (`Discovery`) and its
--   mDNS announcement (`Announce`); server/src/store.rs (`Store`), the history in RAM, with the
--   clock as an argument; and server/src/udp.rs (`Receive`), what is done with a packet, with the
--   file of server/src/persist.rs as the list of its records.
-- - Ntp: src/firmware/network/ntp.rs: the poll interval, and the match of responses with queries.
-- - Dns: what both sides of mDNS share, a buffer with an index and the bytes of a name.
-- - Mdns: src/firmware/network/mdns.rs: `Service` looks for the server in a packet, `Answer` reads
--   queries and answers them, `Announcement` announces the device.
-- - Common: numbers, lists, machine words and the interface `Float` for `f32` and `f64`, whose
--   arithmetic is the hardware's; `Common/Fixed` is an instance with two decimals for the examples.
-- - Tests, and the Tests of Storage, Mdns, Ntp and Server: the theorems at concrete inputs, and runs.
--
-- Interaction: `Controller` reads the target from `Storage`, hands readings and samples to
-- `Status`, which stores them through `Storage`; `Telemetry` reads the snapshot of `Status`, and
-- `Server` decodes what it sends.
--
-- Fuel: the erase loop of `Clear` runs on one round more than the ring has records, which is more
-- than it has sectors: enough where the history ends, with a sector behind it, below 2^32. The walk
-- over a DNS name in `Mdns/Answer` runs on 17 (n + 1) passes for a packet of n bytes, which
-- `Mdns/Answer/Termination` shows to be enough. All other loops are structural.
--
-- Machine integers are natural numbers with the wrap-around and saturation of the source written
-- out; texts are lists of bytes, and a probe name a list of characters.
--
-- Not modelled: the loop of the mDNS task, the sockets of HTTP and the texts that it answers with
-- from the metrics, the rest of the NTP task, the text of the metrics, the server's downsampling
-- and its HTTP pages, the JSON of its file, start-up, the build script and the dashboard.
pub mod Common
pub mod Shared
pub mod Storage
pub mod Status
pub mod Config
pub mod Sensor
pub mod Controller
pub mod Telemetry
pub mod Dns
pub mod Server
pub mod Http
pub mod Mdns
pub mod Ntp
pub mod Tests
