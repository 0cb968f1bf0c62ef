-- ===== src/Telemetry/Expiry.antt =====
-- The server's address: found by its beacon, and given up when the beacons stop.
use brewster.Common.{ℕ, ◌≤◌, ◌<◌, ◌≡◌, ◌⊎◌, none, some, [], ◌∷◌, arith, ◌>>=◌}
use brewster.Common.Words.{IsByte, IsU16, wrapping_sub32, from_le16-le_bytes16}
use brewster.Common.Float.{Float}
use brewster.Config.{Config, non_empty, filtered}
use brewster.Shared.Ipv4.{parse_ipv4_octets}
use brewster.Status.Net.Validity.{ip_of-be_bytes32}
use brewster.Status.Net.{ip_of}
use brewster.Server.Discovery.{build_beacon}
use brewster.Telemetry.{
  Telemetry, receive_beacon, discovered_addr, server_addr, set_discovered_server, uptime,
}

-- What the beacon of a server leaves in the firmware.
receive_beacon-build_beacon :
    (tick_hz now_ticks a b c d port http : ℕ) (t : Telemetry)
    → IsU16 port
    → 0 < port
    → 0 < ip_of (a ∷ b ∷ c ∷ d ∷ [])
    → receive_beacon tick_hz now_ticks (some (build_beacon (a ∷ b ∷ c ∷ d ∷ []) port http)) t
      ≡ set_discovered_server tick_hz now_ticks (a ∷ b ∷ c ∷ d ∷ []) port t
unfolding receive_beacon build_beacon
receive_beacon-build_beacon tick_hz now_ticks a b c d port http t hp p0 ip0 =
    rw (from_le16-le_bytes16 port hp) (ground arith)

-- With no server configured, a beacon from a server at an address other than 0.0.0.0 and a port
-- other than 0 makes that server the one that telemetry goes to, as long as at most 30 seconds of
-- uptime have passed since; after that, telemetry goes nowhere.
pub server_addr-beacon :
    {f : Float} (config : Config f) (tick_hz heard_ticks now_ticks a b c d port http : ℕ)
    (t : Telemetry)
    → (filtered non_empty config.udp_server_ip_config >>= parse_ipv4_octets) ≡ none
    → IsByte a
    → IsByte b
    → IsByte c
    → IsByte d
    → 0 < ip_of (a ∷ b ∷ c ∷ d ∷ [])
    → IsU16 port
    → 0 < port
    → let heard =
        receive_beacon tick_hz heard_ticks (some (build_beacon (a ∷ b ∷ c ∷ d ∷ []) port http)) t in
      let silent = wrapping_sub32 (uptime tick_hz now_ticks) (uptime tick_hz heard_ticks) in
      ((silent ≤ 30)
        × (server_addr config tick_hz now_ticks heard ≡ some (a ∷ b ∷ c ∷ d ∷ [], port)))
      ⊎ ((30 < silent) × (server_addr config tick_hz now_ticks heard ≡ none))
unfolding server_addr discovered_addr set_discovered_server
server_addr-beacon config tick_hz heard_ticks now_ticks a b c d port http t static ha hb hc hd ip0
      hp p0 =
    rw (receive_beacon-build_beacon tick_hz heard_ticks a b c d port http t hp p0 ip0)
      (ground (arith, static, ip_of-be_bytes32 a b c d ha hb hc hd))
