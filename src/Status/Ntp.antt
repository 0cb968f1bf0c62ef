-- ===== src/Status/Ntp.antt =====
-- The NTP peers and the synchronised time.
use brewster.Common.{
  ℕ, suc, ◌+◌, ◌-◌, ◌*◌, ◌/◌, ◌%◌, Bool, true, false, not, ◌&&◌, Option, none, some, List, [], ◌∷◌,
  ltb, leb, ◌==◌, if◌then◌else◌, ◌>>=◌, is_some, set, get_or, bytes_eq,
}
use brewster.Common.Int.{ℤ, pos, pos_part, neg_part}
use brewster.Common.Words.{wrapping_add32, saturating_add32, saturating_mul32}
use brewster.Shared.Selection.{NtpSelectionSample}
use brewster.Status.{Status, NtpPeerState, NtpSource, dhcp_gateway, source_code}

abbrev pub source_eq : NtpSource → NtpSource → Bool
source_eq a b = source_code a == source_code b

-- `peer.source == source && peer.address == address`
abbrev pub is_peer : NtpSource → List ℕ → NtpPeerState → Bool
is_peer source address peer = source_eq peer.source source && bytes_eq peer.address address

-- `NtpPeerState::new`
abbrev pub new_peer : NtpSource → List ℕ → NtpPeerState
new_peer source address = record {
  address = address;
  has_sample = false;
  stratum = 0;
  latency_us = 0;
  last_latency_us = 0;
  jitter_us = 0;
  has_offset = false;
  offset_us = pos 0;
  last_offset_us = pos 0;
  offset_jitter_us = 0;
  success_count = 0;
  fail_count = 0;
  last_sync_uptime_s = 0;
  source = source;
}

-- The slots that a test on the peer picks are emptied.
unfoldable pub clear_slots :
    (NtpPeerState → Bool) → List (Option NtpPeerState) → List (Option NtpPeerState)
clear_slots p [] = []
clear_slots p (none ∷ slots) = none ∷ clear_slots p slots
clear_slots p (some peer ∷ slots) = (if p peer then none else some peer) ∷ clear_slots p slots

unfoldable pub clear_ntp_peers_by_source : NtpSource → Status → Status
clear_ntp_peers_by_source source s = record s {
  ntp_peers = clear_slots (λ peer. source_eq peer.source source) s.ntp_peers;
}

-- The search of `update_ntp_peer`: the index of the peer, and of the first empty slot before it.
unfoldable pub find_slot :
    NtpSource → List ℕ → ℕ → Option ℕ → List (Option NtpPeerState) → Option ℕ × Option ℕ
find_slot source address index empty_index [] = (none, empty_index)
find_slot source address index empty_index (none ∷ slots) =
    find_slot source address (suc index) (if is_some empty_index then empty_index else some index)
      slots
find_slot source address index empty_index (some peer ∷ slots) =
    let rest = find_slot source address (suc index) empty_index slots in
    if is_peer source address peer then (some index, empty_index) else rest

-- `target_index.or(empty_index)`
abbrev pub or_else : Option ℕ × Option ℕ → Option ℕ
or_else (some i, e) = some i
or_else (none, e) = e

-- `get_or_insert`, and the reset of a slot that holds another peer.
abbrev pub peer_in : NtpSource → List ℕ → Option NtpPeerState → NtpPeerState
peer_in source address none = new_peer source address
peer_in source address (some peer) =
    if is_peer source address peer then peer else new_peer source address

-- The slots after `update_ntp_peer`.
unfoldable pub update_slots :
    NtpSource
    → List ℕ
    → (NtpPeerState → NtpPeerState)
    → List (Option NtpPeerState)
    → List (Option NtpPeerState)
update_slots source address update slots = elim (or_else (find_slot source address 0 none slots)) [
  | none ↦ slots
  | some index ↦ set slots index (some (update (peer_in source address (get_or slots index none))))
]

unfoldable pub update_ntp_peer :
    NtpSource → List ℕ → (NtpPeerState → NtpPeerState) → Status → Status
update_ntp_peer source address update s = record s {
  ntp_peers = update_slots source address update s.ntp_peers;
}

unfoldable pub update_dhcp_ntp_server : List ℕ → Status → Status
update_dhcp_ntp_server server s =
    update_ntp_peer dhcp_gateway server (λ peer. peer)
      (record s {
        ntp_peers =
            clear_slots
              (λ peer. source_eq peer.source dhcp_gateway && not (bytes_eq peer.address server))
              s.ntp_peers;
      })

-- `u32::abs_diff` and `i32::abs_diff`
abbrev pub abs_diff : ℕ → ℕ → ℕ
abs_diff a b = if leb a b then b - a else a - b

abbrev pub abs_diff_ℤ : ℤ → ℤ → ℕ
abs_diff_ℤ a b = abs_diff (pos_part a + neg_part b) (pos_part b + neg_part a)

-- `(jitter * 7 + delta) / 8`, saturating
unfoldable pub smooth : ℕ → ℕ → ℕ
smooth jitter delta = saturating_add32 (saturating_mul32 jitter 7) delta / 8

-- The closure of `update_ntp_peer_stats`.
unfoldable pub peer_stats : ℕ → ℕ → ℕ → Option ℤ → NtpPeerState → NtpPeerState
peer_stats uptime_s stratum latency_us offset_us peer =
    let timed = record peer {
      stratum = stratum;
      latency_us = latency_us;
      jitter_us =
          if peer.has_sample
          then smooth peer.jitter_us (abs_diff latency_us peer.last_latency_us)
          else 0;
      has_sample = true;
      last_latency_us = latency_us;
      success_count = saturating_add32 peer.success_count 1;
      last_sync_uptime_s = uptime_s;
    } in
    elim offset_us [
      | none ↦ timed
      | some offset ↦ record timed {
        offset_jitter_us =
            if peer.has_offset
            then smooth peer.offset_jitter_us (abs_diff_ℤ offset peer.last_offset_us)
            else 0;
        has_offset = true;
        offset_us = offset;
        last_offset_us = offset;
      }
    ]

unfoldable pub update_ntp_peer_stats : ℕ → NtpSource → List ℕ → ℕ → ℕ → Option ℤ → Status → Status
update_ntp_peer_stats uptime_s source server stratum latency_us offset_us =
    update_ntp_peer source server (peer_stats uptime_s stratum latency_us offset_us)

unfoldable pub mark_ntp_peer_query_failed : NtpSource → List ℕ → Status → Status
mark_ntp_peer_query_failed source server =
    update_ntp_peer source server
      (λ peer. record peer { fail_count = saturating_add32 peer.fail_count 1 })

unfoldable pub micros_to_ms_rounded : ℕ → ℕ
micros_to_ms_rounded us = saturating_add32 us 500 / 1000

unfoldable pub micros_to_ms_ceil_nonzero : ℕ → ℕ
micros_to_ms_ceil_nonzero us = if us == 0 then 0 else saturating_add32 us 999 / 1000

-- `peers.iter().flatten().find(…)`
unfoldable pub find_peer : (NtpPeerState → Bool) → List (Option NtpPeerState) → Option NtpPeerState
find_peer p [] = none
find_peer p (none ∷ slots) = find_peer p slots
find_peer p (some peer ∷ slots) = if p peer then some peer else find_peer p slots

unfoldable pub ntp_selection_sample : NtpSource → List ℕ → Status → Option NtpSelectionSample
ntp_selection_sample source server s =
    find_peer (λ peer. is_peer source server peer && peer.has_sample) s.ntp_peers >>= λ peer.
    some (record {
      stratum = peer.stratum;
      latency_ms = micros_to_ms_rounded peer.latency_us;
      jitter_ms =
          if peer.has_offset
          then micros_to_ms_ceil_nonzero peer.offset_jitter_us
          else micros_to_ms_ceil_nonzero peer.jitter_us;
    })

-- `u64` arithmetic: it wraps at 2 ^ 64, and `saturating_*` stops there.
abbrev pub u64_mod : ℕ
u64_mod = 18446744073709551616

abbrev pub saturate64 : ℕ → ℕ
saturate64 n = if ltb n u64_mod then n else u64_mod - 1

unfoldable pub update_ntp_time : ℕ → ℕ → ℕ → ℕ → List ℕ → NtpSource → Status → Status
update_ntp_time unix_ts ntp_frac_us recv_ticks latency_us server source s = record s {
  ntp_sync_anchor = (recv_ticks, (unix_ts * 1000000 + ntp_frac_us + latency_us / 2) % u64_mod);
  ntp_synced = true;
  ntp_sync_count = wrapping_add32 s.ntp_sync_count 1;
  ntp_server_ip =
      16777216 * get_or server 0 0
      + 65536 * get_or server 1 0
      + 256 * get_or server 2 0
      + get_or server 3 0;
  ntp_server_source = source_code source;
}

-- `tick_hz` is the rate of the clock, `now_ticks` its reading.
unfoldable pub unix_time_micros_from_ntp_anchor : ℕ → ℕ → Status → Option ℕ
unix_time_micros_from_ntp_anchor tick_hz now_ticks s =
    let (recv_ticks, t4_unix_micros) = s.ntp_sync_anchor in
    let elapsed_us = saturate64 ((now_ticks - recv_ticks) * 1000000) / tick_hz in
    if s.ntp_synced then some (saturate64 (t4_unix_micros + elapsed_us)) else none

unfoldable pub current_unix_time_millis : ℕ → ℕ → Status → Option ℕ
current_unix_time_millis tick_hz now_ticks s =
    unix_time_micros_from_ntp_anchor tick_hz now_ticks s >>= λ us. some (us / 1000)

unfoldable pub current_unix_time : ℕ → ℕ → Status → Option ℕ
current_unix_time tick_hz now_ticks s =
    current_unix_time_millis tick_hz now_ticks s >>= λ ms. some (ms / 1000 % 4294967296)
