-- ===== src/Status/Net.antt =====
-- The address: `update_ip_from_cidr` and the link's states.
pub mod Validity
use brewster.Common.{
  ℕ, zero, suc, ◌+◌, ◌-◌, ◌*◌, ◌/◌, ◌%◌, ◌^◌, ◌≤◌, ◌<◌, min, ◌≡◌, refl, sym, ap, ◌∙◌, ◌≢◌, ◌⊎◌, inl,
  inr, Bool, true, false, not, ◌&&◌, ◌||◌, Option, none, some, List, [], ◌∷◌, ◌++◌, map, append-nil,
  append_assoc, arith, ltb, leb, ◌==◌, if◌then◌else◌, ltb→lt, lt→ltb, leb→le, ==_iff, Bool-cases,
  Option-cases, ◌>>=◌, is_some, length, get_elem?, set, get_or, take, drop, replicate, slice,
  copy_at, All, bytes_eq, bytes_eq_refl, bytes_eq→eq, length-append, length-set, length-take,
  length-drop, length-replicate, length-map,
}
use brewster.Common.Int.{
  ℤ, pos, negsuc, pos_part, neg_part, ◌+ℤ◌, ◌-ℤ◌, ◌≤ℤ◌, ltb_ℤ, clamp_ℤ, ◌==ℤ◌,
}
use brewster.Common.Words.{
  IsByte, IsU16, IsU32, u32_max, wrapping_add32, wrapping_sub32, saturating_add32, saturating_mul32,
  le_bytes16, from_le16, le_bytes32, from_le32, be_bytes16, from_be16, be_bytes32, bits8, signed8,
  bits16, signed16, bits32, signed32, i16_min, i16_max, i32_min, i32_max, from_le16-le_bytes16,
  from_le32-le_bytes32, signed16-bits16, signed32-bits32, signed8-bits8, bits8-signed8,
  bits16-IsU16, bits32-IsU32,
}
use brewster.Common.Bits.{holds_below, holds_below_lem}
use brewster.Common.Float.{
  Float, of_centi, half, clamp_f, as_i8, as_i16, as_i32, as_u8, as_u16, as_u32,
}
use Prim.Native.Nat.{bit_and, bit_or, bit_xor, max}
use brewster.Shared.Text.{split, parse_u8}
use brewster.Status.{Status, NtpSource, unknown, config, dhcp_gateway}
use brewster.Status.Ntp.{clear_ntp_peers_by_source}

-- `NetState as u8`: 0 unknown, 1 link down, 2 DHCP pending, 3 has an address.
abbrev pub link_down : ℕ
link_down = 1

abbrev pub dhcp_pending : ℕ
dhcp_pending = 2

abbrev pub has_ip : ℕ
has_ip = 3

-- `u32::from_be_bytes` of four octets.
abbrev pub ip_of : List ℕ → ℕ
ip_of o = 16777216 * get_or o 0 0 + 65536 * get_or o 1 0 + 256 * get_or o 2 0 + get_or o 3 0

unfoldable pub mark_ip_invalid : ℕ → Status → Status
mark_ip_invalid state s = record s { last_ip_valid = false; last_net_state = state }

-- The loop over the parts of the address.
pub cidr_loop : List ℕ → List (List ℕ) → Status → Status
cidr_loop octets [] s =
    if length octets == 4
    then record s { last_ip = ip_of octets; last_ip_valid = true; last_net_state = has_ip }
    else mark_ip_invalid dhcp_pending s
cidr_loop octets (part ∷ parts) s =
    if leb 4 (length octets) then mark_ip_invalid dhcp_pending s else elim (parse_u8 part) [
      | none ↦ mark_ip_invalid dhcp_pending s
      | some value ↦ cidr_loop (octets ++ (value ∷ [])) parts s
    ]

-- The first part of a split, which is never empty.
abbrev pub first_part : List (List ℕ) → List ℕ
first_part [] = []
first_part (p ∷ parts) = p

pub update_ip_from_cidr : List ℕ → Status → Status
update_ip_from_cidr ip_or_cidr s = cidr_loop [] (split b'.' (first_part (split b'/' ip_or_cidr))) s

unfoldable pub mark_net_link_down : Status → Status
mark_net_link_down s = clear_ntp_peers_by_source dhcp_gateway (mark_ip_invalid link_down s)

unfoldable pub mark_net_dhcp_pending : Status → Status
mark_net_dhcp_pending s = clear_ntp_peers_by_source dhcp_gateway (mark_ip_invalid dhcp_pending s)

unfoldable pub clear_ip : Status → Status
clear_ip s = mark_net_link_down s

pub ip_octets : Status → Option (List ℕ)
ip_octets s = if s.last_ip_valid then some (be_bytes32 s.last_ip) else none
