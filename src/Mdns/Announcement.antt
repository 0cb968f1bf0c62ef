-- ===== src/Mdns/Announcement.antt =====
-- src/firmware/network/mdns.rs: the announcement of the device, `build_mdns_announcement`.
pub mod Bounds
use brewster.Common.{
  ℕ, zero, suc, ◌+◌, ◌-◌, ◌*◌, ◌/◌, ◌%◌, ◌^◌, ◌≤◌, ◌<◌, min, ◌≡◌, refl, sym, ap, ◌∙◌, ◌≢◌, ◌⊎◌, inl,
  inr, Bool, true, false, not, ◌&&◌, ◌||◌, Option, none, some, List, [], ◌∷◌, ◌++◌, map, append-nil,
  append_assoc, arith, ltb, leb, ◌==◌, if◌then◌else◌, ltb→lt, lt→ltb, leb→le, ==_iff, Bool-cases,
  Option-cases, ◌>>=◌, is_some, length, get_elem?, set, get_or, take, drop, replicate, slice,
  copy_at, All, tabulate, tabulate_lem, length-copy_at, bytes_eq, bytes_eq_refl, bytes_eq→eq,
  length-append, length-set, length-take, length-drop, length-replicate, length-map,
}
use brewster.Common.Int.{
  ℤ, pos, negsuc, pos_part, neg_part, ◌+ℤ◌, ◌-ℤ◌, ◌≤ℤ◌, ltb_ℤ, clamp_ℤ, ◌==ℤ◌,
}
use brewster.Common.Words.{
  IsByte, IsU16, IsU32, u32_max, wrapping_add32, wrapping_sub32, saturating_add32, saturating_mul32,
  le_bytes16, from_le16, le_bytes32, from_le32, be_bytes16, from_be16, be_bytes32, bits8, signed8,
  bits16, signed16, bits32, signed32, i16_min, i16_max, i32_min, i32_max, from_le16-le_bytes16,
  from_le32-le_bytes32, signed16-bits16, signed32-bits32, signed8-bits8, bits8-signed8,
  bits16-IsU16, bits32-IsU32,
}
use brewster.Common.Bits.{holds_below, holds_below_lem, both, both_sound, same, same→eq}
use brewster.Common.Float.{
  Float, of_centi, half, clamp_f, as_i8, as_i16, as_i32, as_u8, as_u16, as_u32,
}
use Prim.Native.Nat.{bit_and, bit_or, bit_xor, max}
use brewster.Dns.{Cursor, write}
use brewster.Mdns.Answer.{local_label}

abbrev pub mdns_ttl_secs : ℕ
mdns_ttl_secs = 120

abbrev pub http_port : ℕ
http_port = 80

unfoldable pub append_bytes : List ℕ → Cursor → Option Cursor
append_bytes bytes c = write bytes c

unfoldable pub append_u16 : ℕ → Cursor → Option Cursor
append_u16 value c = append_bytes (be_bytes16 value) c

unfoldable pub append_u32 : ℕ → Cursor → Option Cursor
append_u32 value c = append_bytes (be_bytes32 value) c

unfoldable pub append_dns_name : List (List ℕ) → Cursor → Option Cursor
append_dns_name [] c = append_bytes (0 ∷ []) c
append_dns_name (label ∷ labels) c =
    if ltb 63 (length label)
    then none
    else append_bytes (length label % 256 ∷ []) c >>= append_bytes label >>= append_dns_name labels

-- The lines from `rdlen_pos` to the copy of `rdata_len`, around the ones that write the data.
unfoldable pub append_rdata : (Cursor → Option Cursor) → Cursor → Option Cursor
append_rdata body c = append_u16 0 c >>= (λ s. body s >>= (λ d.
    some (record { buf = copy_at d.buf c.i (be_bytes16 ((d.i - s.i) % 65536)); i = d.i })))

-- The four fields in front of the data length.
unfoldable pub append_head : List (List ℕ) → ℕ → ℕ → Cursor → Option Cursor
append_head labels rtype rclass c =
    append_dns_name labels c >>= append_u16 rtype >>= append_u16 rclass >>= append_u32 mdns_ttl_secs

-- `b"_udp"`, `b"_tcp"`, `b"_http"`, `b"_services"`, `b"_dns-sd"`
abbrev udp_label : List ℕ
udp_label = 95 ∷ 117 ∷ 100 ∷ 112 ∷ []

abbrev tcp_label : List ℕ
tcp_label = 95 ∷ 116 ∷ 99 ∷ 112 ∷ []

abbrev http_label : List ℕ
http_label = 95 ∷ 104 ∷ 116 ∷ 116 ∷ 112 ∷ []

abbrev pub services_labels : List (List ℕ)
services_labels =
    (95 ∷ 115 ∷ 101 ∷ 114 ∷ 118 ∷ 105 ∷ 99 ∷ 101 ∷ 115 ∷ [])
    ∷ (95 ∷ 100 ∷ 110 ∷ 115 ∷ 45 ∷ 115 ∷ 100 ∷ [])
    ∷ udp_label
    ∷ local_label
    ∷ []

abbrev pub http_service_labels : List (List ℕ)
http_service_labels = http_label ∷ tcp_label ∷ local_label ∷ []

abbrev pub http_instance_labels : List ℕ → List (List ℕ)
http_instance_labels hostname = hostname ∷ http_service_labels

abbrev pub device_labels : List ℕ → List (List ℕ)
device_labels hostname = hostname ∷ local_label ∷ []

abbrev count_of : Option (List ℕ) → ℕ
count_of ip = if is_some ip then 1 else 0

unfoldable pub append_answers_header : ℕ → Cursor → Option Cursor
append_answers_header answer_count c =
    append_u16 0x0000 c
    >>= append_u16 0x8400
    >>= append_u16 0x0000
    >>= append_u16 answer_count
    >>= append_u16 0x0000
    >>= append_u16 0x0000

-- The PTR, PTR, SRV and TXT records.
unfoldable pub append_services : List ℕ → Cursor → Option Cursor
append_services hostname c =
    append_head services_labels 12 0x0001 c
    >>= append_rdata (append_dns_name http_service_labels)
    >>= append_head http_service_labels 12 0x0001
    >>= append_rdata (append_dns_name (http_instance_labels hostname))
    >>= append_head (http_instance_labels hostname) 33 0x8001
    >>= append_rdata (λ d.
      append_u16 0 d
      >>= append_u16 0
      >>= append_u16 http_port
      >>= append_dns_name (device_labels hostname))
    >>= append_head (http_instance_labels hostname) 16 0x8001
    >>= append_u16 1
    >>= append_bytes (0 ∷ [])

-- `if let Some(ipv4) = ipv4` and `if let Some(ipv6) = ipv6`
unfoldable pub append_address : List ℕ → ℕ → ℕ → Option (List ℕ) → Cursor → Option Cursor
append_address hostname rtype size none c = some c
append_address hostname rtype size (some ip) c =
    append_head (device_labels hostname) rtype 0x8001 c >>= append_u16 size >>= append_bytes ip

unfoldable pub build_mdns_announcement :
    List ℕ → Option (List ℕ) → Option (List ℕ) → List ℕ → Option Cursor
build_mdns_announcement hostname ipv4 ipv6 out =
    if not (is_some ipv4) && not (is_some ipv6)
    then none
    else append_answers_header (4 + count_of ipv4 + count_of ipv6) (record { buf = out; i = 0 })
      >>= append_services hostname
      >>= append_address hostname 1 4 ipv4
      >>= append_address hostname 28 16 ipv6
