-- ===== src/Server/Announce.antt =====
-- server/src/discovery.rs: the mDNS announcement of the server, `build_mdns_packet` and the
-- helpers under it.
pub mod Wire
use brewster.Common.{
  ℕ, zero, suc, ◌+◌, ◌-◌, ◌*◌, ◌/◌, ◌%◌, ◌^◌, ◌≤◌, ◌<◌, min, ◌≡◌, refl, sym, ap, ◌∙◌, ◌≢◌, ◌⊎◌, inl,
  inr, Bool, true, false, not, ◌&&◌, ◌||◌, Option, none, some, List, [], ◌∷◌, ◌++◌, map, append-nil,
  append_assoc, arith, ltb, leb, ◌==◌, if◌then◌else◌, ltb→lt, lt→ltb, leb→le, ==_iff, Bool-cases,
  Option-cases, ◌>>=◌, is_some, length, get_elem?, set, get_or, take, drop, replicate, slice,
  copy_at, All, tabulate, tabulate_lem, length-copy_at, bytes_eq, bytes_eq_refl, bytes_eq→eq,
  length-append, length-set, length-take, length-drop, length-replicate, length-map,
}
use brewster.Common.Int.{
  ℤ, pos, negsuc, pos_part, neg_part, ◌+ℤ◌, ◌-ℤ◌, ◌≤ℤ◌, ltb_ℤ, clamp_ℤ, ◌==ℤ◌,
}
use brewster.Common.Words.{
  IsByte, IsU16, IsU32, u32_max, wrapping_add32, wrapping_sub32, saturating_add32, saturating_mul32,
  le_bytes16, from_le16, le_bytes32, from_le32, be_bytes16, from_be16, be_bytes32, bits8, signed8,
  bits16, signed16, bits32, signed32, i16_min, i16_max, i32_min, i32_max, from_le16-le_bytes16,
  from_le32-le_bytes32, signed16-bits16, signed32-bits32, signed8-bits8, bits8-signed8,
  bits16-IsU16, bits32-IsU32,
}
use brewster.Common.Bits.{holds_below, holds_below_lem, both, both_sound, same, same→eq}
use brewster.Common.Float.{
  Float, of_centi, half, clamp_f, as_i8, as_i16, as_i32, as_u8, as_u16, as_u32,
}
use Prim.Native.Nat.{bit_and, bit_or, bit_xor, max}
use brewster.Dns.{Cursor, write}

abbrev pub mdns_ttl : ℕ
mdns_ttl = 120

pub put_u16 : ℕ → Cursor → Option Cursor
put_u16 v c = write (be_bytes16 v) c

pub put_u32 : ℕ → Cursor → Option Cursor
put_u32 v c = write (be_bytes32 v) c

-- The length of a label is cast to `u8`.
pub put_name : List (List ℕ) → Cursor → Option Cursor
put_name [] c = write (0 ∷ []) c
put_name (label ∷ labels) c = write (length label % 256 ∷ []) c >>= write label >>= put_name labels

-- The lines from `rdlen_pos` to the copy of `rdata_len`, around the ones that write the data.
pub put_rdata : (Cursor → Option Cursor) → Cursor → Option Cursor
put_rdata body c = put_u16 0 c >>= (λ s. body s >>= (λ d.
    some (record { buf = copy_at d.buf c.i (be_bytes16 ((d.i - s.i) % 65536)); i = d.i })))

-- `b"_brewster"`, `b"_udp"`, `b"local"`
abbrev pub service_labels : List (List ℕ)
service_labels =
    (95 ∷ 98 ∷ 114 ∷ 101 ∷ 119 ∷ 115 ∷ 116 ∷ 101 ∷ 114 ∷ [])
    ∷ (95 ∷ 117 ∷ 100 ∷ 112 ∷ [])
    ∷ (108 ∷ 111 ∷ 99 ∷ 97 ∷ 108 ∷ [])
    ∷ []

abbrev pub instance_labels : List ℕ → List (List ℕ)
instance_labels instance_name = instance_name ∷ service_labels

abbrev pub host_labels : List ℕ → List (List ℕ)
host_labels instance_name = instance_name ∷ (108 ∷ 111 ∷ 99 ∷ 97 ∷ 108 ∷ []) ∷ []

pub put_header : Cursor → Option Cursor
put_header c =
    put_u16 0x0000 c
    >>= put_u16 0x8400
    >>= put_u16 0x0000
    >>= put_u16 0x0002
    >>= put_u16 0x0000
    >>= put_u16 0x0002

-- Answer 1.
pub put_ptr : List ℕ → Cursor → Option Cursor
put_ptr instance_name c =
    put_name service_labels c
    >>= put_u16 12
    >>= put_u16 0x0001
    >>= put_u32 mdns_ttl
    >>= put_rdata (put_name (instance_labels instance_name))

-- Answer 2.
pub put_txt : List ℕ → List ℕ → Cursor → Option Cursor
put_txt instance_name txt_record c =
    put_name (instance_labels instance_name) c
    >>= put_u16 16
    >>= put_u16 0x8001
    >>= put_u32 mdns_ttl
    >>= put_u16 ((1 + length txt_record) % 65536)
    >>= write (length txt_record % 256 ∷ [])
    >>= write txt_record

-- Additional 1.
pub put_srv : List ℕ → ℕ → Cursor → Option Cursor
put_srv instance_name telemetry_port c =
    put_name (instance_labels instance_name) c
    >>= put_u16 33
    >>= put_u16 0x8001
    >>= put_u32 mdns_ttl
    >>= put_rdata (λ d.
      put_u16 0 d >>= put_u16 0 >>= put_u16 telemetry_port >>= put_name (host_labels instance_name))

-- Additional 2.
pub put_a : List ℕ → List ℕ → Cursor → Option Cursor
put_a ip instance_name c =
    put_name (host_labels instance_name) c
    >>= put_u16 1
    >>= put_u16 0x8001
    >>= put_u32 mdns_ttl
    >>= put_u16 4
    >>= write ip

-- The buffer with the packet in front, and the packet's length in `i`.
pub build_mdns_packet : List ℕ → ℕ → List ℕ → List ℕ → List ℕ → Option Cursor
build_mdns_packet ip telemetry_port instance_name txt_record out =
    put_header (record { buf = out; i = 0 })
    >>= put_ptr instance_name
    >>= put_txt instance_name txt_record
    >>= put_srv instance_name telemetry_port
    >>= put_a ip instance_name
