-- ===== src/Mdns/Service.antt =====
-- src/firmware/network/mdns.rs: the search of a packet for the server's announcement.
pub mod Names
pub mod RoundTrip
use brewster.Common.{
  ℕ, zero, suc, ◌+◌, ◌-◌, ◌*◌, ◌/◌, ◌%◌, ◌^◌, ◌≤◌, ◌<◌, min, ◌≡◌, refl, sym, ap, ◌∙◌, ◌≢◌, ◌⊎◌, inl,
  inr, Bool, true, false, not, ◌&&◌, ◌||◌, Option, none, some, List, [], ◌∷◌, ◌++◌, map, append-nil,
  append_assoc, arith, ltb, leb, ◌==◌, if◌then◌else◌, ltb→lt, lt→ltb, leb→le, ==_iff, Bool-cases,
  Option-cases, ◌>>=◌, is_some, length, get_elem?, set, get_or, take, drop, replicate, slice,
  copy_at, All, tabulate, tabulate_lem, length-copy_at, bytes_eq, bytes_eq_refl, bytes_eq→eq,
  length-append, length-set, length-take, length-drop, length-replicate, length-map,
}
use brewster.Common.Int.{
  ℤ, pos, negsuc, pos_part, neg_part, ◌+ℤ◌, ◌-ℤ◌, ◌≤ℤ◌, ltb_ℤ, clamp_ℤ, ◌==ℤ◌,
}
use brewster.Common.Words.{
  IsByte, IsU16, IsU32, u32_max, wrapping_add32, wrapping_sub32, saturating_add32, saturating_mul32,
  le_bytes16, from_le16, le_bytes32, from_le32, be_bytes16, from_be16, be_bytes32, bits8, signed8,
  bits16, signed16, bits32, signed32, i16_min, i16_max, i32_min, i32_max, from_le16-le_bytes16,
  from_le32-le_bytes32, signed16-bits16, signed32-bits32, signed8-bits8, bits8-signed8,
  bits16-IsU16, bits32-IsU32,
}
use brewster.Common.Bits.{holds_below, holds_below_lem, both, both_sound, same, same→eq}
use brewster.Common.Float.{
  Float, of_centi, half, clamp_f, as_i8, as_i16, as_i32, as_u8, as_u16, as_u32,
}
use Prim.Native.Nat.{bit_and, bit_or, bit_xor, max}
use brewster.Config.{unwrap_or}

-- `from_be_bytes` of two bytes of a packet.
abbrev pub u16_at : List ℕ → ℕ → ℕ
u16_at packet i = from_be16 (get_or packet i 0) (get_or packet (i + 1) 0)

-- A pass of the loop of `mdns_skip_name`, with what follows a label.
abbrev pub skip_step : List ℕ → ℕ → (ℕ → Option ℕ) → Option ℕ
skip_step packet offset next =
    let len_byte = get_or packet offset 0 in
    if leb (length packet) offset
    then none
    else if bit_and len_byte 0xC0 == 0xC0
    then some (offset + 2)
    else if len_byte == 0
    then some (offset + 1)
    else if not (bit_and len_byte 0xC0 == 0)
    then none
    else next (offset + suc len_byte)

-- `left` is 16 less `depth`: the loop ends at the seventeenth label.
pub skip_labels : ℕ → List ℕ → ℕ → Option ℕ
skip_labels zero packet offset = skip_step packet offset (λ o. none)
skip_labels (suc left) packet offset = skip_step packet offset (skip_labels left packet)

abbrev pub mdns_skip_name : List ℕ → ℕ → Option ℕ
mdns_skip_name packet offset = skip_labels 16 packet offset

-- `(((len_byte & 0x3F) as usize) << 8) | packet[offset + 1] as usize`
abbrev pub pointer_at : List ℕ → ℕ → ℕ
pointer_at packet offset =
    bit_or (bit_and (get_or packet offset 0) 0x3F * 256) (get_or packet (offset + 1) 0)

-- A pass of the loop of `mdns_name_has_label`.
abbrev pub has_label_step : List ℕ → ℕ → List ℕ → (ℕ → Bool) → Bool
has_label_step packet offset target next =
    let len_byte = get_or packet offset 0 in
    let label_start = offset + 1 in
    let label_end = label_start + len_byte in
    if leb (length packet) offset
    then false
    else if bit_and len_byte 0xC0 == 0xC0
    then (if leb (length packet) (offset + 1) then false else next (pointer_at packet offset))
    else if len_byte == 0
    then false
    else if not (bit_and len_byte 0xC0 == 0)
    then false
    else if ltb (length packet) label_end
    then false
    else if bytes_eq (slice packet label_start label_end) target
    then true
    else next label_end

-- `left` is 17 less `depth`.
pub has_label : ℕ → List ℕ → ℕ → List ℕ → Bool
has_label zero packet offset target = false
has_label (suc left) packet offset target =
    has_label_step packet offset target (λ o. has_label left packet o target)

abbrev pub mdns_name_has_label : List ℕ → ℕ → List ℕ → Bool
mdns_name_has_label packet offset target = has_label 17 packet offset target

-- The variables that the walk over the records fills.
pub record Found : Type 0 where
  pub has_brewster_ptr : Bool
  pub srv_port : Option ℕ
  pub a_ip : Option (List ℕ)

-- `b"_brewster"`
abbrev pub brewster_label : List ℕ
brewster_label = 95 ∷ 98 ∷ 114 ∷ 101 ∷ 119 ∷ 115 ∷ 116 ∷ 101 ∷ 114 ∷ []

-- `match rtype`
pub take_record : List ℕ → ℕ → ℕ → List ℕ → Found → Found
take_record packet name_start rtype rdata found =
    if rtype == 12
    then (if mdns_name_has_label packet name_start brewster_label
        then record found { has_brewster_ptr = true }
        else found)
    else if rtype == 33
    then (if leb 6 (length rdata) then record found { srv_port = some (u16_at rdata 4) } else found)
    else if rtype == 1
    then (if length rdata == 4 then record found { a_ip = some (take 4 rdata) } else found)
    else found

-- The walk from a record's data on.
abbrev pub walk_rdata : List ℕ → ℕ → Found → ℕ → (ℕ → Found → Option Found) → Option Found
walk_rdata packet offset found after_name next =
    let rtype = u16_at packet after_name in
    let rdlen = u16_at packet (after_name + 8) in
    let rdata_start = after_name + 10 in
    if ltb (length packet) (after_name + 10)
    then some found
    else if ltb (length packet) (rdata_start + rdlen)
    then some found
    else next (rdata_start + rdlen)
        (take_record packet offset rtype (slice packet rdata_start (rdata_start + rdlen)) found)

pub walk_records : ℕ → List ℕ → ℕ → Found → Option Found
walk_records zero packet offset found = some found
walk_records (suc n) packet offset found =
    if leb (length packet) offset
    then some found
    else mdns_skip_name packet offset
      >>= (λ after_name. walk_rdata packet offset found after_name (walk_records n packet))

pub skip_questions : ℕ → List ℕ → ℕ → Option ℕ
skip_questions zero packet offset = some offset
skip_questions (suc n) packet offset =
    mdns_skip_name packet offset >>= (λ next. skip_questions n packet (next + 4))

abbrev pub nothing_found : Found
nothing_found = record { has_brewster_ptr = false; srv_port = none; a_ip = none }

abbrev pub service_of : Found → Option (List ℕ × ℕ)
service_of found =
    if found.has_brewster_ptr
    then found.a_ip >>= (λ ip. some (ip, unwrap_or 47890 found.srv_port))
    else none

pub try_find_brewster_service : List ℕ → Option (List ℕ × ℕ)
try_find_brewster_service packet =
    if ltb (length packet) 12
    then none
    else if bit_and (u16_at packet 2) 0x8000 == 0
    then none
    else skip_questions (u16_at packet 4) packet 12
      >>= (λ offset. walk_records (u16_at packet 6 + u16_at packet 10) packet offset nothing_found)
      >>= service_of
