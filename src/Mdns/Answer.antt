-- ===== src/Mdns/Answer.antt =====
-- src/firmware/network/mdns.rs: the questions that the device answers, and the answer.
pub mod Termination
pub mod Bounds
pub mod Reply
pub mod Query
use brewster.Common.{
  ℕ, zero, suc, ◌+◌, ◌-◌, ◌*◌, ◌/◌, ◌%◌, ◌^◌, ◌≤◌, ◌<◌, min, ◌≡◌, refl, sym, ap, ◌∙◌, ◌≢◌, ◌⊎◌, inl,
  inr, Bool, true, false, not, ◌&&◌, ◌||◌, Option, none, some, List, [], ◌∷◌, ◌++◌, map, append-nil,
  append_assoc, arith, ltb, leb, ◌==◌, if◌then◌else◌, ltb→lt, lt→ltb, leb→le, ==_iff, Bool-cases,
  Option-cases, ◌>>=◌, is_some, length, get_elem?, set, get_or, take, drop, replicate, slice,
  copy_at, All, tabulate, tabulate_lem, length-copy_at, bytes_eq, bytes_eq_refl, bytes_eq→eq,
  length-append, length-set, length-take, length-drop, length-replicate, length-map,
}
use brewster.Common.Int.{
  ℤ, pos, negsuc, pos_part, neg_part, ◌+ℤ◌, ◌-ℤ◌, ◌≤ℤ◌, ltb_ℤ, clamp_ℤ, ◌==ℤ◌,
}
use brewster.Common.Words.{
  IsByte, IsU16, IsU32, u32_max, wrapping_add32, wrapping_sub32, saturating_add32, saturating_mul32,
  le_bytes16, from_le16, le_bytes32, from_le32, be_bytes16, from_be16, be_bytes32, bits8, signed8,
  bits16, signed16, bits32, signed32, i16_min, i16_max, i32_min, i32_max, from_le16-le_bytes16,
  from_le32-le_bytes32, signed16-bits16, signed32-bits32, signed8-bits8, bits8-signed8,
  bits16-IsU16, bits32-IsU32,
}
use brewster.Common.Bits.{holds_below, holds_below_lem, both, both_sound, same, same→eq}
use brewster.Common.Float.{
  Float, of_centi, half, clamp_f, as_i8, as_i16, as_i32, as_u8, as_u16, as_u32,
}
use Prim.Native.Nat.{bit_and, bit_or, bit_xor, max}
use brewster.Dns.{Cursor}
use brewster.Mdns.Service.{u16_at, pointer_at}

-- `u8::eq_ignore_ascii_case`
abbrev to_ascii_lowercase : ℕ → ℕ
to_ascii_lowercase b = if leb 65 b && leb b 90 then b + 32 else b

abbrev pub eq_ascii_ignore_case : ℕ → ℕ → Bool
eq_ascii_ignore_case a b = to_ascii_lowercase a == to_ascii_lowercase b

-- Slices of different lengths are different.
unfoldable pub bytes_eq_ascii_ignore_case : List ℕ → List ℕ → Bool
bytes_eq_ascii_ignore_case [] [] = true
bytes_eq_ascii_ignore_case [] (b ∷ bs) = false
bytes_eq_ascii_ignore_case (a ∷ rest) [] = false
bytes_eq_ascii_ignore_case (a ∷ rest) (b ∷ bs) =
    eq_ascii_ignore_case a b && bytes_eq_ascii_ignore_case rest bs

-- `b"local"`
abbrev pub local_label : List ℕ
local_label = 108 ∷ 111 ∷ 99 ∷ 97 ∷ 108 ∷ []

pub record MdnsQuestionMatch : Type 0 where
  pub prefer_unicast_response : Bool
  pub qtype : ℕ
  pub qclass_raw : ℕ

-- The variables of the loop of `dns_name_matches_host_local`.
pub record NameWalk : Type 0 where
  pub cursor : ℕ
  pub jumped : Bool
  pub next : ℕ
  pub depth : ℕ
  pub label_index : ℕ
  pub matched : Bool

abbrev pub saturating_inc8 : ℕ → ℕ
saturating_inc8 n = min 255 (suc n)

-- `match label_index`
abbrev pub this_matches : ℕ → List ℕ → List ℕ → Bool
this_matches label_index label hostname =
    if label_index == 0
    then bytes_eq_ascii_ignore_case label hostname
    else if label_index == 1
    then bytes_eq_ascii_ignore_case label local_label
    else false

-- A pointer is followed.
abbrev pub jump : ℕ → NameWalk → NameWalk
jump ptr s = record s {
  cursor = ptr;
  jumped = true;
  next = if s.jumped then s.next else s.cursor + 2;
  depth = saturating_inc8 s.depth;
}

-- A label is compared.
abbrev pub take_label : List ℕ → List ℕ → ℕ → NameWalk → NameWalk
take_label packet hostname label_len s = record s {
  cursor = s.cursor + suc label_len;
  label_index = saturating_inc8 s.label_index;
  matched =
      s.matched
      && this_matches s.label_index (slice packet (s.cursor + 1) (s.cursor + suc label_len))
          hostname;
}

abbrev pub name_end : NameWalk → Bool × ℕ
name_end s = (s.matched && s.label_index == 2, if s.jumped then s.next else s.cursor + 1)

-- A pass of the loop, with the passes after it; `some none` is the early `return None`.
abbrev pub match_step :
    List ℕ
    → List ℕ
    → NameWalk
    → (NameWalk → Option (Option (Bool × ℕ)))
    → Option (Option (Bool × ℕ))
match_step packet hostname s continue =
    let len = get_or packet s.cursor 0 in
    let ptr = pointer_at packet s.cursor in
    if leb (length packet) s.cursor
    then some none
    else if bit_and len 0xC0 == 0xC0
    then (if leb (length packet) (s.cursor + 1)
        then some none
        else if leb (length packet) ptr
        then some none
        else continue (jump ptr s))
    else if not (bit_and len 0xC0 == 0)
    then some none
    else if len == 0
    then some (some (name_end s))
    else if ltb (length packet) (s.cursor + suc len)
    then some none
    else continue (take_label packet hostname len s)

-- The loop, on fuel: `none` is a loop that is still running.
unfoldable pub match_loop : ℕ → List ℕ → List ℕ → NameWalk → Option (Option (Bool × ℕ))
match_loop zero packet hostname s = none
match_loop (suc fuel) packet hostname s =
    if ltb s.depth 16
    then match_step packet hostname s (match_loop fuel packet hostname)
    else some none

abbrev pub name_start : ℕ → NameWalk
name_start start = record {
  cursor = start;
  jumped = false;
  next = start;
  depth = 0;
  label_index = 0;
  matched = true;
}

-- A packet of `n` bytes is walked in less than 17 (n + 1) passes.
abbrev pub name_fuel : List ℕ → ℕ
name_fuel packet = 17 * (length packet + 1)

unfoldable pub dns_name_matches_host_local : List ℕ → ℕ → List ℕ → Option (Bool × ℕ)
dns_name_matches_host_local packet start hostname =
    match_loop (name_fuel packet) packet hostname (name_start start) >>= (λ r. r)

-- The question at an offset, with the questions after it.
abbrev pub question_step :
    List ℕ → Bool × ℕ → (ℕ → Option MdnsQuestionMatch) → Option MdnsQuestionMatch
question_step query (matches_name, next) continue =
    let qtype = u16_at query next in
    let qclass_raw = u16_at query (next + 2) in
    if ltb (length query) (next + 4)
    then none
    else if matches_name && bit_and qclass_raw 0x7fff == 1 && (qtype == 1 || qtype == 255)
    then some (record {
      prefer_unicast_response = not (bit_and qclass_raw 0x8000 == 0);
      qtype = qtype;
      qclass_raw = qclass_raw;
    })
    else continue (next + 4)

pub find_question : ℕ → List ℕ → List ℕ → ℕ → Option MdnsQuestionMatch
find_question zero query hostname offset = none
find_question (suc n) query hostname offset =
    dns_name_matches_host_local query offset hostname
    >>= (λ m. question_step query m (find_question n query hostname))

pub question_matches_hostname : List ℕ → List ℕ → Option MdnsQuestionMatch
question_matches_hostname query hostname =
    if ltb (length query) 12 then none else find_question (u16_at query 4) query hostname 12

-- The type and the bytes of the address that is answered with.
pub answer_of : ℕ → Option (List ℕ) → Option (List ℕ) → Option (ℕ × List ℕ)
answer_of qtype ipv4 ipv6 =
    if qtype == 1
    then ipv4 >>= (λ ip. some (1, ip))
    else if qtype == 28
    then ipv6 >>= (λ ip. some (28, ip))
    else if qtype == 255
    then (if is_some ipv4 then ipv4 >>= (λ ip. some (1, ip)) else ipv6 >>= (λ ip. some (28, ip)))
    else none

-- `answer_rdlen`
abbrev pub rdlen_of : ℕ → ℕ
rdlen_of answer_type = if answer_type == 1 then 4 else 16

-- `out[i..i + bytes.len()].copy_from_slice(bytes)` one after another, from index `i` on.
pub put_all : List (List ℕ) → Cursor → Cursor
put_all [] c = c
put_all (bytes ∷ pieces) c =
    put_all pieces (record { buf = copy_at c.buf c.i bytes; i = c.i + length bytes })

-- What is written, in order.
abbrev pub response_pieces : List ℕ → List ℕ → MdnsQuestionMatch → ℕ → List ℕ → List (List ℕ)
response_pieces query hostname question answer_type address =
    (get_or query 0 0 ∷ get_or query 1 0 ∷ 0x84 ∷ 0 ∷ 0 ∷ 1 ∷ 0 ∷ 1 ∷ 0 ∷ 0 ∷ 0 ∷ 0 ∷ [])
    ∷ (length hostname % 256 ∷ [])
    ∷ hostname
    ∷ (5 ∷ [])
    ∷ local_label
    ∷ (0 ∷ [])
    ∷ be_bytes16 question.qtype
    ∷ be_bytes16 question.qclass_raw
    ∷ (0xC0 ∷ 0x0C ∷ [])
    ∷ be_bytes16 answer_type
    ∷ (0x80 ∷ 1 ∷ 0 ∷ 0 ∷ 0 ∷ 0x78 ∷ [])
    ∷ be_bytes16 (rdlen_of answer_type)
    ∷ address
    ∷ []

pub build_mdns_response :
    List ℕ
    → List ℕ
    → Option (List ℕ)
    → Option (List ℕ)
    → List ℕ
    → Option (Cursor × MdnsQuestionMatch)
build_mdns_response query hostname ipv4 ipv6 out =
    question_matches_hostname query hostname >>= (λ question.
      answer_of question.qtype ipv4 ipv6 >>= (λ answer.
        if ltb (length out) (12 + (length hostname + 12) + 12 + rdlen_of answer.0)
        then none
        else some (
          put_all (response_pieces query hostname question answer.0 answer.1)
              (record { buf = out; i = 0 }),
          question,
        )))
