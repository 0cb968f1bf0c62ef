-- ===== src/Dns.antt =====
-- The DNS wire format that server/src/discovery.rs writes and src/firmware/network/mdns.rs
-- reads and writes: a buffer with an index into it, and the bytes of a name.
pub mod Drop
pub mod Safe
use mathlib.Core.Path.{subst}
use brewster.Dns.Drop.{drop-drop}
use brewster.Common.{
  ℕ, zero, suc, ◌+◌, ◌-◌, ◌*◌, ◌/◌, ◌%◌, ◌^◌, ◌≤◌, ◌<◌, min, ◌≡◌, refl, sym, ap, ◌∙◌, ◌≢◌, ◌⊎◌, inl,
  inr, Bool, true, false, not, ◌&&◌, ◌||◌, Option, none, some, List, [], ◌∷◌, ◌++◌, map, append-nil,
  append_assoc, arith, ltb, leb, ◌==◌, if◌then◌else◌, ltb→lt, lt→ltb, leb→le, ==_iff, Bool-cases,
  Option-cases, ◌>>=◌, is_some, length, get_elem?, set, get_or, take, drop, replicate, slice,
  copy_at, All, tabulate, tabulate_lem, length-copy_at, bytes_eq, bytes_eq_refl, bytes_eq→eq,
  length-append, length-set, length-take, length-drop, length-replicate, length-map,
}
use brewster.Common.Int.{
  ℤ, pos, negsuc, pos_part, neg_part, ◌+ℤ◌, ◌-ℤ◌, ◌≤ℤ◌, ltb_ℤ, clamp_ℤ, ◌==ℤ◌,
}
use brewster.Common.Words.{
  IsByte, IsU16, IsU32, u32_max, wrapping_add32, wrapping_sub32, saturating_add32, saturating_mul32,
  le_bytes16, from_le16, le_bytes32, from_le32, be_bytes16, from_be16, be_bytes32, bits8, signed8,
  bits16, signed16, bits32, signed32, i16_min, i16_max, i32_min, i32_max, from_le16-le_bytes16,
  from_le32-le_bytes32, signed16-bits16, signed32-bits32, signed8-bits8, bits8-signed8,
  bits16-IsU16, bits32-IsU32,
}
use brewster.Common.Bits.{holds_below, holds_below_lem, both, both_sound, same, same→eq}
use brewster.Common.Float.{
  Float, of_centi, half, clamp_f, as_i8, as_i16, as_i32, as_u8, as_u16, as_u32,
}
use Prim.Native.Nat.{bit_and, bit_or, bit_xor, max}

-- `buf: &mut [u8]` with `i: &mut usize`
pub record Cursor : Type 0 where
  pub buf : List ℕ
  pub i : ℕ

-- `buf[i..i + bytes.len()].copy_from_slice(bytes)`, with the index moved past the bytes, when
-- they fit.
abbrev pub write : List ℕ → Cursor → Option Cursor
write bytes c =
    if ltb (length c.buf) (c.i + length bytes)
    then none
    else some (record { buf = copy_at c.buf c.i bytes; i = c.i + length bytes })

-- The label lengths that the format has room for.
abbrev pub IsLabel : List ℕ → Type 0
IsLabel l = (1 ≤ length l) × (length l ≤ 63)

-- An uncompressed name.
unfoldable pub name_bytes : List (List ℕ) → List ℕ
name_bytes [] = 0 ∷ []
name_bytes (l ∷ ls) = length l ∷ l ++ name_bytes ls

-- A cursor that has `w` behind it and `rest` before it.
abbrev pub between : List ℕ → List ℕ → Cursor
between w rest = record { buf = w ++ rest; i = length w }

-- An operation that appends `bs` wherever they fit.
pub record Emits (op : Cursor → Option Cursor) (bs : List ℕ) : Type 0 where
  pub emitted :
      (w rest : List ℕ)
      → length bs ≤ length rest
      → op (between w rest) ≡ some (between (w ++ bs) (drop (length bs) rest))

set-append : (w rest : List ℕ) (b y : ℕ) → set (w ++ (y ∷ rest)) (length w) b ≡ w ++ (b ∷ rest)
set-append [] rest b y = refl
set-append (x ∷ w) rest b y = ap (λ xs. x ∷ xs) (set-append w rest b y)

pub copy_at-append :
    (bs w rest : List ℕ)
    → length bs ≤ length rest
    → copy_at (w ++ rest) (length w) bs ≡ (w ++ bs) ++ drop (length bs) rest
copy_at-append [] w rest h = rw (append-nil w)
copy_at-append (b ∷ bs) w [] h = absurd (omega arith)
copy_at-append (b ∷ bs) w (y ∷ rest) h =
    ap (λ ys. copy_at ys (suc (length w)) bs) (set-append w rest b y)
    ∙ (simp (append_assoc w (b ∷ []) rest, length-snoc, append_assoc w (b ∷ []) bs) at
        (copy_at-append bs (w ++ (b ∷ [])) rest (omega arith)))
  where
    length-snoc : length (w ++ (b ∷ [])) ≡ suc (length w)
    length-snoc = omega (arith, length-append w (b ∷ []))

pub write-Emits : (bs : List ℕ) → Emits (write bs) bs
write-Emits bs = record {
  emitted = λ w rest h.
      ground (arith, length-append w rest, length-append w bs, copy_at-append bs w rest h);
}

pub Emits-then :
    {p q : Cursor → Option Cursor} {a b : List ℕ}
    → Emits p a
    → Emits q b
    → Emits (λ c. p c >>= q) (a ++ b)
Emits-then {q = q} {a = a} {b = b} ha hb = record {
  emitted = λ w rest h.
      let n = length-append a b in
      ap (λ o. o >>= q) (ha.emitted w rest (omega arith))
      ∙ hb.emitted (w ++ a) (drop (length a) rest) (omega (arith, length-drop (length a) rest))
      ∙ ap some (simp (drop-drop, append_assoc w a b, n) refl);
}

pub Emits-same : {p : Cursor → Option Cursor} {a b : List ℕ} → a ≡ b → Emits p a → Emits p b
Emits-same {p = p} e h = subst (λ bs. Emits p bs) e h
