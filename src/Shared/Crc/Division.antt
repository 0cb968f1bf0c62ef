-- ===== src/Shared/Crc/Division.antt =====
-- `crc8_maxim` against the division that defines the check: by x^8 + x^5 + x^4 + 1, over the bits
-- of the bytes from the lowest on, in a register whose highest bit is that of x^7. The code keeps
-- the register with its bits the other way round.
use brewster.Common.{
  ◌+◌, ◌/◌, ◌%◌, ◌≡◌, refl, ap, ◌∙◌, inl, inr, ◌&&◌, Bool-cases, All, arith, true, Bool, List, [],
  ◌∷◌,
}
use brewster.Common.Bits.{holds_below, holds_below_lem, same, same→eq}
use brewster.Common.Words.{IsByte}
use Prim.Native.Nat.{bit_and}
use brewster.Shared.Crc.Bounds.{crc_bit-IsByte, crc_rounds-IsByte, crc_from-IsByte}
use brewster.Shared.Crc.{crc_from, crc_byte, crc_rounds, crc8_maxim}
use brewster.Common.{
  ℕ, zero, suc, ◌+◌, ◌*◌, ◌/◌, ◌%◌, ◌≡◌, refl, Bool, true, List, [], ◌∷◌, ◌==◌, if◌then◌else◌,
}
use brewster.Common.Bits.{holds_below}
use Prim.Native.Nat.{bit_xor}
use brewster.Shared.Crc.{crc_bit}

-- A byte with its bits in reverse order.
abbrev pub reversed8 : ℕ → ℕ
reversed8 x =
    x % 2 * 128
    + x / 2 % 2 * 64
    + x / 4 % 2 * 32
    + x / 8 % 2 * 16
    + x / 16 % 2 * 8
    + x / 32 % 2 * 4
    + x / 64 % 2 * 2
    + x / 128 % 2

-- One step of the division: the register times x plus the bit times x^8, less the divisor where
-- the highest term was not 0.
abbrev pub divide_bit : ℕ → ℕ → ℕ
divide_bit register bit =
    if (register / 128 + bit) % 2 == 0
    then register * 2 % 256
    else bit_xor (register * 2 % 256) 0x31

-- The bits of a byte that are left, the lowest first.
pub divide_bits : ℕ → ℕ → ℕ → ℕ
divide_bits zero value register = register
divide_bits (suc left) value register =
    divide_bits left (value / 2) (divide_bit register (value % 2))

pub remainder : List ℕ → ℕ → ℕ
remainder [] register = register
remainder (byte ∷ bytes) register = remainder bytes (divide_bits 8 byte register)

-- The lowest bits decide whether the round takes the divisor off.
abbrev mix_ok : ℕ → ℕ → Bool
mix_ok c v = same (bit_and (bit_xor c v) 1 == 0) ((c + v) % 2 == 0)

mix_table : holds_below (λ c. holds_below (mix_ok c) 256) 256 ≡ true
unfolding holds_below
mix_table = refl

-- Reversing turns the shift to the right, with and without the divisor, into the one to the left.
abbrev shift_ok : ℕ → Bool
shift_ok c =
    (reversed8 (c / 2) == reversed8 c * 2 % 256)
    && (reversed8 (bit_xor (c / 2) 0x8C) == bit_xor (reversed8 c * 2 % 256) 0x31)
    && (reversed8 c / 128 == c % 2)

shift_table : holds_below shift_ok 256 ≡ true
unfolding holds_below
shift_table = refl

mix_lem : (c v : ℕ) → IsByte c → IsByte v → (bit_and (bit_xor c v) 1 == 0) ≡ ((c + v) % 2 == 0)
mix_lem c v hc hv = same→eq _ _ (
    holds_below_lem (mix_ok c) 256 v
      (holds_below_lem (λ c. holds_below (mix_ok c) 256) 256 c mix_table hc) hv)

shift_split :
    (a b c d e f : ℕ) → ((a == b) && (c == d) && (e == f)) ≡ true → (a ≡ b) × (c ≡ d) × (e ≡ f)
shift_split a b c d e f h = (ground (arith, h), ground (arith, h), ground (arith, h))

shift_lem :
    (c : ℕ)
    → IsByte c
    → (reversed8 (c / 2) ≡ reversed8 c * 2 % 256)
      × (reversed8 (bit_xor (c / 2) 0x8C) ≡ bit_xor (reversed8 c * 2 % 256) 0x31)
      × (reversed8 c / 128 ≡ c % 2)
shift_lem c h =
    shift_split (reversed8 (c / 2)) (reversed8 c * 2 % 256) (reversed8 (bit_xor (c / 2) 0x8C))
      (bit_xor (reversed8 c * 2 % 256) 0x31) (reversed8 c / 128) (c % 2)
      (holds_below_lem shift_ok 256 c shift_table h)

-- A round of the code is a step of the division.
crc_bit-divide :
    (c v : ℕ)
    → IsByte c
    → IsByte v
    → reversed8 (crc_bit (c, v)).0 ≡ divide_bit (reversed8 c) (v % 2)
unfolding crc_bit
crc_bit-divide c v hc hv =
    let (plain, taken, top) = shift_lem c hc in
    let parity : (c % 2 + v % 2) % 2 ≡ (c + v) % 2 = omega arith in
    elim (Bool-cases ((c + v) % 2 == 0)) [
      | inl e ↦ rw (mix_lem c v hc hv, top, parity, e) plain
      | inr e ↦ rw (mix_lem c v hc hv, top, parity, e) taken
    ]

crc_rounds-divide :
    (n c v : ℕ)
    → IsByte c
    → IsByte v
    → reversed8 (crc_rounds n (c, v)).0 ≡ divide_bits n v (reversed8 c)
unfolding crc_rounds divide_bits crc_bit
crc_rounds-divide zero c v hc hv = refl
crc_rounds-divide (suc n) c v hc hv =
    crc_rounds-divide n (crc_bit (c, v)).0 (v / 2) (crc_bit-IsByte c v hc) (omega arith)
    ∙ ap (divide_bits n (v / 2)) (crc_bit-divide c v hc hv)

crc_from-remainder :
    (bytes : List ℕ) (c : ℕ)
    → IsByte c
    → All IsByte bytes
    → reversed8 (crc_from c bytes) ≡ remainder bytes (reversed8 c)
unfolding crc_from crc_byte remainder
crc_from-remainder [] c hc h = refl
crc_from-remainder (b ∷ bytes) c hc (hb, h) =
    crc_from-remainder bytes (crc_byte c b) (crc_rounds-IsByte 8 c b hc) h
    ∙ ap (remainder bytes) (crc_rounds-divide 8 c b hc hb)

-- The check byte of any bytes is a byte. Its bits in reverse order are the remainder of the
-- bytes' bits, taken from the lowest of each byte on and followed by eight zeros, by the polynomial
-- x^8 + x^5 + x^4 + 1.
pub crc8_maxim-remainder :
    (bytes : List ℕ)
    → All IsByte bytes
    → IsByte (crc8_maxim bytes) × (reversed8 (crc8_maxim bytes) ≡ remainder bytes 0)
unfolding crc8_maxim
crc8_maxim-remainder bytes h =
    (crc_from-IsByte 0 bytes (omega arith), crc_from-remainder bytes 0 (omega arith) h)
