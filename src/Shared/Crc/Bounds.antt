-- ===== src/Shared/Crc/Bounds.antt =====
-- The check byte is a byte.
use brewster.Common.{ℕ, zero, suc, ◌/◌, ◌≡◌, refl, true, List, [], ◌∷◌, arith, ltb}
use brewster.Common.Words.{IsByte}
use brewster.Common.Bits.{holds_below, holds_below_lem}
use Prim.Native.Nat.{bit_xor}
use brewster.Shared.Crc.{crc_bit, crc_rounds, crc_byte, crc_from}

xor_table : holds_below (λ x. ltb (bit_xor x 0x8C) 256) 256 ≡ true
unfolding holds_below
xor_table = refl

pub crc_bit-IsByte : (c v : ℕ) → IsByte c → IsByte (crc_bit (c, v)).0
unfolding crc_bit
crc_bit-IsByte c v h =
    ground (arith, holds_below_lem (λ x. ltb (bit_xor x 0x8C) 256) 256 (c / 2) xor_table)

pub crc_rounds-IsByte : (n c v : ℕ) → IsByte c → IsByte (crc_rounds n (c, v)).0
unfolding crc_rounds
crc_rounds-IsByte zero c v h = h
crc_rounds-IsByte (suc n) c v h =
    crc_rounds-IsByte n (crc_bit (c, v)).0 (crc_bit (c, v)).1 (crc_bit-IsByte c v h)

pub crc_from-IsByte : (c : ℕ) (bytes : List ℕ) → IsByte c → IsByte (crc_from c bytes)
unfolding crc_from crc_byte
crc_from-IsByte c [] h = h
crc_from-IsByte c (b ∷ bytes) h = crc_from-IsByte (crc_byte c b) bytes (crc_rounds-IsByte 8 c b h)
