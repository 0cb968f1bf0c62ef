-- ===== src/Sensor/Serial.antt =====
-- The serial number of a probe, printed and parsed.
use brewster.Common.{
  ℕ, ◌+◌, ◌*◌, ◌/◌, ◌%◌, ◌≤◌, ◌<◌, ◌≡◌, refl, ap, ◌∙◌, true, false, some, List, [], ◌∷◌, ◌++◌,
  append-nil, append_assoc, arith, ◌==◌, ==_iff, length, All, length-append,
}
use brewster.Common.Words.{IsByte}
use brewster.Common.Bits.{holds_below, holds_below_lem}
use Prim.Native.Nat.{bit_and, bit_or}
use brewster.Sensor.{
  to_digit, compact_loop, rom_of, parse_ds18b20_serial, hex_digit, format_ds18b20_serial,
  is_separator,
}

high : (n : ℕ) → n < 256 → to_digit (hex_digit (n / 16)) ≡ some (n / 16)
unfolding to_digit
high n h = ground arith

low : (n : ℕ) → to_digit (hex_digit (n % 16)) ≡ some (n % 16)
unfolding to_digit
low n = ground arith

and_table : holds_below (λ n. bit_and n 0x0F == n % 16) 256 ≡ true
unfolding holds_below
and_table = refl

or_table : holds_below (λ n. bit_or (n / 16 * 16) (n % 16) == n) 256 ≡ true
unfolding holds_below
or_table = refl

and_lem : (n : ℕ) → n < 256 → bit_and n 0x0F ≡ n % 16
and_lem n h = (==_iff _ _).0 (holds_below_lem (λ n. bit_and n 0x0F == n % 16) 256 n and_table h)

or_lem : (n : ℕ) → n < 256 → bit_or (n / 16 * 16) (n % 16) ≡ n
or_lem n h =
    (==_iff _ _).0 (holds_below_lem (λ n. bit_or (n / 16 * 16) (n % 16) == n) 256 n or_table h)

-- The digits of a code are read back.
rom_of-format : (rom : List ℕ) → All IsByte rom → rom_of (format_ds18b20_serial rom) ≡ some rom
unfolding rom_of format_ds18b20_serial
rom_of-format [] h = refl
rom_of-format (n ∷ rom) (hn, h) =
    rw (and_lem n hn, high n hn, low n, rom_of-format rom h, or_lem n hn)

hex_digit-separator : (n : ℕ) → n < 16 → is_separator (hex_digit n) ≡ false
hex_digit-separator n h = ground arith

compact_loop-push :
    (acc : List ℕ) (b : ℕ) (bs : List ℕ)
    → is_separator b ≡ false
    → length acc < 16
    → compact_loop acc (b ∷ bs) ≡ compact_loop (acc ++ (b ∷ [])) bs
unfolding compact_loop
compact_loop-push acc b bs e room = ground (arith, e)

-- No digit is skipped, as long as there is room.
compact_loop-format :
    (acc rom : List ℕ)
    → All IsByte rom
    → length acc + 2 * length rom ≤ 16
    → compact_loop acc (format_ds18b20_serial rom) ≡ some (acc ++ format_ds18b20_serial rom)
unfolding compact_loop format_ds18b20_serial
compact_loop-format acc [] h room = rw (append-nil acc)
compact_loop-format acc (n ∷ rom) (hn, h) room =
    let hi = hex_digit (n / 16) in
    let lo = hex_digit (bit_and n 0x0F) in
    compact_loop-push acc hi (lo ∷ format_ds18b20_serial rom)
      (hex_digit-separator (n / 16) (omega arith)) (omega arith)
    ∙ compact_loop-push (acc ++ (hi ∷ [])) lo (format_ds18b20_serial rom)
        (hex_digit-separator (bit_and n 0x0F) (omega (arith, and_lem n hn)))
        (omega (arith, length-append acc (hi ∷ [])))
    ∙ compact_loop-format ((acc ++ (hi ∷ [])) ++ (lo ∷ [])) rom h
        (omega (arith, length-append acc (hi ∷ []), length-append (acc ++ (hi ∷ [])) (lo ∷ [])))
    ∙ ap some (
        append_assoc (acc ++ (hi ∷ [])) (lo ∷ []) (format_ds18b20_serial rom)
        ∙ append_assoc acc (hi ∷ []) (lo ∷ format_ds18b20_serial rom))

length-format : (rom : List ℕ) → length (format_ds18b20_serial rom) ≡ 2 * length rom
unfolding format_ds18b20_serial
length-format [] = refl
length-format (n ∷ rom) = omega (arith, length-format rom)

-- The printed serial number of a code of eight bytes parses back to that code.
pub parse_ds18b20_serial-format :
    (rom : List ℕ)
    → length rom ≡ 8
    → All IsByte rom
    → parse_ds18b20_serial (format_ds18b20_serial rom) ≡ some rom
unfolding parse_ds18b20_serial
parse_ds18b20_serial-format rom n h =
    rw (compact_loop-format [] rom h (omega (arith, n)), length-format rom, n) (rom_of-format rom h)
