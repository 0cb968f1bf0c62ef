-- ===== src/Common/Float.antt =====
-- `f32` and `f64` are the hardware's: a type with the operations that the source applies.
use brewster.Common.{ℕ, Bool, if◌then◌else◌}
use brewster.Common.Int.{ℤ, pos, negsuc, pos_part, clamp_ℤ}
use brewster.Common.Words.{i16_min, i16_max, i32_min, i32_max, u32_max}

-- A comparison with a NaN is `false`. `trunc` is the integer part, 0 of a NaN, and beyond every
-- machine integer for an infinity.
pub record Float : Type 1 where
  pub F : Type 0
  pub nan : F
  pub is_nan : F → Bool
  pub of_int : ℤ → F
  pub neg : F → F
  pub abs : F → F
  pub add : F → F → F
  pub sub : F → F → F
  pub mul : F → F → F
  pub div : F → F → F
  pub lt : F → F → Bool
  pub le : F → F → Bool
  pub trunc : F → ℤ

module _ (fl : Float) where
  open fl use {F, of_int, div, lt, trunc}

  -- `n as f32 / 100.0`
  abbrev pub of_centi : ℤ → F
  of_centi n = div (of_int n) (of_int (pos 100))

  abbrev pub half : F
  half = div (of_int (pos 1)) (of_int (pos 2))

  -- `x.clamp(lo, hi)`: a NaN stays.
  abbrev pub clamp_f : F → F → F → F
  clamp_f lo hi x = if lt x lo then lo else if lt hi x then hi else x

  -- `x as i16`, `x as i32`, `x as u8`, `x as u16`, `x as u32`: the casts saturate.
  abbrev pub as_i8 : F → ℤ
  as_i8 x = clamp_ℤ (negsuc 127) (pos 127) (trunc x)

  abbrev pub as_i16 : F → ℤ
  as_i16 x = clamp_ℤ i16_min i16_max (trunc x)

  abbrev pub as_i32 : F → ℤ
  as_i32 x = clamp_ℤ i32_min i32_max (trunc x)

  abbrev pub as_u8 : F → ℕ
  as_u8 x = pos_part (clamp_ℤ (pos 0) (pos 255) (trunc x))

  abbrev pub as_u16 : F → ℕ
  as_u16 x = pos_part (clamp_ℤ (pos 0) (pos 65535) (trunc x))

  abbrev pub as_u32 : F → ℕ
  as_u32 x = pos_part (clamp_ℤ (pos 0) (pos u32_max) (trunc x))
