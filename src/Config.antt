-- ===== src/Config.antt =====
-- src/firmware/config.rs: the settings that the build takes from the environment.
pub mod Limits
use brewster.Common.{
  ℕ, zero, suc, ◌+◌, ◌-◌, ◌*◌, ◌/◌, ◌%◌, ◌^◌, ◌≤◌, ◌<◌, min, ◌≡◌, refl, sym, ap, ◌∙◌, ◌≢◌, ◌⊎◌, inl,
  inr, Bool, true, false, not, ◌&&◌, ◌||◌, Option, none, some, List, [], ◌∷◌, ◌++◌, map, append-nil,
  append_assoc, arith, ltb, leb, ◌==◌, if◌then◌else◌, ltb→lt, lt→ltb, leb→le, ==_iff, Bool-cases,
  Option-cases, ◌>>=◌, is_some, length, get_elem?, set, get_or, take, drop, replicate, slice,
  copy_at, All, bytes_eq, bytes_eq_refl, bytes_eq→eq, length-append, length-set, length-take,
  length-drop, length-replicate, length-map,
}
use brewster.Common.Int.{
  ℤ, pos, negsuc, pos_part, neg_part, ◌+ℤ◌, ◌-ℤ◌, ◌≤ℤ◌, ltb_ℤ, clamp_ℤ, ◌==ℤ◌,
}
use brewster.Common.Words.{
  IsByte, IsU16, IsU32, u32_max, wrapping_add32, wrapping_sub32, saturating_add32, saturating_mul32,
  le_bytes16, from_le16, le_bytes32, from_le32, be_bytes16, from_be16, be_bytes32, bits8, signed8,
  bits16, signed16, bits32, signed32, i16_min, i16_max, i32_min, i32_max, from_le16-le_bytes16,
  from_le32-le_bytes32, signed16-bits16, signed32-bits32, signed8-bits8, bits8-signed8,
  bits16-IsU16, bits32-IsU32,
}
use brewster.Common.Bits.{holds_below, holds_below_lem}
use brewster.Common.Float.{
  Float, of_centi, half, clamp_f, as_i8, as_i16, as_i32, as_u8, as_u16, as_u32,
}
use Prim.Native.Nat.{bit_and, bit_or, bit_xor, max}
use brewster.Shared.Text.{parse_uint}

-- `SensorConfig`, less the pin.
pub record SensorConfig : Type 0 where
  pub name : List ℕ
  pub serial : Option (List ℕ)

-- The texts of `option_env!`, `SENSORS` and `CONTROL_PROBE_INDEX` of the generated file, and the
-- library's `parse::<f32>`.
pub record Config (f : Float) : Type 0 where
  pub ds18b20_resolution_config : Option (List ℕ)
  pub status_print_every_seconds_config : Option (List ℕ)
  pub ssr_deadband_config : Option (List ℕ)
  pub device_hostname_config : Option (List ℕ)
  pub udp_server_ip_config : Option (List ℕ)
  pub udp_server_port_config : Option (List ℕ)
  pub sensors : List SensorConfig
  pub control_probe_index : ℕ
  pub parse_f32 : List ℕ → Option f.F

-- `opt.filter(p)`
abbrev pub filtered {ℓ} : {A : Type ℓ} → (A → Bool) → Option A → Option A
filtered p none = none
filtered p (some x) = if p x then some x else none

-- `opt.unwrap_or(v)`
abbrev pub unwrap_or {ℓ} : {A : Type ℓ} → A → Option A → A
unwrap_or v none = v
unwrap_or v (some x) = x

abbrev pub non_empty : List ℕ → Bool
non_empty [] = false
non_empty (c ∷ cs) = true

abbrev pub clamp : ℕ → ℕ → ℕ → ℕ
clamp lo hi n = if ltb n lo then lo else if ltb hi n then hi else n

abbrev pub u64_max : ℕ
u64_max = 18446744073709551615

abbrev pub control_period_ms : ℕ
control_period_ms = 1000

-- `"brewster"`
abbrev pub device_hostname_default : List ℕ
device_hostname_default = b'b' ∷ b'r' ∷ b'e' ∷ b'w' ∷ b's' ∷ b't' ∷ b'e' ∷ b'r' ∷ []

abbrev pub hostname_max_len : ℕ
hostname_max_len = 20

-- A byte that is no continuation byte of UTF-8 starts a character.
abbrev pub is_boundary_byte : ℕ → Bool
is_boundary_byte b = ltb b 128 || leb 192 b

-- `raw.is_char_boundary(end)`
abbrev pub is_char_boundary : List ℕ → ℕ → Bool
is_char_boundary raw end =
    end == 0
    || (if ltb end (length raw) then is_boundary_byte (get_or raw end 0) else end == length raw)

-- `while !raw.is_char_boundary(end) { end -= 1; }`
unfoldable pub boundary_below : List ℕ → ℕ → ℕ
boundary_below raw zero = zero
boundary_below raw (suc end) =
    let rest = boundary_below raw end in if is_char_boundary raw (suc end) then suc end else rest

-- The 20-byte limit of the wire format.
unfoldable pub truncated : List ℕ → List ℕ
truncated raw = if leb (length raw) 20 then raw else take (boundary_below raw 20) raw

module _ {f : Float} (c : Config f) where
  pub ds18b20_resolution_bits : ℕ
  ds18b20_resolution_bits = elim (c.ds18b20_resolution_config >>= parse_uint 255) [
    | none ↦ 11
    | some v ↦ clamp 9 12 v
  ]

  pub ds18b20_conversion_ms : ℕ
  ds18b20_conversion_ms =
      if ds18b20_resolution_bits == 9
      then 94
      else if ds18b20_resolution_bits == 10
      then 188
      else if ds18b20_resolution_bits == 11
      then 375
      else 750

  unfoldable pub ssr_deadband_c : f.F
  ssr_deadband_c =
      unwrap_or (half f)
        (filtered (λ v. f.le (f.of_int (pos 0)) v) (c.ssr_deadband_config >>= λ v. c.parse_f32 v))

  unfoldable pub status_print_every_seconds : ℕ
  status_print_every_seconds =
      unwrap_or 5
        (filtered (λ v. ltb 0 v) (c.status_print_every_seconds_config >>= parse_uint u64_max))

  pub status_print_interval_cycles : ℕ
  status_print_interval_cycles =
      let millis = min (status_print_every_seconds * 1000) u64_max in
      let cycles = min (millis + (control_period_ms - 1)) u64_max / control_period_ms in
      min (max cycles 1) u32_max

  unfoldable pub device_hostname : List ℕ
  device_hostname =
      truncated (unwrap_or device_hostname_default (filtered non_empty c.device_hostname_config))

  unfoldable pub device_hostname_bytes : List ℕ
  device_hostname_bytes =
      copy_at (replicate hostname_max_len 0) 0
        (take (min (length device_hostname) hostname_max_len) device_hostname)

  pub udp_server_port : ℕ
  udp_server_port =
      unwrap_or 47890 (filtered (λ p. ltb 1024 p) (c.udp_server_port_config >>= parse_uint 65535))
