-- ===== src/Config/Limits.antt =====
-- The bounds that the settings are held to.
use brewster.Common.{
  ℕ, zero, suc, ◌≤◌, ◌<◌, ◌≡◌, refl, sym, ◌⊎◌, inl, inr, true, Option, none, some, List, arith, leb,
  leb→le, Bool-cases, Option-cases, ◌>>=◌, length, take, length-take,
}
use brewster.Common.Words.{u32_max}
use brewster.Common.Float.{Float}
use brewster.Shared.Text.{parse_uint, parse_uint-le}
use mathlib.Core.Path.{subst}
use brewster.Config.{
  Config, ds18b20_resolution_bits, ds18b20_conversion_ms, status_print_interval_cycles,
  udp_server_port, boundary_below, is_char_boundary, truncated,
}

boundary_below-le : (raw : List ℕ) (end : ℕ) → boundary_below raw end ≤ end
unfolding boundary_below
boundary_below-le raw zero = omega arith
boundary_below-le raw (suc end) = ground (arith, boundary_below-le raw end)

boundary_below-hit :
    (raw : List ℕ) (end : ℕ)
    → is_char_boundary raw (suc end) ≡ true
    → boundary_below raw (suc end) ≡ suc end
unfolding boundary_below
boundary_below-hit raw end p = rw p

-- The cut lies between two characters.
boundary_below-is_char_boundary :
    (raw : List ℕ) (end : ℕ) → is_char_boundary raw (boundary_below raw end) ≡ true
unfolding boundary_below
boundary_below-is_char_boundary raw zero = ground arith
boundary_below-is_char_boundary raw (suc end) = elim (Bool-cases (is_char_boundary raw (suc end))) [
  | inl p ↦ subst (λ n. is_char_boundary raw n ≡ true) (sym (boundary_below-hit raw end p)) p
  | inr p ↦ simp p (boundary_below-is_char_boundary raw end)
]

parsed-le :
    (most : ℕ) (text : Option (List ℕ)) {v : ℕ} → (text >>= parse_uint most) ≡ some v → v ≤ most
parsed-le most none e = cc
parsed-le most (some text) e = parse_uint-le most text e

-- Whatever the build sets: the resolution is from 9 to 12 bits and the conversion takes from 94
-- to 750 ms; the status is printed every 1 to 4294967295 cycles; the port is from 1025 to 65535.
pub settings-bounded :
    {f : Float} (c : Config f)
    → (9 ≤ ds18b20_resolution_bits c)
      × (ds18b20_resolution_bits c ≤ 12)
      × (94 ≤ ds18b20_conversion_ms c)
      × (ds18b20_conversion_ms c ≤ 750)
      × (1 ≤ status_print_interval_cycles c)
      × (status_print_interval_cycles c ≤ u32_max)
      × (1024 < udp_server_port c)
      × (udp_server_port c ≤ 65535)
unfolding ds18b20_resolution_bits ds18b20_conversion_ms status_print_interval_cycles udp_server_port
settings-bounded c = (
  ground arith,
  ground arith,
  ground arith,
  ground arith,
  ground arith,
  ground arith,
  ground arith,
  port_le,
)
  where
    port_le : udp_server_port c ≤ 65535
    port_le = elim (Option-cases (c.udp_server_port_config >>= parse_uint 65535)) [
      | inl e ↦ simp e (omega arith)
      | inr (v, e) ↦ simp e (ground (arith, parsed-le 65535 c.udp_server_port_config e))
    ]

-- The hostname of a packet has at most 20 bytes; it is the configured text, cut off between two
-- characters of UTF-8 where that is longer.
pub truncated_lem :
    (raw : List ℕ)
    → (length (truncated raw) ≤ 20)
      × ((length raw ≤ 20) × (truncated raw ≡ raw)
          ⊎ ((n : ℕ) × (truncated raw ≡ take n raw) × (n ≤ 20) × (is_char_boundary raw n ≡ true)))
unfolding truncated
truncated_lem raw =
    let n = boundary_below raw 20 in
    elim (Bool-cases (leb (length raw) 20)) [
      | inl p ↦ simp p (leb→le _ _ p, inl (leb→le _ _ p, refl))
      | inr p ↦ simp p (
        omega (arith, length-take n raw, boundary_below-le raw 20),
        inr (n, refl, boundary_below-le raw 20, boundary_below-is_char_boundary raw 20),
      )
    ]
