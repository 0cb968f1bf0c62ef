-- ===== src/Common/Bits.antt =====
-- Facts about bit operations on a byte, checked at every value.
use Prim.Native.Nat.{ℕ, zero, suc, ◌<◌}
use mathlib.Core.Path.{◌≡◌}
use mathlib.Core.Bool.{Bool, true, false, not, ◌&&◌}
use native.Mathlib.Omega.{arith}

-- The test succeeds at every number below a bound.
unfoldable pub holds_below : (ℕ → Bool) → ℕ → Bool
holds_below test zero = true
holds_below test (suc bound) = holds_below test bound && test bound

pub holds_below_lem :
    (test : ℕ → Bool) (bound i : ℕ) → holds_below test bound ≡ true → i < bound → test i ≡ true
unfolding holds_below
holds_below_lem test zero i ok inside = absurd (omega (arith, inside))
holds_below_lem test (suc bound) i ok inside = ground (arith, ok, holds_below_lem test bound i)

-- A test on Booleans, tried at both values.
abbrev pub both : (Bool → Bool) → Bool
both p = p true && p false

pub both_sound : (p : Bool → Bool) (b : Bool) → both p ≡ true → p b ≡ true
both_sound p true h = ground arith
both_sound p false h = ground arith

-- Both Booleans are the same, as a test.
abbrev pub same : Bool → Bool → Bool
same true b = b
same false b = not b

pub same→eq : (a b : Bool) → same a b ≡ true → a ≡ b
same→eq true b h = ground arith
same→eq false b h = ground arith
