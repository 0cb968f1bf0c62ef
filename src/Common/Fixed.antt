-- ===== src/Common/Fixed.antt =====
-- A concrete `Float` for the examples: numbers with two decimals, and a NaN.
use brewster.Common.{ℕ, suc, zero, ◌*◌, ◌/◌, Bool, true, false, Option, none, some, not}
use brewster.Common.Int.{ℤ, pos, negsuc, ◌+ℤ◌, ◌-ℤ◌, ltb_ℤ}
use brewster.Common.Float.{Float}

abbrev negated : ℕ → ℤ
negated zero = pos 0
negated (suc n) = negsuc n

abbrev opposite : ℤ → ℤ
opposite (pos n) = negated n
opposite (negsuc n) = pos (suc n)

-- A function of the magnitude, under the sign.
abbrev under_sign : (ℕ → ℕ) → ℤ → ℤ
under_sign g (pos n) = pos (g n)
under_sign g (negsuc n) = negated (g (suc n))

abbrev magnitude : ℤ → ℕ
magnitude (pos n) = n
magnitude (negsuc n) = suc n

abbrev with_sign_of : ℤ → ℤ → ℤ
with_sign_of (pos n) z = z
with_sign_of (negsuc n) z = opposite z

abbrev lift : (ℤ → ℤ → ℤ) → Option ℤ → Option ℤ → Option ℤ
lift g none y = none
lift g (some a) none = none
lift g (some a) (some b) = some (g a b)

abbrev test : (ℤ → ℤ → Bool) → Option ℤ → Option ℤ → Bool
test g none y = false
test g (some a) none = false
test g (some a) (some b) = g a b

abbrev lift1 : (ℤ → ℤ) → Option ℤ → Option ℤ
lift1 g none = none
lift1 g (some a) = some (g a)

abbrev is_none_ℤ : Option ℤ → Bool
is_none_ℤ none = true
is_none_ℤ (some a) = false

abbrev int_part : Option ℤ → ℤ
int_part none = pos 0
int_part (some a) = under_sign (λ n. n / 100) a

abbrev pub fixed : Float
fixed = record {
  F = Option ℤ;
  nan = none;
  is_nan = is_none_ℤ;
  of_int = λ z. some (under_sign (λ n. n * 100) z);
  neg = lift1 opposite;
  abs = lift1 (λ z. pos (magnitude z));
  add = lift (λ a b. a +ℤ b);
  sub = lift (λ a b. a -ℤ b);
  mul = lift (λ a b. with_sign_of b (under_sign (λ n. n * magnitude b / 100) a));
  div = lift (λ a b. with_sign_of b (under_sign (λ n. n * 100 / magnitude b) a));
  lt = test ltb_ℤ;
  le = test (λ a b. not (ltb_ℤ b a));
  trunc = int_part;
}
