-- ===== src/Storage/Init/Scanning/Frame.antt =====
-- How a write of one slot and the erase of a sector change what the slots hold.
use brewster.Common.{
  ℕ, zero, suc, ◌+◌, ◌*◌, ◌≤◌, ◌<◌, ◌≡◌, refl, sym, ap, ◌≢◌, ◌⊎◌, true, none, some, List, arith,
  length,
}
use brewster.Common.Words.{wrapping_add32, saturating_mul32}
use native.Mathlib.Decide.{ℕ_discrete}
use mathlib.Core.Path.{subst}
use brewster.Storage.{Flash, FlashLaws}
use brewster.Storage.Record.{history_record_valid}
use brewster.Storage.Init.Scanning.{valid_at, valid_below}

pub slot_offset :
    (base j : ℕ)
    → base + 16 * j + 16 < 4294967296
    → wrapping_add32 base (saturating_mul32 j 16) ≡ base + 16 * j
slot_offset base j h = ground arith

module _ (fl : Flash) (laws : FlashLaws fl) where
  pub valid_at-write_self :
      (d : fl.Dev) (base w : ℕ) (raw : List ℕ)
      → base + 16 * w + 16 < 4294967296
      → length raw ≡ 16
      → history_record_valid raw ≡ true
      → (fl.write d (base + 16 * w) raw).0 ≡ none
      → valid_at fl (fl.write d (base + 16 * w) raw).1 base w ≡ some raw
  unfolding valid_at
  valid_at-write_self d base w raw h len v ok =
      rw
        (
          slot_offset base w h,
          subst (λ n. fl.read (fl.write d (base + 16 * w) raw).1 (base + 16 * w) n ≡ some raw) len
              (laws.read-write d (base + 16 * w) raw ok),
        )
        (rw v)

  pub valid_at-write_ne :
      (d : fl.Dev) (base w j : ℕ) (raw : List ℕ)
      → base + 16 * j + 16 < 4294967296
      → length raw ≡ 16
      → j ≢ w
      → valid_at fl (fl.write d (base + 16 * w) raw).1 base j ≡ valid_at fl d base j
  unfolding valid_at
  valid_at-write_ne d base w j raw h len ne = rw (
    slot_offset base j h,
    laws.read-write_apart d (base + 16 * w) raw (base + 16 * j) 16 (omega arith),
  )

  -- A slot inside an erased range holds no valid record.
  pub valid_at-erase_in :
      (d : fl.Dev) (base from to j : ℕ)
      → base + 16 * j + 16 < 4294967296
      → (fl.erase d from to).0 ≡ none
      → from ≤ base + 16 * j
      → base + 16 * j + 16 ≤ to
      → valid_at fl (fl.erase d from to).1 base j ≡ none
  unfolding valid_at history_record_valid
  valid_at-erase_in d base from to j h ok lo hi =
      rw (slot_offset base j h, laws.read-erase d from to (base + 16 * j) 16 ok lo hi)

  pub valid_at-erase_out :
      (d : fl.Dev) (base from to j : ℕ)
      → base + 16 * j + 16 < 4294967296
      → (base + 16 * j + 16 ≤ from) ⊎ (to ≤ base + 16 * j)
      → valid_at fl (fl.erase d from to).1 base j ≡ valid_at fl d base j
  unfolding valid_at
  valid_at-erase_out d base from to j h apart =
      rw (slot_offset base j h, laws.read-erase_apart d from to (base + 16 * j) 16 apart)

-- A device that differs at no slot below `n` holds as many valid records there.
pub valid_below-same :
    (fl : Flash) (d d' : fl.Dev) (base n : ℕ)
    → ((j : ℕ) → j < n → valid_at fl d' base j ≡ valid_at fl d base j)
    → valid_below fl d' base n ≡ valid_below fl d base n
unfolding valid_below
valid_below-same fl d d' base zero h = refl
valid_below-same fl d d' base (suc n) h =
    ground (arith, h n (omega arith), valid_below-same fl d d' base n (λ j hj. h j (omega arith)))

-- One more valid record, where an invalid slot was filled and the others stayed.
pub valid_below-fill :
    (fl : Flash) (d d' : fl.Dev) (base n w : ℕ) (raw : List ℕ)
    → w < n
    → valid_at fl d base w ≡ none
    → valid_at fl d' base w ≡ some raw
    → ((j : ℕ) → j < n → j ≢ w → valid_at fl d' base j ≡ valid_at fl d base j)
    → valid_below fl d' base n ≡ suc (valid_below fl d base n)
unfolding valid_below
valid_below-fill fl d d' base zero w raw hw e e' h = absurd (omega arith)
valid_below-fill fl d d' base (suc n) w raw hw e e' h = elim (ℕ_discrete w n) [
  | yes p ↦
      rw (rw p at e, rw p at e', valid_below)
        (ap suc (valid_below-same fl d d' base n (λ j hj. h j (omega arith) (omega arith))))
  | no p ↦ ground (
    arith,
    h n (omega arith) (λ q. p (sym q)),
    valid_below-fill fl d d' base n w raw (omega arith) e e' (λ j hj ne. h j (omega arith) ne),
  )
]
