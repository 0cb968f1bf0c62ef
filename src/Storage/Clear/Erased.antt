-- ===== src/Storage/Clear/Erased.antt =====
-- The erase loop ends, and what it leaves is an empty ring.
use brewster.Common.{is_some}
use brewster.Common.{
  ℕ, zero, suc, ◌+◌, ◌-◌, ◌*◌, ◌/◌, ◌%◌, ◌≤◌, ◌<◌, ◌≡◌, refl, ◌∙◌, ◌≢◌, ◌⊎◌, inl, inr, true, false,
  Option, none, some, arith, ltb, ◌==◌, ltb→lt, Bool-cases, Option-cases,
}
use brewster.Common.Words.{wrapping_add32, saturating_mul32}
use native.Mathlib.Decide.{dec_lt}
use brewster.Storage.{Flash, Storage, StorageError, FlashLaws}
use brewster.Storage.Init.{history_init}
use brewster.Storage.Init.Scanning.{valid_at, history_init-empty}
use brewster.Storage.Init.Scanning.Frame.{valid_at-erase_in, valid_at-erase_out}
use brewster.Storage.Clear.{Erasing, erased, failed, stuck, erase_loop, clear_history_persistent}
use brewster.Storage.{flash}

-- A round more than the range has sectors is enough fuel.
erase_loop-ne-stuck :
    (fl : Flash) (k : ℕ) (d : fl.Dev) (sector end : ℕ)
    → end + 4096 < 4294967296
    → end - sector ≤ 4096 * k
    → erase_loop fl (suc k) d sector end ≢ stuck
unfolding erase_loop
erase_loop-ne-stuck fl zero d sector end hm hf e = ground arith
erase_loop-ne-stuck fl (suc k) d sector end hm hf e = ground (
  arith,
  erase_loop-ne-stuck fl k (fl.erase d sector (wrapping_add32 sector 4096)).1
      (wrapping_add32 sector 4096) end,
)

Erasing-cases :
    {Dev E : Type 0} (r : Erasing Dev E)
    → r ≢ stuck
    → ((d' : Dev) × (r ≡ erased d')) ⊎ ((e : E) × (d' : Dev) × (r ≡ failed e d'))
Erasing-cases (erased d') h = inl (d', refl)
Erasing-cases (failed e d') h = inr (e, d', refl)
Erasing-cases stuck h = absurd (h refl)

-- No slot below `end` holds a valid record.
abbrev Emptied : (fl : Flash) → fl.Dev → ℕ → ℕ → Type 0
Emptied fl d base end = (j : ℕ) → base + 16 * j + 16 ≤ end → valid_at fl d base j ≡ none

-- The clear gives a result from every state whose ring ends, with a sector behind it, below 2^32.
pub clear_history_persistent-ends :
    (fl : Flash) (s : Storage fl.Dev)
    → s.history_base_offset + 16 * s.history_capacity + 4096 < 4294967296
    → is_some (clear_history_persistent fl s) ≡ true
unfolding clear_history_persistent
clear_history_persistent-ends fl s room =
    let end = s.history_base_offset + 16 * s.history_capacity in
    let end_lem : wrapping_add32 s.history_base_offset (saturating_mul32 s.history_capacity 16)
        ≡ end =
      ground arith in
    elim (Bool-cases (s.history_capacity == 0)) [
      | inl e ↦ rw e refl
      | inr e ↦ elim (Option-cases s.flash_storage) [
        | inl none_there ↦ rw (e, none_there) refl
        | inr (d, there) ↦
            elim (Erasing-cases (erase_loop fl (suc s.history_capacity) d s.history_base_offset end)
              (erase_loop-ne-stuck fl s.history_capacity d s.history_base_offset end room
                (omega arith))) [
                  | inl (d', p) ↦ rw (e, there, end_lem, p) refl
                  | inr (x, d', p) ↦ rw (e, there, end_lem, p) refl
                ]
      ]
    ]

module _ (fl : Flash) (laws : FlashLaws fl) where
  erase-Emptied :
      (d : fl.Dev) (base sector : ℕ)
      → base % 4096 ≡ 0
      → sector % 4096 ≡ 0
      → sector + 4096 < 4294967296
      → (fl.erase d sector (sector + 4096)).0 ≡ none
      → Emptied fl d base sector
      → Emptied fl (fl.erase d sector (sector + 4096)).1 base (sector + 4096)
  erase-Emptied d base sector hb hs hm ok h j hj = elim (dec_lt (base + 16 * j) sector) [
    | yes p ↦
        valid_at-erase_out fl laws d base sector (sector + 4096) j (omega arith) (inl (omega arith))
        ∙ h j (omega arith)
    | no p ↦
        valid_at-erase_in fl laws d base sector (sector + 4096) j (omega arith) ok (omega arith)
          (omega arith)
  ]

  erase_loop-Emptied :
      (fuel : ℕ) (d d' : fl.Dev) (base sector end : ℕ)
      → base % 4096 ≡ 0
      → sector % 4096 ≡ 0
      → end + 4096 < 4294967296
      → Emptied fl d base sector
      → erase_loop fl fuel d sector end ≡ erased d'
      → Emptied fl d' base end
  unfolding erase_loop
  erase_loop-Emptied zero d d' base sector end hb hs hm h e = cc
  erase_loop-Emptied (suc fuel) d d' base sector end hb hs hm h e =
      elim (Bool-cases (ltb sector end)) [
        | inr p ↦ λ j hj. ground (arith, h j)
        | inl p ↦ elim (Option-cases (fl.erase d sector (sector + 4096)).0) [
          | inr (x, ko) ↦ absurd (ground (arith, next p))
          | inl ok ↦
              erase_loop-Emptied fuel (fl.erase d sector (sector + 4096)).1 d' base (sector + 4096)
                end hb (omega arith) hm
                (erase-Emptied d base sector hb hs (omega (arith, ltb→lt sector end p)) ok h)
                (ground (arith, next p))
        ]
      ]
    where
      next : ltb sector end ≡ true → wrapping_add32 sector 4096 ≡ sector + 4096
      next p = omega (arith, ltb→lt sector end p)

  -- Where the history begins at a sector and its end with a sector behind it lies below 2^32, the
  -- erase loop ends: the clear gives a result, the error of an erase or none. Where it succeeds,
  -- the boot finds an empty ring on the device, and so has the RAM.
  pub clear_history_recovers :
      (s s0 : Storage fl.Dev) (d : fl.Dev) (offset len : ℕ)
      → s.flash_storage ≡ some d
      → 0 < s.history_capacity
      → s.history_base_offset % 4096 ≡ 0
      → s.history_base_offset + 16 * s.history_capacity + 4096 < 4294967296
      → s.history_base_offset ≡ wrapping_add32 offset 0x1000
      → s.history_capacity ≡ (len - 0x1000) / 16
      → (r : Option (StorageError fl.Error) × Storage fl.Dev) × (clear_history_persistent fl s
          ≡ some r)
        × (((x : fl.Error) × (r.0 ≡ some (flash x)))
            ⊎ ((d' : fl.Dev) × (r.0 ≡ none)
                × (r.1.flash_storage ≡ some d')
                × (r.1.history_write_index ≡ 0)
                × (r.1.history_next_seq ≡ 0)
                × (r.1.history_count ≡ 0)
                × ((history_init fl d' offset len s0).history_write_index ≡ 0)
                × ((history_init fl d' offset len s0).history_next_seq ≡ 0)
                × ((history_init fl d' offset len s0).history_count ≡ 0)))
  unfolding clear_history_persistent
  clear_history_recovers s s0 d offset len e hc al room eb ec =
      elim (Erasing-cases (loop end) ends) [
        | inr (x, d', p) ↦ (
          (some (flash x), record s { flash_storage = some d' }),
          rw (e, some_capacity, end_lem, p),
          inl (x, refl),
        )
        | inl (d', p) ↦
            let boot =
              history_init-empty fl d' offset len s0
                (λ j hj. rw (← eb) (emptied d' p j (rw (← ec) at hj))) in
            (
              (
                none,
                record s {
                  history_write_index = 0;
                  history_next_seq = 0;
                  history_count = 0;
                  history_last_persist_uptime_s = 0;
                  flash_storage = some d';
                },
              ),
              rw (e, some_capacity, end_lem, p),
              inr (d', refl, refl, refl, refl, refl, boot.0, boot.1, boot.2),
            )
      ]
    where
      end : ℕ
      end = s.history_base_offset + 16 * s.history_capacity

      loop : ℕ → Erasing fl.Dev fl.Error
      loop to = erase_loop fl (suc s.history_capacity) d s.history_base_offset to

      ends : loop end ≢ stuck
      ends =
          erase_loop-ne-stuck fl s.history_capacity d s.history_base_offset end room (omega arith)

      some_capacity : (s.history_capacity == 0) ≡ false
      some_capacity = ground arith

      end_lem : wrapping_add32 s.history_base_offset (saturating_mul32 s.history_capacity 16) ≡ end
      end_lem = ground arith

      emptied :
          (d' : fl.Dev)
          → loop end ≡ erased d'
          → (j : ℕ) → j < s.history_capacity
          → valid_at fl d' s.history_base_offset j ≡ none
      emptied d' p j hj =
          erase_loop-Emptied (suc s.history_capacity) d d' s.history_base_offset
            s.history_base_offset end al al room (λ i hi. absurd (omega arith)) p j (omega arith)
