-- ===== src/Storage/Target.antt =====
-- The target temperature in flash, and `init_persistent_target`, which restores the whole state.
pub mod Reboot
use brewster.Common.{
  ℕ, zero, suc, ◌+◌, ◌-◌, ◌*◌, ◌/◌, ◌%◌, ◌^◌, ◌≤◌, ◌<◌, min, ◌≡◌, refl, sym, ap, ◌∙◌, ◌≢◌, ◌⊎◌, inl,
  inr, Bool, true, false, not, ◌&&◌, ◌||◌, Option, none, some, List, [], ◌∷◌, ◌++◌, map, append-nil,
  append_assoc, arith, ltb, leb, ◌==◌, if◌then◌else◌, ltb→lt, lt→ltb, leb→le, ==_iff, Bool-cases,
  Option-cases, ◌>>=◌, is_some, length, get_elem?, set, get_or, take, drop, replicate, slice,
  copy_at, All, bytes_eq, bytes_eq_refl, bytes_eq→eq, length-append, length-set, length-take,
  length-drop, length-replicate, length-map,
}
use brewster.Common.Int.{
  ℤ, pos, negsuc, pos_part, neg_part, ◌+ℤ◌, ◌-ℤ◌, ◌≤ℤ◌, ltb_ℤ, clamp_ℤ, ◌==ℤ◌,
}
use brewster.Common.Words.{
  IsByte, IsU16, IsU32, u32_max, wrapping_add32, wrapping_sub32, saturating_add32, saturating_mul32,
  le_bytes16, from_le16, le_bytes32, from_le32, be_bytes16, from_be16, be_bytes32, bits8, signed8,
  bits16, signed16, bits32, signed32, i16_min, i16_max, i32_min, i32_max, from_le16-le_bytes16,
  from_le32-le_bytes32, signed16-bits16, signed32-bits32, signed8-bits8, bits8-signed8,
  bits16-IsU16, bits32-IsU32,
}
use brewster.Common.Bits.{holds_below, holds_below_lem}
use brewster.Common.Float.{
  Float, of_centi, half, clamp_f, as_i8, as_i16, as_i32, as_u8, as_u16, as_u32,
}
use Prim.Native.Nat.{bit_and, bit_or, bit_xor, max}
use brewster.Storage.{
  Flash, Entry, Storage, StorageError, missing_partition, partition_too_small, not_initialized,
  out_of_range, flash, target_temp_min_centi, target_temp_max_centi,
}
use brewster.Storage.Init.{history_init}
use brewster.Storage.Flags.{flags_init}

-- `b"BRWT"`
abbrev pub target_store_magic : List ℕ
target_store_magic = 66 ∷ 82 ∷ 87 ∷ 84 ∷ []

abbrev pub target_store_version : ℕ
target_store_version = 1

abbrev pub target_store_size : ℕ
target_store_size = 9

-- `"cfg"`
abbrev pub target_partition_label : List ℕ
target_partition_label = 99 ∷ 102 ∷ 103 ∷ []

unfoldable pub valid_target_centi : ℤ → Bool
valid_target_centi target_centi =
    not (ltb_ℤ target_centi target_temp_min_centi) && not (ltb_ℤ target_temp_max_centi target_centi)

pub target_record : ℤ → List ℕ
target_record target_centi =
    copy_at
      (set (copy_at (replicate target_store_size 0) 0 target_store_magic) 4 target_store_version) 5
      (le_bytes32 (bits32 target_centi))

-- The target in the nine bytes of the record, if they hold one that is valid.
pub read_target : List ℕ → Option ℤ
read_target raw =
    let target_centi =
      signed32 (from_le32 (get_or raw 5 0) (get_or raw 6 0) (get_or raw 7 0) (get_or raw 8 0)) in
    if bytes_eq (slice raw 0 4) target_store_magic && get_or raw 4 0 == target_store_version
    then if valid_target_centi target_centi then some target_centi else none
    else none

-- The loop over the partition table: the first entry with the label.
unfoldable pub find_partition : List Entry → Option Entry
find_partition [] = none
find_partition (e ∷ entries) =
    if bytes_eq e.label target_partition_label then some e else find_partition entries

-- `TARGET_TEMP_CENTI.store`, if a target was loaded.
store_loaded : {Dev : Type 0} → Option ℤ → Storage Dev → Storage Dev
store_loaded none s = s
store_loaded (some c) s = record s { target_temp_centi = c }

module _ (fl : Flash) where
  pub locate : fl.Dev → Storage fl.Dev → Storage fl.Dev
  locate d s = elim (fl.partition_table d >>= find_partition) [
    | none ↦ s
    | some e ↦ record s { target_store_offset = e.offset; target_store_partition_len = e.len }
  ]

  pub load_target : fl.Dev → Storage fl.Dev → Option ℤ
  load_target d s =
      if leb target_store_size s.target_store_partition_len
      then fl.read d s.target_store_offset target_store_size >>= read_target
      else none

  pub init_persistent_target : (f : Float) → fl.Dev → Storage fl.Dev → Option f.F × Storage fl.Dev
  init_persistent_target f d s =
      let s1 = locate d s in
      let loaded = load_target d s1 in
      let s2 = store_loaded loaded s1 in
      let s3 = history_init fl d s1.target_store_offset s1.target_store_partition_len s2 in
      let s4 = flags_init fl d s1.target_store_offset s1.target_store_partition_len s3 in
      (
        elim loaded [ none ↦ none | some c ↦ some (of_centi f c) ],
        record s4 { flash_storage = some d },
      )

  unfoldable pub persist_target_temp_c :
      ℤ → Storage fl.Dev → Option (StorageError fl.Error) × Storage fl.Dev
  persist_target_temp_c target_centi s =
      if s.target_store_partition_len == 0
      then (some missing_partition, s)
      else if ltb s.target_store_partition_len target_store_size
      then (some partition_too_small, s)
      else elim s.flash_storage [
        | none ↦ (some not_initialized, s)
        | some d ↦
            (let (error, d') = fl.write d s.target_store_offset (target_record target_centi) in
              let s' = record s { flash_storage = some d' } in
              elim error [ none ↦ (none, s') | some e ↦ (some (flash e), s') ])
      ]

  module _ (f : Float) where
    open f use {F, of_int, add, sub, mul, le}

    -- `target_c * 100.0`, rounded half away from zero.
    unfoldable pub target_centi_of : F → ℤ
    target_centi_of target_c =
        let scaled = mul target_c (of_int (pos 100)) in
        if le (of_int (pos 0)) scaled
        then as_i32 f (add scaled (half f))
        else as_i32 f (sub scaled (half f))

    unfoldable pub set_target_temp_c_persistent :
        F → Storage fl.Dev → Option (StorageError fl.Error) × Storage fl.Dev
    set_target_temp_c_persistent target_c s =
        let target_centi = target_centi_of target_c in
        if not (valid_target_centi target_centi)
        then (some out_of_range, s)
        else persist_target_temp_c target_centi (record s { target_temp_centi = target_centi })

    unfoldable pub get_target_temp_c : Storage fl.Dev → F
    get_target_temp_c s = of_centi f s.target_temp_centi
