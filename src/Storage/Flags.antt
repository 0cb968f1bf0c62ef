-- ===== src/Storage/Flags.antt =====
-- The feature flags: `flags_init`, `persist_flags` and the two setters.
pub mod RoundTrip
use brewster.Common.{
  ℕ, zero, suc, ◌+◌, ◌-◌, ◌*◌, ◌/◌, ◌%◌, ◌^◌, ◌≤◌, ◌<◌, min, ◌≡◌, refl, sym, ap, ◌∙◌, ◌≢◌, ◌⊎◌, inl,
  inr, Bool, true, false, not, ◌&&◌, ◌||◌, Option, none, some, List, [], ◌∷◌, ◌++◌, map, append-nil,
  append_assoc, arith, ltb, leb, ◌==◌, if◌then◌else◌, ltb→lt, lt→ltb, leb→le, ==_iff, Bool-cases,
  Option-cases, ◌>>=◌, is_some, length, get_elem?, set, get_or, take, drop, replicate, slice,
  copy_at, All, bytes_eq, bytes_eq_refl, bytes_eq→eq, length-append, length-set, length-take,
  length-drop, length-replicate, length-map,
}
use brewster.Common.Int.{
  ℤ, pos, negsuc, pos_part, neg_part, ◌+ℤ◌, ◌-ℤ◌, ◌≤ℤ◌, ltb_ℤ, clamp_ℤ, ◌==ℤ◌,
}
use brewster.Common.Words.{
  IsByte, IsU16, IsU32, u32_max, wrapping_add32, wrapping_sub32, saturating_add32, saturating_mul32,
  le_bytes16, from_le16, le_bytes32, from_le32, be_bytes16, from_be16, be_bytes32, bits8, signed8,
  bits16, signed16, bits32, signed32, i16_min, i16_max, i32_min, i32_max, from_le16-le_bytes16,
  from_le32-le_bytes32, signed16-bits16, signed32-bits32, signed8-bits8, bits8-signed8,
  bits16-IsU16, bits32-IsU32,
}
use brewster.Common.Bits.{holds_below, holds_below_lem}
use brewster.Common.Float.{
  Float, of_centi, half, clamp_f, as_i8, as_i16, as_i32, as_u8, as_u16, as_u32,
}
use Prim.Native.Nat.{bit_and, bit_or, bit_xor, max}
use brewster.Storage.{
  Flash, Storage, StorageError, missing_partition, partition_too_small, not_initialized, flash,
}

abbrev pub flags_store_offset_in_partition : ℕ
flags_store_offset_in_partition = 0x200

abbrev pub flags_store_size : ℕ
flags_store_size = 9

-- `b"BRWF"`
abbrev pub flags_store_magic : List ℕ
flags_store_magic = 66 ∷ 82 ∷ 87 ∷ 70 ∷ []

abbrev pub flags_store_version : ℕ
flags_store_version = 1

abbrev pub required : ℕ
required = flags_store_offset_in_partition + flags_store_size

pub flags_offset : ℕ → ℕ
flags_offset partition_offset = wrapping_add32 partition_offset flags_store_offset_in_partition

pub flags_byte : Bool → Bool → Bool → ℕ
flags_byte http prometheus collecting =
    let a : ℕ = if http then bit_or 0 1 else 0 in
    let b : ℕ = if prometheus then bit_or a 2 else a in if collecting then bit_or b 4 else b

-- `[0xFF; 9]` with the magic, the version and the flags put in.
pub flags_record : ℕ → List ℕ
flags_record flags =
    set (set (copy_at (replicate flags_store_size 0xFF) 0 flags_store_magic) 4 flags_store_version)
      5 flags

module _ (fl : Flash) where
  pub flags_init : fl.Dev → ℕ → ℕ → Storage fl.Dev → Storage fl.Dev
  flags_init d partition_offset partition_len s =
      if ltb partition_len required
      then s
      else elim (fl.read d (flags_offset partition_offset) flags_store_size) [
        | none ↦ s
        | some raw ↦
            (if not (bytes_eq (slice raw 0 4) flags_store_magic)
                || not (get_or raw 4 0 == flags_store_version)
              then s
              else record s {
                feature_http_enabled = not (bit_and (get_or raw 5 0) 1 == 0);
                feature_prometheus_enabled = not (bit_and (get_or raw 5 0) 2 == 0);
                collection_enabled_persisted = not (bit_and (get_or raw 5 0) 4 == 0);
              })
      ]

  unfoldable pub persist_flags :
      Bool → Bool → Bool → Storage fl.Dev → Option (StorageError fl.Error) × Storage fl.Dev
  persist_flags http prometheus collecting s =
      if s.target_store_partition_len == 0
      then (some missing_partition, s)
      else if ltb s.target_store_partition_len required
      then (some partition_too_small, s)
      else elim s.flash_storage [
        | none ↦ (some not_initialized, s)
        | some d ↦
            (let (error, d') =
                fl.write d (flags_offset s.target_store_offset)
                  (flags_record (flags_byte http prometheus collecting)) in
              let s' = record s { flash_storage = some d' } in
              elim error [ none ↦ (none, s') | some e ↦ (some (flash e), s') ])
      ]

  unfoldable pub set_features_persistent :
      Bool → Bool → Storage fl.Dev → Option (StorageError fl.Error) × Storage fl.Dev
  set_features_persistent http prometheus s =
      persist_flags http prometheus s.collection_enabled_persisted
        (record s { feature_http_enabled = http; feature_prometheus_enabled = prometheus })

  unfoldable pub set_collection_enabled_persistent :
      Bool → Storage fl.Dev → Option (StorageError fl.Error) × Storage fl.Dev
  set_collection_enabled_persistent enabled s =
      persist_flags s.feature_http_enabled s.feature_prometheus_enabled enabled
        (record s { collection_enabled_persisted = enabled })
