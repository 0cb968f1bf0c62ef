-- ===== src/Server/Receive.antt =====
-- server/src/udp.rs, `run`, with `append` and `clear` of server/src/persist.rs: what the server
-- does with a packet. The file is the list of its records; `disk` says whether it can be written.
pub mod Saved
use brewster.Common.{
  ℕ, zero, suc, ◌+◌, ◌-◌, ◌*◌, ◌/◌, ◌%◌, ◌^◌, ◌≤◌, ◌<◌, min, ◌≡◌, refl, sym, ap, ◌∙◌, ◌≢◌, ◌⊎◌, inl,
  inr, Bool, true, false, not, ◌&&◌, ◌||◌, Option, none, some, List, [], ◌∷◌, ◌++◌, map, append-nil,
  append_assoc, arith, ltb, leb, ◌==◌, if◌then◌else◌, ltb→lt, lt→ltb, leb→le, ==_iff, Bool-cases,
  Option-cases, ◌>>=◌, is_some, length, get_elem?, set, get_or, take, drop, replicate, slice,
  copy_at, All, tabulate, tabulate_lem, length-copy_at, bytes_eq, bytes_eq_refl, bytes_eq→eq,
  length-append, length-set, length-take, length-drop, length-replicate, length-map,
}
use brewster.Common.Int.{
  ℤ, pos, negsuc, pos_part, neg_part, ◌+ℤ◌, ◌-ℤ◌, ◌≤ℤ◌, ltb_ℤ, clamp_ℤ, ◌==ℤ◌,
}
use brewster.Common.Words.{
  IsByte, IsU16, IsU32, u32_max, wrapping_add32, wrapping_sub32, saturating_add32, saturating_mul32,
  le_bytes16, from_le16, le_bytes32, from_le32, be_bytes16, from_be16, be_bytes32, bits8, signed8,
  bits16, signed16, bits32, signed32, i16_min, i16_max, i32_min, i32_max, from_le16-le_bytes16,
  from_le32-le_bytes32, signed16-bits16, signed32-bits32, signed8-bits8, bits8-signed8,
  bits16-IsU16, bits32-IsU32,
}
use brewster.Common.Bits.{holds_below, holds_below_lem, both, both_sound, same, same→eq}
use brewster.Common.Float.{
  Float, of_centi, half, clamp_f, as_i8, as_i16, as_i32, as_u8, as_u16, as_u32,
}
use Prim.Native.Nat.{bit_and, bit_or, bit_xor, max}
use brewster.Server.Packet.{Packet, decode}
use brewster.Server.Store.{Store, PersistedRecord, insert, clear}

-- The static `CURRENT_HOSTNAME`, the store and the file.
pub record Receiver (F : Type 0) : Type 0 where
  pub current_hostname : List ℕ
  pub store : Store F
  pub file : List (PersistedRecord F)

module _ {F : Type 0} where
  -- `persist::append`
  abbrev pub append : Bool → PersistedRecord F → List (PersistedRecord F) → List (PersistedRecord F)
  append disk r file = if disk then file ++ (r ∷ []) else file

  -- `persist::clear`
  abbrev pub clear_file : Bool → List (PersistedRecord F) → List (PersistedRecord F)
  clear_file disk file = if disk then [] else file

  abbrev pub clear_all : Bool → Receiver F → Receiver F
  clear_all disk k = record k { store = clear k.store; file = clear_file disk k.file }

  -- The check of the hostname.
  pub check_hostname : Bool → Packet F → Receiver F → Receiver F
  check_hostname disk pkt k =
      if bytes_eq k.current_hostname (replicate 20 0)
      then record k { current_hostname = pkt.hostname }
      else if not (bytes_eq pkt.hostname k.current_hostname)
      then clear_all disk (record k { current_hostname = pkt.hostname })
      else k

  abbrev pub append_stored :
      Bool → Option (PersistedRecord F) → List (PersistedRecord F) → List (PersistedRecord F)
  append_stored disk none file = file
  append_stored disk (some r) file = append disk r file

module _ (f : Float) where
  open f use {F}

  -- From the check of the hostname to the end of the loop's pass.
  pub accept : Bool → ℕ → Packet F → Receiver F → Receiver F
  accept disk now pkt k =
      let k1 = check_hostname disk pkt k in
      let k2 = if pkt.history_clear then clear_all disk k1 else k1 in
      let (store', stored) = insert f now pkt k2.store in
      record k2 { store = store'; file = append_stored disk stored k2.file }

  abbrev pub accept_decoded : Bool → ℕ → Option (Packet F) → Receiver F → Receiver F
  accept_decoded disk now none k = k
  accept_decoded disk now (some pkt) k = accept disk now pkt k

  -- A pass of the loop, for the bytes that the socket receives.
  pub receive : Bool → ℕ → List ℕ → Receiver F → Receiver F
  receive disk now buf k = accept_decoded disk now (decode f buf) k

  -- Passes, each with the time and the bytes.
  pub run : Bool → List (ℕ × List ℕ) → Receiver F → Receiver F
  run disk [] k = k
  run disk ((now, buf) ∷ inputs) k = run disk inputs (receive disk now buf k)
