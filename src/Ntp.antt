-- ===== src/Ntp.antt =====
-- src/firmware/network/ntp.rs: the poll interval, and the match of a response with its query.
pub mod Interval
pub mod Matching
pub mod Tests
use brewster.Common.{
  ℕ, zero, suc, ◌+◌, ◌-◌, ◌*◌, ◌/◌, ◌%◌, ◌^◌, ◌≤◌, ◌<◌, min, ◌≡◌, refl, sym, ap, ◌∙◌, ◌≢◌, ◌⊎◌, inl,
  inr, Bool, true, false, not, ◌&&◌, ◌||◌, Option, none, some, List, [], ◌∷◌, ◌++◌, map, append-nil,
  append_assoc, arith, ltb, leb, ◌==◌, if◌then◌else◌, ltb→lt, lt→ltb, leb→le, ==_iff, Bool-cases,
  Option-cases, ◌>>=◌, is_some, length, get_elem?, set, get_or, take, drop, replicate, slice,
  copy_at, All, tabulate, tabulate_lem, length-copy_at, bytes_eq, bytes_eq_refl, bytes_eq→eq,
  length-append, length-set, length-take, length-drop, length-replicate, length-map,
}
use brewster.Common.Int.{
  ℤ, pos, negsuc, pos_part, neg_part, ◌+ℤ◌, ◌-ℤ◌, ◌≤ℤ◌, ltb_ℤ, clamp_ℤ, ◌==ℤ◌,
}
use brewster.Common.Words.{
  IsByte, IsU16, IsU32, u32_max, wrapping_add32, wrapping_sub32, saturating_add32, saturating_mul32,
  le_bytes16, from_le16, le_bytes32, from_le32, be_bytes16, from_be16, be_bytes32, bits8, signed8,
  bits16, signed16, bits32, signed32, i16_min, i16_max, i32_min, i32_max, from_le16-le_bytes16,
  from_le32-le_bytes32, signed16-bits16, signed32-bits32, signed8-bits8, bits8-signed8,
  bits16-IsU16, bits32-IsU32,
}
use brewster.Common.Bits.{holds_below, holds_below_lem, both, both_sound, same, same→eq}
use brewster.Common.Float.{
  Float, of_centi, half, clamp_f, as_i8, as_i16, as_i32, as_u8, as_u16, as_u32,
}
use Prim.Native.Nat.{bit_and, bit_or, bit_xor, max}

abbrev ntp_sync_interval_secs : ℕ
ntp_sync_interval_secs = 1800

abbrev ntp_min_poll_secs : ℕ
ntp_min_poll_secs = 60

abbrev ntp_poll_ramp_duration_secs : ℕ
ntp_poll_ramp_duration_secs = 600

-- `saturating_add` and `saturating_mul` of `u64`
abbrev saturated64 : ℕ → ℕ
saturated64 n = min 18446744073709551615 n

abbrev pub ntp_poll_interval_secs_after_sync : ℕ → ℕ
ntp_poll_interval_secs_after_sync age_since_sync_s =
    if leb ntp_poll_ramp_duration_secs age_since_sync_s
    then ntp_sync_interval_secs
    else (let span = ntp_sync_interval_secs - ntp_min_poll_secs in
        saturated64 (
          ntp_min_poll_secs
          + saturated64 (saturated64 (age_since_sync_s * span) + ntp_poll_ramp_duration_secs / 2)
            / ntp_poll_ramp_duration_secs))

-- `PendingQuery`, for a type of peer classes.
pub record PendingQuery (S : Type 0) : Type 0 where
  pub ip : List ℕ
  pub token : List ℕ
  pub t1_ticks : ℕ
  pub source : S
  pub done : Bool

module _ {S : Type 0} where
  -- The query that a response's token is found at, and the queries with that one marked as done.
  pub match_response :
      List ℕ → List (PendingQuery S) → Option (PendingQuery S × List (PendingQuery S))
  match_response resp_token [] = none
  match_response resp_token (p ∷ pending) =
      let later = match_response resp_token pending in
      if not p.done && bytes_eq p.token resp_token
      then some (p, record p { done = true } ∷ pending)
      else later >>= (λ (m : PendingQuery S × List (PendingQuery S)). some (m.0, p ∷ m.1))
