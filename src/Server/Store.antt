-- ===== src/Server/Store.antt =====
-- server/src/store.rs: the history of the server. The clock is an argument, in nanoseconds from
-- 1970 on.
pub mod Restored
pub mod Retention
pub mod Counts
use brewster.Common.{
  ℕ, zero, suc, ◌+◌, ◌-◌, ◌*◌, ◌/◌, ◌%◌, ◌^◌, ◌≤◌, ◌<◌, min, ◌≡◌, refl, sym, ap, ◌∙◌, ◌≢◌, ◌⊎◌, inl,
  inr, Bool, true, false, not, ◌&&◌, ◌||◌, Option, none, some, List, [], ◌∷◌, ◌++◌, map, append-nil,
  append_assoc, arith, ltb, leb, ◌==◌, if◌then◌else◌, ltb→lt, lt→ltb, leb→le, ==_iff, Bool-cases,
  Option-cases, ◌>>=◌, is_some, length, get_elem?, set, get_or, take, drop, replicate, slice,
  copy_at, All, tabulate, tabulate_lem, length-copy_at, bytes_eq, bytes_eq_refl, bytes_eq→eq,
  length-append, length-set, length-take, length-drop, length-replicate, length-map,
}
use brewster.Common.Int.{
  ℤ, pos, negsuc, pos_part, neg_part, ◌+ℤ◌, ◌-ℤ◌, ◌≤ℤ◌, ltb_ℤ, clamp_ℤ, ◌==ℤ◌,
}
use brewster.Common.Words.{
  IsByte, IsU16, IsU32, u32_max, wrapping_add32, wrapping_sub32, saturating_add32, saturating_mul32,
  le_bytes16, from_le16, le_bytes32, from_le32, be_bytes16, from_be16, be_bytes32, bits8, signed8,
  bits16, signed16, bits32, signed32, i16_min, i16_max, i32_min, i32_max, from_le16-le_bytes16,
  from_le32-le_bytes32, signed16-bits16, signed32-bits32, signed8-bits8, bits8-signed8,
  bits16-IsU16, bits32-IsU32,
}
use brewster.Common.Bits.{holds_below, holds_below_lem, both, both_sound, same, same→eq}
use brewster.Common.Float.{
  Float, of_centi, half, clamp_f, as_i8, as_i16, as_i32, as_u8, as_u16, as_u32,
}
use Prim.Native.Nat.{bit_and, bit_or, bit_xor, max}
use brewster.Server.Packet.{Packet, packet_version}

-- `Record`
pub record Record (F : Type 0) : Type 0 where
  pub received_at : ℕ
  pub packet : Packet F

-- `Inner`
pub record Store (F : Type 0) : Type 0 where
  pub records : List (Record F)
  pub retention : ℕ
  pub latest : Option (Packet F)
  pub collecting : Bool
  pub packets_received : ℕ
  pub packets_dropped : ℕ
  pub last_seq : Option ℕ

pub record PersistedRecord (F : Type 0) : Type 0 where
  pub t : ℕ
  pub seq : ℕ
  pub uptime_s : ℕ
  pub temp0 : Option F
  pub temp1 : Option F
  pub temp2 : Option F
  pub target_c : F
  pub output_pct : ℕ
  pub relay_on : Bool
  pub heat_on : Bool
  pub device_collecting : Bool
  pub ntp_synced : Bool
  pub window_step : ℕ
  pub on_steps : ℕ
  pub sensor_status : List ℕ
  pub device_ip : List ℕ
  pub sensor_count : ℕ
  pub pid_p_pct : ℤ
  pub pid_i_pct : ℤ
  pub pid_d_pct : ℤ

-- `as_secs`
abbrev pub ns_per_s : ℕ
ns_per_s = 1000000000

abbrev pub u64_modulus : ℕ
u64_modulus = 18446744073709551616

abbrev pub store_interval_s : ℕ
store_interval_s = 1

-- The gap in the sequence numbers, unless it is a jump backwards.
abbrev pub gap_after : Option ℕ → ℕ → ℕ
gap_after none seq = 0
gap_after (some last_seq) seq =
    let gap = wrapping_sub32 seq (wrapping_add32 last_seq 1) in
    if ltb 0 gap && ltb gap 0x80000000 then gap else 0

module _ {F : Type 0} where
  -- `Store::new`
  abbrev pub new_store : ℕ → Store F
  new_store retention = record {
    records = [];
    retention = retention;
    latest = none;
    collecting = false;
    packets_received = 0;
    packets_dropped = 0;
    last_seq = none;
  }

  -- The counters and the flag that every packet sets.
  abbrev pub count_packet : Packet F → Store F → Store F
  count_packet pkt g = record g {
    packets_dropped = (g.packets_dropped + gap_after g.last_seq pkt.seq) % u64_modulus;
    packets_received = (g.packets_received + 1) % u64_modulus;
    last_seq = some pkt.seq;
    collecting = pkt.collecting;
    latest = some pkt;
  }

  -- `g.records.back()`
  abbrev pub back : List (Record F) → Option (Record F)
  back [] = none
  back (r ∷ []) = some r
  back (r ∷ r2 ∷ rs) = back (r2 ∷ rs)

  abbrev pub should_store : Packet F → Option (Record F) → Bool
  should_store pkt none = true
  should_store pkt (some last) =
      let last_up = last.packet.uptime_s in
      ltb pkt.uptime_s last_up || leb store_interval_s (pkt.uptime_s - last_up)

  -- The loop that pops what is older than the cutoff off the front.
  unfoldable pub prune : ℕ → List (Record F) → List (Record F)
  prune cutoff [] = []
  prune cutoff (r ∷ rs) =
      let rest = prune cutoff rs in if ltb r.received_at cutoff then rest else r ∷ rs

  abbrev pub latest : Store F → Option (Packet F)
  latest g = g.latest

  abbrev pub set_collecting : Bool → Store F → Store F
  set_collecting enabled g = record g { collecting = enabled }

  unfoldable pub clear : Store F → Store F
  clear g = record g {
    records = [];
    latest = none;
    packets_received = 0;
    packets_dropped = 0;
    last_seq = none;
  }

module _ (f : Float) where
  open f use {F}

  abbrev pub nan_to_null : F → Option F
  nan_to_null v = if f.is_nan v then none else some v

  -- The line of the file for a packet that was received at a time.
  abbrev pub persisted : ℕ → Packet F → PersistedRecord F
  persisted received_at p = record {
    t = received_at / ns_per_s;
    seq = p.seq;
    uptime_s = p.uptime_s;
    temp0 = nan_to_null (get_or p.temps 0 f.nan);
    temp1 = nan_to_null (get_or p.temps 1 f.nan);
    temp2 = nan_to_null (get_or p.temps 2 f.nan);
    target_c = p.target_c;
    output_pct = p.output_pct;
    relay_on = p.relay_on;
    heat_on = p.heat_on;
    device_collecting = p.collecting;
    ntp_synced = p.ntp_synced;
    window_step = p.window_step;
    on_steps = p.on_steps;
    sensor_status = p.sensor_status;
    device_ip = p.device_ip;
    sensor_count = p.sensor_count;
    pid_p_pct = p.pid_p_pct;
    pid_i_pct = p.pid_i_pct;
    pid_d_pct = p.pid_d_pct;
  }

  -- The record is pushed, and old records are pruned.
  abbrev pub push : ℕ → Packet F → Store F → Store F
  push now pkt g = record g {
    records =
        prune (now - g.retention) (g.records ++ (record { received_at = now; packet = pkt } ∷ []));
  }

  unfoldable pub insert : ℕ → Packet F → Store F → Store F × Option (PersistedRecord F)
  insert now pkt g =
      let counted = count_packet pkt g in
      if pkt.collecting && should_store pkt (back g.records)
      then (push now pkt counted, some (persisted now pkt))
      else (counted, none)

  unfoldable pub current_records : Store F → List (PersistedRecord F)
  current_records g = map (λ r. persisted r.received_at r.packet) g.records

  abbrev pub or_nan : Option F → F
  or_nan none = f.nan
  or_nan (some v) = v

  -- The packet that a line stands for.
  abbrev pub packet_of : PersistedRecord F → Packet F
  packet_of r = record {
    version = packet_version;
    hostname = replicate 20 0;
    seq = r.seq;
    uptime_s = r.uptime_s;
    temps = or_nan r.temp0 ∷ or_nan r.temp1 ∷ or_nan r.temp2 ∷ [];
    target_c = r.target_c;
    output_pct = r.output_pct;
    relay_on = r.relay_on;
    collecting = r.device_collecting;
    ntp_synced = r.ntp_synced;
    history_clear = false;
    heat_on = r.heat_on;
    window_step = r.window_step;
    on_steps = r.on_steps;
    sensor_status = r.sensor_status;
    device_ip = r.device_ip;
    sensor_count = r.sensor_count;
    deadband_c = half f;
    pid_p_pct = r.pid_p_pct;
    pid_i_pct = r.pid_i_pct;
    pid_d_pct = r.pid_d_pct;
  }

  -- The loop of `restore`: the records that are in retention.
  pub restored : ℕ → List (PersistedRecord F) → List (Record F)
  restored cutoff [] = []
  restored cutoff (r ∷ rs) =
      let rest = restored cutoff rs in
      if ltb (r.t * ns_per_s) cutoff
      then rest
      else record { received_at = r.t * ns_per_s; packet = packet_of r } ∷ rest

  abbrev pub last_collecting : Bool → List (PersistedRecord F) → Bool
  last_collecting b [] = b
  last_collecting b (r ∷ rs) = last_collecting r.device_collecting rs

  abbrev pub packet_of_record : Option (Record F) → Option (Packet F)
  packet_of_record none = none
  packet_of_record (some r) = some r.packet

  pub restore : ℕ → List (PersistedRecord F) → Store F → Store F × ℕ
  restore now rs g =
      let loaded = restored (now - g.retention) rs in
      let records = g.records ++ loaded in
      (
        record g {
          records = records;
          latest = packet_of_record (back records);
          collecting = last_collecting false rs;
        },
        length loaded,
      )
