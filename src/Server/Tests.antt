-- ===== src/Server/Tests.antt =====
-- The theorems on the server's store at concrete inputs.
use brewster.Common.{
  ℕ, ◌+◌, ◌≡◌, refl, ◌⊎◌, true, false, Option, none, some, List, [], ◌∷◌, arith, replicate,
}
use brewster.Common.Int.{ℤ, pos, negsuc}
use brewster.Common.Fixed.{fixed}
use brewster.Server.Packet.{Packet, encode}
use brewster.Server.Store.{
  Store, PersistedRecord, new_store, insert, restore, current_records, should_store, back,
}
use brewster.Server.Store.Restored.{current_records-restore, in_retention}
use brewster.Server.Store.Counts.{insert_all, insert_all-counts}
use brewster.Server.Store.Retention.{insert-InOrder, Pushed}
use brewster.Server.Receive.{Receiver}
use brewster.Server.Receive.Saved.{Saved}
use brewster.Server.Store.{persisted}

abbrev packet_at : ℕ → ℕ → Packet (Option ℤ)
packet_at seq uptime = record {
  version = 5;
  hostname = replicate 20 98;
  seq = seq;
  uptime_s = uptime;
  temps = some (pos 2150) ∷ none ∷ some (pos 1925) ∷ [];
  target_c = some (pos 2000);
  output_pct = 55;
  relay_on = true;
  collecting = true;
  ntp_synced = false;
  history_clear = false;
  heat_on = false;
  window_step = 3;
  on_steps = 5;
  sensor_status = 0 ∷ 255 ∷ 0 ∷ [];
  device_ip = 192 ∷ 168 ∷ 1 ∷ 100 ∷ [];
  sensor_count = 2;
  deadband_c = some (pos 50);
  pid_p_pct = pos 14;
  pid_i_pct = pos 3;
  pid_d_pct = negsuc 1;
}

-- A store that keeps ten seconds and holds a record of second 100.
abbrev store : Store (Option ℤ)
store = record {
  records = record { received_at = 100000000000; packet = packet_at 7 50 } ∷ [];
  retention = 10000000000;
  latest = none;
  collecting = true;
  packets_received = 1;
  packets_dropped = 0;
  last_seq = some 7;
}

insert-InOrder_example :
    ((should_store (packet_at 8 61) (back store.records) ≡ true)
      × Pushed 111000000000
          (packet_at 8 61)
          store
          (insert fixed 111000000000 (packet_at 8 61) store).0.records
      × ((insert fixed 111000000000 (packet_at 8 61) store).1
          ≡ some (persisted fixed 111000000000 (packet_at 8 61))))
    ⊎ ((should_store (packet_at 8 61) (back store.records) ≡ false)
        × ((insert fixed 111000000000 (packet_at 8 61) store).0.records ≡ store.records)
        × ((insert fixed 111000000000 (packet_at 8 61) store).1 ≡ none))
insert-InOrder_example =
    insert-InOrder fixed 0 100000000000 111000000000 (packet_at 8 61) store
      (omega arith, omega arith) (omega arith)

-- The numbers 9 and 10 are missing.
abbrev stream : List (ℕ × Packet (Option ℤ))
stream = (101000000000, packet_at 8 51) ∷ (104000000000, packet_at 11 54) ∷ []

insert_all-counts_example :
    ((insert_all fixed stream store).packets_received
        + (insert_all fixed stream store).packets_dropped
        + 7
      ≡ 1 + 0 + 11)
    × ((insert_all fixed stream store).last_seq ≡ some 11)
insert_all-counts_example =
    insert_all-counts fixed stream 7 store refl
      (omega arith, omega arith, omega arith, (omega arith, omega arith, omega arith, record {}))
      (omega arith) (omega arith)

abbrev line : ℕ → PersistedRecord (Option ℤ)
line t = record {
  t = t;
  seq = 1;
  uptime_s = 1;
  temp0 = some (some (pos 2150));
  temp1 = none;
  temp2 = none;
  target_c = some (pos 2000);
  output_pct = 0;
  relay_on = false;
  heat_on = false;
  device_collecting = true;
  ntp_synced = true;
  window_step = 0;
  on_steps = 0;
  sensor_status = 0 ∷ 255 ∷ 255 ∷ [];
  device_ip = 192 ∷ 168 ∷ 1 ∷ 100 ∷ [];
  sensor_count = 1;
  pid_p_pct = pos 0;
  pid_i_pct = pos 0;
  pid_d_pct = pos 0;
}

abbrev empty_store : Store (Option ℤ)
empty_store = new_store 10000000000

current_records-restore_example :
    current_records fixed (restore fixed 105000000000 (line 90 ∷ line 100 ∷ []) empty_store).0
    ≡ in_retention fixed 95000000000 (line 90 ∷ line 100 ∷ [])
current_records-restore_example =
    current_records-restore fixed 105000000000 (line 90 ∷ line 100 ∷ []) empty_store refl
      ((refl, record {}, record {}), ((refl, record {}, record {}), record {})) refl

abbrev receiver : Receiver (Option ℤ)
receiver = record { current_hostname = replicate 20 0; store = empty_store; file = [] }

abbrev datagrams : List (ℕ × List ℕ)
datagrams = (101000000000, encode fixed (packet_at 8 51)) ∷ (102000000000, 66 ∷ []) ∷ []
