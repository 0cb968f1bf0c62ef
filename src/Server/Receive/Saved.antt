-- ===== src/Server/Receive/Saved.antt =====
-- The file has every record of the store, whatever packets arrive.
use brewster.Common.{◌<◌}
use brewster.Common.{ℕ, ◌-◌, ◌≡◌, List, ◌++◌, map}
use brewster.Common.Float.{Float}
use brewster.Server.Packet.{Packet}
use brewster.Server.Store.{Record, Store, PersistedRecord, persisted, current_records}
use brewster.Server.Store.{Record}
use brewster.Common.{All}

module _ (f : Float) (end : ℕ) where
  open f use {F}

  -- The lines of records.
  abbrev pub lines : List (Record F) → List (PersistedRecord F)
  lines rs = map (λ r. persisted f r.received_at r.packet) rs

  -- The file is the lines of the records of the store, with nothing in front but lines of records
  -- that are out of the retention time at the time `end`.
  abbrev pub Saved : Store F → List (PersistedRecord F) → Type 0
  Saved g file =
      (old : List (Record F)) × (file ≡ lines old ++ current_records f g)
      × All (λ r. r.received_at < end - g.retention) old
