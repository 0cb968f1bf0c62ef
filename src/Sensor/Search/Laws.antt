-- ===== src/Sensor/Search/Laws.antt =====
-- What the search relies on: how devices on the one-wire bus answer it.
use brewster.Common.{◌≡◌, Bool, true, false, none, List, is_some}
use brewster.Sensor.Bus.{BitBus, one_wire_write_byte, onewire_search_rom}
use brewster.Sensor.Search.Order.{null, branch, HasBits}

-- `At d w`: the devices that take part have the bits `d` left. A bit is read twice: the line is
-- high the first time if no device has a 0 there, and the second time if none has a 1. The bit
-- that is written then decides which devices go on.
pub record SearchLaws (bus : BitBus) (devices : List (List Bool)) : Type 1 where
  pub Idle : bus.Wire → Type 0
  pub At : List (List Bool) → bus.Wire → Type 0
  pub Asked : List (List Bool) → bus.Wire → Type 0
  pub Answered : List (List Bool) → bus.Wire → Type 0
  pub reset-present :
      (w : bus.Wire)
      → Idle w
      → null devices ≡ false
      → ((bus.reset w).0 ≡ none)
        × At devices (one_wire_write_byte bus onewire_search_rom (bus.reset w).1)
  pub reset-absent : (w : bus.Wire) → Idle w → null devices ≡ true → is_some (bus.reset w).0 ≡ true
  pub read_id :
      (d : List (List Bool)) (w : bus.Wire)
      → At d w
      → ((bus.read_bit w).0 ≡ null (branch false d)) × Asked d (bus.read_bit w).1
  pub read_complement :
      (d : List (List Bool)) (w : bus.Wire)
      → Asked d w
      → ((bus.read_bit w).0 ≡ null (branch true d)) × Answered d (bus.read_bit w).1
  pub write_choice :
      (d : List (List Bool)) (b : Bool) (w : bus.Wire)
      → Answered d w
      → At (branch b d) (bus.write_bit b w)
  pub finished : (d : List (List Bool)) (w : bus.Wire) → HasBits 0 d → At d w → Idle w
