-- ===== src/Sensor/Search/Line.antt =====
-- A line of devices that answer the search, which satisfies `SearchLaws`: the examples run on it.
use brewster.Common.{◌≡◌, refl, Bool, true, false, none, some, List, [], ◌∷◌, if◌then◌else◌}
use brewster.Common.Bits.{same}
use brewster.Status.{no_device}
use brewster.Sensor.Bus.{BitBus, write_bits}
use brewster.Sensor.Search.Order.{null, branch}
use brewster.Sensor.Search.Laws.{SearchLaws}

-- What the devices wait for: the bits of a command that are left, or their turn in a search.
pub data Phase : Type 0 where
  command : List Bool → Phase
  ask answer choose : List (List Bool) → Phase
  off : Phase

-- The bits of `onewire_search_rom`, the lowest first.
abbrev search_command : List Bool
search_command = false ∷ false ∷ false ∷ false ∷ true ∷ true ∷ true ∷ true ∷ []

module _ (devices : List (List Bool)) where
  abbrev on_bit : Bool → Phase → Phase
  on_bit b (command []) = off
  on_bit b (command (c ∷ [])) = if same b c then ask devices else off
  on_bit b (command (c ∷ c2 ∷ cs)) = if same b c then command (c2 ∷ cs) else off
  on_bit b (ask d) = off
  on_bit b (answer d) = off
  on_bit b (choose d) = ask (branch b d)
  on_bit b off = off

  abbrev on_read : Phase → Bool × Phase
  on_read (command cs) = (true, off)
  on_read (ask d) = (null (branch false d), answer d)
  on_read (answer d) = (null (branch true d), choose d)
  on_read (choose d) = (true, off)
  on_read off = (true, off)

  abbrev pub line : BitBus
  line = record {
    Wire = Phase;
    reset = λ w. if null devices then (some no_device, off) else (none, command search_command);
    write_bit = on_bit;
    read_bit = on_read;
  }

  pub line_laws : SearchLaws line devices
  unfolding write_bits
  line_laws = record {
    Idle = λ w. Unit;
    At = λ d w. w ≡ ask d;
    Asked = λ d w. w ≡ answer d;
    Answered = λ d w. w ≡ choose d;
    reset-present = λ w idle busy. rw busy (refl, refl);
    reset-absent = λ w idle e. rw e refl;
    read_id = λ d w e. rw e (refl, refl);
    read_complement = λ d w e. rw e (refl, refl);
    write_choice = λ d b w e. rw e refl;
    finished = λ d w h at. record {};
  }

  pub line_idle : (w : Phase) → (line_laws.Idle) w
  unfolding line_laws
  line_idle w = record {}
