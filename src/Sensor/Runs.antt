-- ===== src/Sensor/Runs.antt =====
-- src/firmware/sensor.rs: commands at a pin that no device pulls low, and at a bus that keeps what
-- it is sent and answers every read with a 1.
use brewster.Common.{
  ℕ, ◌+◌, ◌≡◌, refl, inr, Bool, true, false, none, some, List, [], ◌∷◌, ◌++◌, length, replicate,
}
use brewster.Sensor.Bus.{
  Pins, BitBus, wait_loop, one_wire_reset, one_wire_write_bit, one_wire_read_bit, write_bits,
  read_bits, one_wire_read_bytes, one_wire_write_rom, ds18b20_issue_command,
  ds18b20_read_scratchpad, ds18b20_configure_resolution, ds18b20_start_conversion,
}
use brewster.Status.{no_device, bus_stuck_low}

-- The time that has passed at a pin whose level is `level`.
abbrev still : Bool → Pins
still level = record {
  Pin = ℕ;
  set_low = λ t. t;
  set_high = λ t. t;
  is_high = λ t. (level, t);
  delay_us = λ d t. t + d;
}

-- The bytes that were sent come out in the order of their bits.
abbrev keeper : BitBus
keeper = record {
  Wire = List Bool;
  reset = λ w. (none, []);
  write_bit = λ b w. w ++ (b ∷ []);
  read_bit = λ w. (true, w);
}

reset_alone : one_wire_reset (still true) 0 ≡ (some no_device, 960)
unfolding one_wire_reset wait_loop
reset_alone = refl

reset_stuck : one_wire_reset (still false) 0 ≡ (some bus_stuck_low, 250)
unfolding one_wire_reset wait_loop
reset_stuck = refl

slots : one_wire_read_bit (still true) (one_wire_write_bit (still true) false 0) ≡ (true, 140)
unfolding one_wire_read_bit one_wire_write_bit
slots = refl

start :
    (ds18b20_start_conversion keeper []).1
    ≡ false ∷ false ∷ true ∷ true ∷ false ∷ false ∷ true ∷ true ∷ false ∷ false ∷ true ∷ false
      ∷ false ∷ false ∷ true ∷ false ∷ []
unfolding ds18b20_start_conversion ds18b20_issue_command write_bits
start = refl

resolution : length (ds18b20_configure_resolution keeper 12 []).1 ≡ 40
unfolding ds18b20_configure_resolution one_wire_write_rom write_bits
resolution = refl

scratchpad : (ds18b20_read_scratchpad keeper none []).0 ≡ inr (replicate 9 255)
unfolding ds18b20_read_scratchpad one_wire_read_bytes read_bits write_bits
scratchpad = refl
