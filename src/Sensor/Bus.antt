-- ===== src/Sensor/Bus.antt =====
-- src/firmware/sensor.rs: the pin of the one-wire bus, and the signals and commands on it.
use brewster.Common.{
  ℕ, zero, suc, ◌-◌, ◌*◌, ◌/◌, ◌^◌, ◌⊎◌, inl, inr, Bool, not, Option, none, some, List, [], ◌∷◌,
  ◌==◌, if◌then◌else◌,
}
use Prim.Native.Nat.{bit_and, bit_or}
use brewster.Config.{clamp}
use brewster.Status.{SensorError, bus_stuck_low, no_device}
use brewster.Sensor.{OneWire}

-- The pin and the delays, with all that hangs on the wire.
pub record Pins : Type 1 where
  pub Pin : Type 0
  pub set_low : Pin → Pin
  pub set_high : Pin → Pin
  pub is_high : Pin → Bool × Pin
  pub delay_us : ℕ → Pin → Pin

-- What the commands are made of: `none` is a reset that a device answers.
pub record BitBus : Type 1 where
  pub Wire : Type 0
  pub reset : Wire → Option SensorError × Wire
  pub write_bit : Bool → Wire → Wire
  pub read_bit : Wire → Bool × Wire

abbrev pub onewire_skip_rom : ℕ
onewire_skip_rom = 0xCC

abbrev pub onewire_match_rom : ℕ
onewire_match_rom = 0x55

abbrev pub onewire_search_rom : ℕ
onewire_search_rom = 0xF0

abbrev pub onewire_read_scratchpad : ℕ
onewire_read_scratchpad = 0xBE

abbrev pub onewire_write_scratchpad : ℕ
onewire_write_scratchpad = 0x4E

abbrev pub onewire_convert_temp : ℕ
onewire_convert_temp = 0x44

module _ (ps : Pins) where
  open ps use {Pin, set_low, set_high, is_high, delay_us}

  -- The loop over the tries that are left.
  unfoldable pub wait_loop : ℕ → Pin → Option SensorError × Pin
  wait_loop zero pin = (some bus_stuck_low, pin)
  wait_loop (suc left) pin =
      let (high, pin') = is_high pin in
      let rest = wait_loop left (delay_us 2 pin') in if high then (none, pin') else rest

  abbrev pub one_wire_wait_for_high : Pin → Option SensorError × Pin
  one_wire_wait_for_high pin = wait_loop 125 pin

  -- The pulse, and the look for the devices' answer.
  abbrev pub reset_pulse : Pin → Option SensorError × Pin
  reset_pulse pin =
      let (high, pin') = is_high (delay_us 70 (set_high (delay_us 480 (set_low pin)))) in
      let after = delay_us 410 pin' in if high then (some no_device, after) else (none, after)

  abbrev after_wait : Option SensorError → Pin → Option SensorError × Pin
  after_wait none pin = reset_pulse pin
  after_wait (some error) pin = (some error, pin)

  unfoldable pub one_wire_reset : Pin → Option SensorError × Pin
  one_wire_reset pin = let (waited, pin') = one_wire_wait_for_high pin in after_wait waited pin'

  unfoldable pub one_wire_write_bit : Bool → Pin → Pin
  one_wire_write_bit bit pin =
      if bit
      then delay_us 64 (set_high (delay_us 6 (set_low pin)))
      else delay_us 10 (set_high (delay_us 60 (set_low pin)))

  unfoldable pub one_wire_read_bit : Pin → Bool × Pin
  one_wire_read_bit pin =
      let (bit, pin') = is_high (delay_us 9 (set_high (delay_us 6 (set_low pin)))) in
      (bit, delay_us 55 pin')

  abbrev pub pin_bus : BitBus
  pin_bus = record {
    Wire = Pin;
    reset = one_wire_reset;
    write_bit = one_wire_write_bit;
    read_bit = one_wire_read_bit;
  }

module _ (bus : BitBus) where
  open bus use {Wire, reset, write_bit, read_bit}

  -- The bits that are left, the lowest first.
  unfoldable pub write_bits : ℕ → ℕ → Wire → Wire
  write_bits zero value w = w
  write_bits (suc left) value w =
      write_bits left (value / 2) (write_bit (not (bit_and value 0x01 == 0)) w)

  abbrev pub one_wire_write_byte : ℕ → Wire → Wire
  one_wire_write_byte value w = write_bits 8 value w

  -- `value |= 1 << bit_index`, for the bits that are left.
  unfoldable pub read_bits : ℕ → ℕ → ℕ → Wire → ℕ × Wire
  read_bits zero bit_index value w = (value, w)
  read_bits (suc left) bit_index value w =
      let (bit, w') = read_bit w in
      read_bits left (suc bit_index) (if bit then bit_or value (2 ^ bit_index) else value) w'

  unfoldable pub one_wire_read_bytes : ℕ → Wire → List ℕ × Wire
  one_wire_read_bytes zero w = ([], w)
  one_wire_read_bytes (suc n) w =
      let (value, w') = read_bits 8 0 0 w in
      let (rest, w'') = one_wire_read_bytes n w' in (value ∷ rest, w'')

  unfoldable pub one_wire_write_rom : List ℕ → Wire → Wire
  one_wire_write_rom [] w = w
  one_wire_write_rom (byte ∷ rom) w = one_wire_write_rom rom (one_wire_write_byte byte w)

  -- A device is selected by its code, or every device.
  abbrev pub select_rom : Option (List ℕ) → Wire → Wire
  select_rom (some rom) w = one_wire_write_rom rom (one_wire_write_byte onewire_match_rom w)
  select_rom none w = one_wire_write_byte onewire_skip_rom w

  -- `one_wire_reset(pin, delay)?` in front of the rest of a command.
  abbrev pub after_reset {ℓ} :
      {A : Type ℓ} → Option SensorError × Wire → (Wire → A × Wire) → (SensorError ⊎ A) × Wire
  after_reset (none, w) next = let (a, w') = next w in (inr a, w')
  after_reset (some error, w) next = (inl error, w)

  -- The same for a command that reads nothing.
  abbrev pub command_after : Option SensorError × Wire → (Wire → Wire) → Option SensorError × Wire
  command_after (none, w) next = (none, next w)
  command_after (some error, w) next = (some error, w)

  unfoldable pub ds18b20_issue_command : Option (List ℕ) → ℕ → Wire → Option SensorError × Wire
  ds18b20_issue_command rom command w =
      command_after (reset w) (λ v. one_wire_write_byte command (select_rom rom v))

  unfoldable pub ds18b20_read_scratchpad : Option (List ℕ) → Wire → (SensorError ⊎ List ℕ) × Wire
  ds18b20_read_scratchpad rom w =
      after_reset (reset w) (λ v.
        one_wire_read_bytes 9 (one_wire_write_byte onewire_read_scratchpad (select_rom rom v)))

  -- `0x1F | (r << 5)`
  abbrev pub config_byte : ℕ → ℕ
  config_byte resolution_bits = bit_or 0x1F ((clamp 9 12 resolution_bits - 9) * 32)

  unfoldable pub ds18b20_configure_resolution : ℕ → Wire → Option SensorError × Wire
  ds18b20_configure_resolution resolution_bits w = command_after (reset w) (
      one_wire_write_rom (
        onewire_skip_rom
        ∷ onewire_write_scratchpad
        ∷ 0x00
        ∷ 0x00
        ∷ config_byte resolution_bits
        ∷ []))

  unfoldable pub ds18b20_start_conversion : Wire → Option SensorError × Wire
  ds18b20_start_conversion w = ds18b20_issue_command none onewire_convert_temp w

  -- The interface that the readings use, over the bits.
  abbrev pub one_wire : OneWire
  one_wire = record {
    Wire = Wire;
    start_conversion = ds18b20_start_conversion;
    read_scratchpad = ds18b20_read_scratchpad;
  }
