-- ===== src/Sensor/Tests.antt =====
-- The search at a bus of two devices.
use brewster.Common.{◌≡◌, refl, Bool, true, false, List, [], ◌∷◌, map, take}
use mathlib.Core.List.{Memᴰ}
use brewster.Shared.Crc.{crc8_maxim, crc_from, crc_byte, crc_rounds, crc_bit}
use brewster.Common.{◌↔◌}
use brewster.Sensor.Search.{ds18b20_scan_roms, crc_ok}
use brewster.Sensor.Search.Order.{in_order, Increasing}
use brewster.Sensor.Search.Bytes.{bytes_of}
use brewster.Sensor.Search.Line.{line, line_laws, line_idle, command}
use brewster.Sensor.Search.Complete.{ds18b20_scan_roms_complete}

-- [40, 170, 1, 0, 0, 0, 0, 64] and [40, 53, 1, 0, 0, 0, 0, 213], as bits.
abbrev first_code : List Bool
first_code =
    false ∷ false ∷ false ∷ true ∷ false ∷ true ∷ false ∷ false ∷ false ∷ true ∷ false ∷ true
    ∷ false ∷ true ∷ false ∷ true ∷ true ∷ false ∷ false ∷ false ∷ false ∷ false ∷ false ∷ false
    ∷ false ∷ false ∷ false ∷ false ∷ false ∷ false ∷ false ∷ false ∷ false ∷ false ∷ false ∷ false
    ∷ false ∷ false ∷ false ∷ false ∷ false ∷ false ∷ false ∷ false ∷ false ∷ false ∷ false ∷ false
    ∷ false ∷ false ∷ false ∷ false ∷ false ∷ false ∷ false ∷ false ∷ false ∷ false ∷ false ∷ false
    ∷ false ∷ false ∷ true ∷ false ∷ []

abbrev second_code : List Bool
second_code =
    false ∷ false ∷ false ∷ true ∷ false ∷ true ∷ false ∷ false ∷ true ∷ false ∷ true ∷ false ∷ true
    ∷ true ∷ false ∷ false ∷ true ∷ false ∷ false ∷ false ∷ false ∷ false ∷ false ∷ false ∷ false
    ∷ false ∷ false ∷ false ∷ false ∷ false ∷ false ∷ false ∷ false ∷ false ∷ false ∷ false ∷ false
    ∷ false ∷ false ∷ false ∷ false ∷ false ∷ false ∷ false ∷ false ∷ false ∷ false ∷ false ∷ false
    ∷ false ∷ false ∷ false ∷ false ∷ false ∷ false ∷ false ∷ true ∷ false ∷ true ∷ false ∷ true
    ∷ false ∷ true ∷ true ∷ []

abbrev devices : List (List Bool)
devices = first_code ∷ second_code ∷ []

first_crc : crc_ok (bytes_of 8 first_code) ≡ true
unfolding bytes_of crc8_maxim crc_from crc_byte crc_rounds crc_bit
first_crc = refl

second_crc : crc_ok (bytes_of 8 second_code) ≡ true
unfolding bytes_of crc8_maxim crc_from crc_byte crc_rounds crc_bit
second_crc = refl

ds18b20_scan_roms_complete_example :
    ((ds18b20_scan_roms (line devices) 8 (command [])).0
      ≡ map (bytes_of 8) (take 8 (in_order 64 devices)))
    × Increasing (in_order 64 devices)
    × ((r : List Bool) → Memᴰ r (in_order 64 devices) ↔ Memᴰ r devices)
ds18b20_scan_roms_complete_example =
    ds18b20_scan_roms_complete (line devices) devices (line_laws devices) 8 (command [])
      (refl, (refl, record {})) (first_crc, (second_crc, record {}))
      (line_idle devices (command []))
