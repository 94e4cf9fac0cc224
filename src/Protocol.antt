-- ===== src/Protocol.antt =====
-- src/pitblu_core/protocol.py: the payloads of the Weber iGrill's characteristics. A payload is the
-- list of its bytes, each a number below 256.
pub mod Decode
use pitblu_core.Prelude.{
  List, Option, Result, [], err, if◌then◌else◌, length, ltb, nat_eq, none, ok, pos, protocol_error,
  some, take, ℕ, ℤ, ◌*◌, ◌+◌, ◌==◌, ◌∷◌,
}

pub data TemperatureUnit : Type 0 where
  fahrenheit celsius : TemperatureUnit

-- Temperatures are in thousandths of a degree, so that a whole number of degrees is exact.
abbrev pub Celsius : Type 0
Celsius = ℤ

abbrev pub unplugged_probe : ℕ
unplugged_probe = 63536

-- `TemperatureUnit(value)`
unit_of_value : ℕ → Result (Option TemperatureUnit)
unit_of_value value =
    if value == 0
    then ok (some fahrenheit)
    else if value == 1
    then ok (some celsius)
    else err (protocol_error "temperature unit is not recognised")

pub decode_temperature_unit : List ℕ → Result (Option TemperatureUnit)
unfolding unit_of_value
decode_temperature_unit [] =
    err (protocol_error "temperature unit payload must contain at least one byte")
decode_temperature_unit (value ∷ []) = unit_of_value value
decode_temperature_unit (value ∷ _ ∷ _) = ok none

-- `int.from_bytes(payload, byteorder="little", signed=False)`
pub from_bytes : List ℕ → ℕ
from_bytes [] = 0
from_bytes (b ∷ bs) = b + 256 * from_bytes bs

unfoldable pub decode_probe_temperature_c : List ℕ → Result (Option Celsius)
unfolding from_bytes
decode_probe_temperature_c payload =
    if ltb (length payload) 2
    then err (protocol_error "probe payload must contain at least two bytes")
    else (let raw = from_bytes (take 2 payload) in
        if raw == unplugged_probe then ok none else ok (some (pos (raw * 1000))))

-- A payload of one byte, by its value.
battery_of_value : ℕ → Result ℕ
battery_of_value value =
    if ltb 100 value
    then err (protocol_error "battery percentage is outside 0 to 100")
    else ok value

unfoldable pub decode_battery_percent : List ℕ → Result ℕ
unfolding battery_of_value
decode_battery_percent (value ∷ []) = battery_of_value value
decode_battery_percent _ = err (protocol_error "battery payload must contain exactly one byte")
