-- ===== src/Tests/Device.antt =====
-- The device's payloads, values and connection (src/pitblu_core/protocol.py, models.py,
-- connection.py).
use pitblu_core.Prelude.{
  List, [], arith, false, get_elem?, inl, min, nat_eq, none, ok, pos, refl, some, string_eq, true,
  ℕ, ◌*◌, ◌++◌, ◌+◌, ◌-◌, ◌∷◌, ◌≡◌, ◌≤◌,
}
use pitblu_core.Protocol.{decode_probe_temperature_c}
use pitblu_core.Protocol.Decode.{decode_probe-raw_bytes, raw_bytes}
use pitblu_core.Models.{DeviceSnapshot, ProbeReading, device_snapshot, length_set, physical, utc}
use pitblu_core.Connection.{
  ConnectionStateMachine, connected, connecting, default_backoff, initialising, new_machine,
  next_delay, polling, state_eq, unit, wants_connected,
}
use pitblu_core.Connection.Paths.{
  Call, Passes, connects, drops, polled_was_initialised, run, transitions, visited,
}
use pitblu_core.Connection.Backoff.{IsValidPolicy, next_delay_bounds}

decode_21_degrees : decode_probe_temperature_c (21 ∷ 0 ∷ 255 ∷ []) ≡ ok (some (pos 21000))
unfolding decode_probe_temperature_c
decode_21_degrees = refl

decode_unplugged : decode_probe_temperature_c (0x30 ∷ 0xf8 ∷ []) ≡ ok none
unfolding decode_probe_temperature_c
decode_unplugged = refl

decode_probe-raw_bytes_example : decode_probe_temperature_c (raw_bytes 63536 ++ 7 ∷ []) ≡ ok none
decode_probe-raw_bytes_example = decode_probe-raw_bytes 63536 (7 ∷ []) (omega arith)

abbrev byte : ℕ → List ℕ
byte b = b ∷ []

abbrev pub reading : ℕ → ℕ → ProbeReading
reading number t = record {
  number = number;
  available = true;
  present = true;
  temperature_c = some (pos 63000);
  observed_at = utc t;
  sequence = 1;
  source = physical;
  error_code = none;
}

abbrev pub snapshot_at : ℕ → DeviceSnapshot
snapshot_at t = record {
  model = "igrill-v202";
  probes = reading 1 t ∷ reading 3 t ∷ [];
  battery_percent = some 80;
  battery_available = true;
  observed_at = utc t;
  sequence = 1;
  source = physical;
  battery_observed_at = none;
  successful_communication_at = some (utc t);
}

snapshot_is_accepted : device_snapshot (snapshot_at 9) ≡ ok (snapshot_at 9)
unfolding device_snapshot length_set
snapshot_is_accepted = refl

abbrev connecting_machine : ConnectionStateMachine
connecting_machine = record new_machine { desired = wants_connected; observed = connecting }

abbrev session : List Call
session =
    connects false
    ∷ drops 0
    ∷ connects true
    ∷ transitions initialising
    ∷ transitions connected
    ∷ transitions polling
    ∷ []

session_is_polled : (run new_machine session).observed ≡ polling
unfolding run
session_is_polled = refl

polled_was_initialised_example :
    Passes (connecting ∷ initialising ∷ connected ∷ []) (visited new_machine session)
polled_was_initialised_example =
    polled_was_initialised new_machine session refl (inl session_is_polled)

pub default_is_valid : IsValidPolicy default_backoff
default_is_valid = record {
  some_delay = omega arith;
  positive = omega arith;
  jitter_capped = omega arith;
}

next_delay_bounds_example :
    (base delay : ℕ) × (get_elem? default_backoff.delays (min 7 5) ≡ some base)
    × (next_delay 999999 (record default_backoff { attempt = 7 })
        ≡ (ok delay, record default_backoff { attempt = 8 }))
    × (base * unit * (unit - 200000) ≤ delay)
    × (delay ≤ base * unit * (unit + 200000))
next_delay_bounds_example =
    next_delay_bounds 999999 (record default_backoff { attempt = 7 })
      (record { some_delay = omega arith; positive = omega arith; jitter_capped = omega arith })
      (omega arith)
