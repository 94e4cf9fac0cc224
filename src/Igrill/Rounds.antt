-- ===== src/Igrill/Rounds.antt =====
-- A round of reads (src/pitblu_core/adapters/igrill_v202.py, `read_snapshot`).
use pitblu_core.Prelude.{
  Bool, Exec, List, Option, Result, [], adapter_disconnected, bind_result, err, false,
  if◌then◌else◌, is_some, leb, nat_eq, none, not, ok, some, string_eq, true, ℕ, ◌&&◌, ◌+◌, ◌||◌,
  ◌∷◌,
}
use pitblu_core.Protocol.{Celsius, decode_battery_percent, decode_probe_temperature_c}
use pitblu_core.Models.{
  Datetime, DeviceSnapshot, ProbeReading, device_snapshot, numbers, physical, probe_reading, utc,
}
use pitblu_core.Igrill.{IgrillAdapter, Response, bounded, type_name}

-- One round of reads: the library's answers for the battery and for each probe, and the times read
-- on the way.
pub record Round : Type 0 where
  pub observed_at : ℕ
  pub battery_checked : ℕ
  pub battery : Response
  pub battery_succeeded_at : ℕ
  pub battery_observed_at : ℕ
  pub battery_done : ℕ
  pub probe : ℕ → Response
  pub probe_succeeded_at : ℕ → ℕ

abbrev pub value_of : {A : Type 0} → Result A → Option A
value_of (ok a) = some a
value_of (err e) = none

abbrev pub time_of : {A : Type 0} → Result A → ℕ → Option Datetime
time_of (ok a) t = some (utc t)
time_of (err e) t = none

unfoldable pub battery_result : Round → Result ℕ
unfolding bounded
battery_result r = bind_result (bounded r.battery "battery read timed out") decode_battery_percent

-- The battery's part of `read_snapshot`: the time of its success, if it is read with one.
unfoldable pub read_battery : Round → IgrillAdapter → Option Datetime × IgrillAdapter
unfolding battery_result
read_battery r a =
    if not (is_some a.battery_percent) || leb a.battery_due r.battery_checked
    then (
      time_of (battery_result r) r.battery_succeeded_at,
      record a {
        battery_percent = value_of (battery_result r);
        battery_observed_at = some (utc r.battery_observed_at);
        battery_due = r.battery_done + a.battery_interval;
      },
    )
    else (none, a)

unfoldable pub probe_result : Round → ℕ → Result (Option Celsius)
unfolding bounded
probe_result r number =
    bind_result (bounded (r.probe number) "probe read timed out") decode_probe_temperature_c

-- The arguments of the reading of one probe.
unfoldable pub reading_of : Round → ℕ → ℕ → Result (Option Celsius) → ProbeReading
reading_of r sequence number (err e) = record {
  number = number;
  available = false;
  present = false;
  temperature_c = none;
  observed_at = utc r.observed_at;
  sequence = sequence;
  source = physical;
  error_code = some (type_name e);
}
reading_of r sequence number (ok temperature) = record {
  number = number;
  available = true;
  present = is_some temperature;
  temperature_c = temperature;
  observed_at = utc r.observed_at;
  sequence = sequence;
  source = physical;
  error_code = none;
}

-- A later success replaces an earlier one.
abbrev pub later : Option Datetime → Option Datetime → Option Datetime
later none old = old
later (some t) old = some t

-- The loop over the probes, with the time of the last success.
unfoldable pub read_probes :
    Round → ℕ → List ℕ → Option Datetime → Result (List ProbeReading × Option Datetime)
unfolding probe_result reading_of
read_probes r sequence [] success = ok ([], success)
read_probes r sequence (number ∷ numbers) success =
    let result = probe_result r number in
    let success' = later (time_of result (r.probe_succeeded_at number)) success in
    bind_result (probe_reading (reading_of r sequence number result)) λ reading.
      bind_result (read_probes r sequence numbers success')
        λ (readings, last). ok (reading ∷ readings, last)

abbrev pub probe_numbers : List ℕ
probe_numbers = 1 ∷ 2 ∷ 3 ∷ 4 ∷ []

-- `read_snapshot`; `alive` is whether the client is connected
unfoldable pub read_snapshot : Bool → Round → Exec IgrillAdapter DeviceSnapshot
unfolding read_battery
read_snapshot alive r a =
    if not (is_some a.client && alive)
    then (err (adapter_disconnected "V202 is not connected"), a)
    else (let sequence = a.sequence + 1 in
        let (success, b) = read_battery r (record a { sequence = sequence }) in
        (
          bind_result (read_probes r sequence probe_numbers success) (λ (readings, last).
              device_snapshot (record {
                model = "igrill-v202";
                probes = readings;
                battery_percent = b.battery_percent;
                battery_available = is_some b.battery_percent;
                observed_at = utc r.observed_at;
                sequence = sequence;
                source = physical;
                battery_observed_at = b.battery_observed_at;
                successful_communication_at = last;
              })),
          b,
        ))
