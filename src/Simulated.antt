-- ===== src/Simulated.antt =====
-- src/pitblu_core/adapters/simulated.py: the adapter that makes readings up. If it has a clock, what
-- the clock shows is an argument of the calls that read it. Temperatures and rates are in thousandths
-- of a degree, as in Protocol.
pub mod Controls
pub mod Reads
pub mod Calls
pub mod Total
use pitblu_core.Prelude.{
  Bool, Exec, List, Option, Result, String, [], adapter_disconnected, bind_result, err, false,
  if◌then◌else◌, leb, ltb, modify, nat_eq, negsuc, none, not, ok, pos, reject_if, some, string_eq,
  suc, true, unsupported_device, value_error, zero, ℕ, ◌%◌, ◌&&◌, ◌*◌, ◌+ℤ◌, ◌+◌, ◌-ℤ◌, ◌/◌, ◌==◌,
  ◌||◌, ◌∷◌,
}
use pitblu_core.Protocol.{Celsius}
use pitblu_core.Models.{
  Datetime, DeviceSnapshot, DiscoveredDevice, ProbeReading, device_snapshot, probe_reading,
  simulated, utc,
}

pub data TemperaturePattern : Type 0 where
  rising falling stable : TemperaturePattern

-- `_SimulatedProbe`
pub record SimulatedProbe : Type 0 where
  pub present : Bool
  pub temperature_c : Celsius
  pub pattern : TemperaturePattern
  pub rate_c_per_read : Celsius

pub record SimulatedIgrillAdapter : Type 0 where
  pub probe_count : ℕ
  pub probes : List SimulatedProbe
  pub battery_percent : ℕ
  pub connected : Bool
  pub connection_available : Bool
  pub is_stale : Bool
  pub sequence : ℕ
  pub has_clock : Bool
  pub time : Datetime
  pub last_snapshot : Option DeviceSnapshot

-- `datetime(2026, 1, 1, tzinfo=UTC)`
abbrev pub default_start : Datetime
default_start = utc 1767225600000000

-- The probes from a number on, counted from 0
unfoldable pub new_probes : ℕ → ℕ → List SimulatedProbe
new_probes number zero = []
new_probes number (suc n) =
    record {
      present = true;
      temperature_c = pos (20000 + 1000 * number);
      pattern = stable;
      rate_c_per_read = pos 1000;
    }
    ∷ new_probes (number + 1) n

-- The adapter that `__init__` leaves
abbrev pub new_adapter : ℕ → Datetime → Bool → SimulatedIgrillAdapter
new_adapter probe_count start has_clock = record {
  probe_count = probe_count;
  probes = new_probes 0 probe_count;
  battery_percent = 100;
  connected = false;
  connection_available = true;
  is_stale = false;
  sequence = 0;
  has_clock = has_clock;
  time = start;
  last_snapshot = none;
}

-- `__init__`
unfoldable pub simulated_adapter : ℕ → Option Datetime → Bool → Result SimulatedIgrillAdapter
unfolding new_probes
simulated_adapter probe_count start_time has_clock =
    let start : Datetime = elim start_time [ none ↦ default_start | some t ↦ t ] in
    reject_if (not (leb 1 probe_count && leb probe_count 4))
      (value_error "simulator probe count must be between 1 and 4")
      (reject_if (not start.aware) (value_error "simulator start time must be timezone-aware")
        (ok (new_adapter probe_count start has_clock)))

abbrev pub candidate : DiscoveredDevice
candidate = record {
  discovery_id = "simulated-igrill-v202";
  name = "Simulated iGrill V202";
  model = "igrill-v202";
  rssi = some (negsuc 41);
  identity = some "simulated-igrill-v202";
}

unfoldable pub is_connected : SimulatedIgrillAdapter → Bool
is_connected a = a.connected && a.connection_available

unfoldable pub discover_simulated : ℕ → Exec SimulatedIgrillAdapter (List DiscoveredDevice)
discover_simulated duration a = (
  reject_if (leb duration 0) (value_error "scan duration must be positive")
      (ok (if a.connection_available then candidate ∷ [] else [])),
  a,
)

abbrev pub recover_registered : String → Exec SimulatedIgrillAdapter Bool
recover_registered identity a = (ok false, a)

-- `self._clock() if self._clock is not None else …`
abbrev pub clock_or : Datetime → Datetime → SimulatedIgrillAdapter → Datetime
clock_or now other a = if a.has_clock then now else other

unfoldable pub connect_simulated :
    DiscoveredDevice → Datetime → Exec SimulatedIgrillAdapter Datetime
connect_simulated device now a =
    if not (device.discovery_id == candidate.discovery_id)
    then (err (unsupported_device "unknown simulated device"), a)
    else if not a.connection_available
    then (err (adapter_disconnected "simulated connection loss is active"), a)
    else (ok (clock_or now a.time a), record a { connected = true })

abbrev pub disconnect_simulated : Exec SimulatedIgrillAdapter (Unit {0})
disconnect_simulated = modify (λ a. record a { connected = false })

-- `self._time + timedelta(seconds=5)`
abbrev pub five_seconds_on : Datetime → Datetime
five_seconds_on t = record t { micros = t.micros + 5000000 }

-- The temperature of a probe at a read
unfoldable pub moved : SimulatedProbe → SimulatedProbe
moved p = elim p.pattern [
  | rising ↦ record p { temperature_c = p.temperature_c +ℤ p.rate_c_per_read }
  | falling ↦ record p { temperature_c = p.temperature_c -ℤ p.rate_c_per_read }
  | stable ↦ p
]

-- Thousandths to the nearest tenth; half way to the even one
unfoldable pub nearest_tenth : ℕ → ℕ
nearest_tenth n =
    let down = n / 100 in
    if ltb (n % 100) 50 || (n % 100 == 50 && down % 2 == 0) then 100 * down else 100 * (down + 1)

-- `round(temperature, 1)`
unfoldable pub round_tenth : Celsius → Celsius
unfolding nearest_tenth
round_tenth (pos n) = pos (nearest_tenth n)
round_tenth (negsuc n) = pos 0 -ℤ pos (nearest_tenth (suc n))

-- The arguments of a reading
unfoldable pub simulated_reading : Datetime → ℕ → ℕ → SimulatedProbe → ProbeReading
unfolding round_tenth
simulated_reading time sequence number p = record {
  number = number;
  available = true;
  present = p.present;
  temperature_c = if p.present then some (round_tenth p.temperature_c) else none;
  observed_at = time;
  sequence = sequence;
  source = simulated;
  error_code = none;
}

-- A probe's reading and what comes of the probes behind it, which are left as they were if it is
-- refused
abbrev pub after_reading :
    Result ProbeReading
    → SimulatedProbe
    → List SimulatedProbe
    → Result (List ProbeReading) × List SimulatedProbe
    → Result (List ProbeReading) × List SimulatedProbe
after_reading (err e) p ps rest = (err e, p ∷ ps)
after_reading (ok reading) p ps (readings, others) =
    (bind_result readings (λ rs. ok (reading ∷ rs)), p ∷ others)

-- The loop of `read_snapshot`
unfoldable pub simulate_probes : Datetime → ℕ → ℕ → Exec (List SimulatedProbe) (List ProbeReading)
unfolding moved simulated_reading
simulate_probes time sequence number [] = (ok [], [])
simulate_probes time sequence number (p ∷ ps) =
    after_reading (probe_reading (simulated_reading time sequence number (moved p))) (moved p) ps
      (simulate_probes time sequence (number + 1) ps)

abbrev pub simulated_snapshot : SimulatedIgrillAdapter → List ProbeReading → DeviceSnapshot
simulated_snapshot a readings = record {
  model = "igrill-v202";
  probes = readings;
  battery_percent = some a.battery_percent;
  battery_available = true;
  observed_at = a.time;
  sequence = a.sequence;
  source = simulated;
  battery_observed_at = none;
  successful_communication_at = some a.time;
}

abbrev pub remember_snapshot : Result DeviceSnapshot → Exec SimulatedIgrillAdapter DeviceSnapshot
remember_snapshot (err e) a = (err e, a)
remember_snapshot (ok s) a = (ok s, record a { last_snapshot = some s })

-- The part of `read_snapshot` that makes a new one
unfoldable pub simulate_snapshot : Datetime → Exec SimulatedIgrillAdapter DeviceSnapshot
unfolding simulate_probes
simulate_snapshot now a =
    let sequence = a.sequence + 1 in
    let time = clock_or now (five_seconds_on a.time) a in
    let (readings, probes) = simulate_probes time sequence 1 a.probes in
    let b : SimulatedIgrillAdapter = record a {
      sequence = sequence;
      time = time;
      probes = probes;
    } in
    remember_snapshot (bind_result readings (λ rs. device_snapshot (simulated_snapshot b rs))) b

-- The last snapshot again for a stale adapter that has one, or else a new one
abbrev pub repeat_or :
    Bool
    → Option DeviceSnapshot
    → Exec SimulatedIgrillAdapter DeviceSnapshot
    → Exec SimulatedIgrillAdapter DeviceSnapshot
repeat_or true (some s) fresh a = (ok s, a)
repeat_or true none fresh a = fresh a
repeat_or false last fresh a = fresh a

-- `read_snapshot`
unfoldable pub read_simulated : Datetime → Exec SimulatedIgrillAdapter DeviceSnapshot
unfolding is_connected simulate_snapshot
read_simulated now a =
    if not (is_connected a)
    then (err (adapter_disconnected "simulated iGrill is not connected"), a)
    else repeat_or a.is_stale a.last_snapshot (simulate_snapshot now) a
