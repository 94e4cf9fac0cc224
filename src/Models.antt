-- ===== src/Models.antt =====
-- src/pitblu_core/models.py: the values that the adapters hand over, and the checks that their
-- construction makes.
pub mod Checks
use pitblu_core.Prelude.{
  Bool, List, Option, Result, String, [], any, false, if◌then◌else◌, is_some, leb, length, ltb, map,
  nat_eq, none, not, ok, reject_if, some, suc, true, value_error, ℕ, ℤ, ◌&&◌, ◌==◌, ◌||◌, ◌∷◌,
}
use pitblu_core.Protocol.{Celsius}

pub data TelemetrySource : Type 0 where
  physical simulated : TelemetrySource

-- A `datetime`: the instant, in microseconds, and whether a time zone is attached.
pub record Datetime : Type 0 where
  pub micros : ℕ
  pub aware : Bool

-- `datetime.now(UTC)` at an instant
abbrev pub utc : ℕ → Datetime
utc t = record { micros = t; aware = true }

pub record DiscoveredDevice : Type 0 where
  pub discovery_id : String
  pub name : String
  pub model : String
  pub rssi : Option ℤ
  pub identity : Option String

pub record ProbeReading : Type 0 where
  pub number : ℕ
  pub available : Bool
  pub present : Bool
  pub temperature_c : Option Celsius
  pub observed_at : Datetime
  pub sequence : ℕ
  pub source : TelemetrySource
  pub error_code : Option String

pub record DeviceSnapshot : Type 0 where
  pub model : String
  pub probes : List ProbeReading
  pub battery_percent : Option ℕ
  pub battery_available : Bool
  pub observed_at : Datetime
  pub sequence : ℕ
  pub source : TelemetrySource
  pub battery_observed_at : Option Datetime
  pub successful_communication_at : Option Datetime

-- `ProbeReading.__post_init__`: the value, or what its construction raises
unfoldable pub probe_reading : ProbeReading → Result ProbeReading
probe_reading p =
    reject_if (not (leb 1 p.number && leb p.number 4))
      (value_error "probe number must be between 1 and 4")
      (reject_if (not p.observed_at.aware)
        (value_error "probe observation time must be timezone-aware")
        (reject_if (ltb p.sequence 1) (value_error "probe sequence must be positive") (
          reject_if (is_some p.temperature_c && (not p.available || not p.present))
            (value_error "a temperature requires an available, present probe") (ok p))))

-- `len(set(numbers))`
unfoldable pub length_set : List ℕ → ℕ
length_set [] = 0
length_set (n ∷ ns) = if any (λ m. n == m) ns then length_set ns else suc (length_set ns)

abbrev pub above_100 : Option ℕ → Bool
above_100 none = false
above_100 (some p) = ltb 100 p

abbrev pub is_naive : Option Datetime → Bool
is_naive none = false
is_naive (some t) = not t.aware

abbrev pub numbers : List ProbeReading → List ℕ
numbers ps = map (λ p. p.number) ps

-- `DeviceSnapshot.__post_init__`
unfoldable pub device_snapshot : DeviceSnapshot → Result DeviceSnapshot
device_snapshot s =
    reject_if
      (not (leb 1 (length (numbers s.probes)) && ltb (length (numbers s.probes)) 5)
        || not (length_set (numbers s.probes) == length (numbers s.probes)))
      (value_error "a snapshot requires one to four unique probes")
      (reject_if (not s.observed_at.aware)
        (value_error "snapshot observation time must be timezone-aware")
        (reject_if (ltb s.sequence 1) (value_error "snapshot sequence must be positive") (
          reject_if (above_100 s.battery_percent)
            (value_error "battery percentage must be between 0 and 100")
            (reject_if (is_some s.battery_percent && not s.battery_available)
              (value_error "a battery value requires battery availability")
              (reject_if (is_naive s.battery_observed_at)
                (value_error "battery observation time must be timezone-aware")
                (reject_if (is_naive s.successful_communication_at)
                  (value_error "successful communication time must be timezone-aware") (ok s)))))))
