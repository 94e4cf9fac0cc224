-- ===== src/Telemetry/Views.antt =====
-- What the interface shows of the telemetry (src/pitblu_core/telemetry.py).
use pitblu_core.Prelude.{
  Bool, List, Option, Result, String, [], err, false, if◌then◌else◌, key_error, lookup, map, max,
  none, not, ok, some, string_eq, ℕ, ◌&&◌,
}
use pitblu_core.Protocol.{Celsius}
use pitblu_core.Models.{Datetime, ProbeReading, TelemetrySource}
use pitblu_core.Telemetry.{
  CurrentSnapshot, HeartbeatState, HeartbeatStatus, TelemetryState, disconnected, is_disconnected,
  is_healthy,
}
use pitblu_core.Telemetry.Heartbeats.{status_without_link}
use pitblu_core.Telemetry.Snapshots.{battery_time}

pub record ProbeView : Type 0 where
  pub probe : ℕ
  pub available : Bool
  pub present : Bool
  pub fresh : Bool
  pub temperature_c : Option Celsius
  pub observed_at : Datetime
  pub sequence : ℕ
  pub source : TelemetrySource
  pub error_code : Option String

unfoldable pub probe_view : Bool → ProbeReading → ProbeView
probe_view is_stale p = record {
  probe = p.number;
  available = p.available && not is_stale;
  present = p.present;
  fresh = not is_stale;
  temperature_c = if is_stale then none else p.temperature_c;
  observed_at = p.observed_at;
  sequence = p.sequence;
  source = p.source;
  error_code = if is_stale then some "stale" else p.error_code;
}

-- The probes of a device's entry.
unfoldable pub entry_probes : Option CurrentSnapshot → List ProbeView
unfolding probe_view
entry_probes none = []
entry_probes (some current) = map (probe_view current.stale) current.snapshot.probes

unfoldable pub probes : String → TelemetryState → List ProbeView
unfolding entry_probes
probes device s = entry_probes (lookup device s.current)

abbrev pub entry_time : Option CurrentSnapshot → Option Datetime
entry_time none = none
entry_time (some current) = some current.snapshot.observed_at

unfoldable pub observed_at : String → TelemetryState → Option Datetime
observed_at device s = entry_time (lookup device s.current)

pub record BatteryView : Type 0 where
  pub available : Bool
  pub fresh : Bool
  pub percentage : Option ℕ
  pub observed_at : Datetime
  pub sequence : ℕ
  pub source : TelemetrySource

unfoldable pub battery_view : String → TelemetryState → Option BatteryView
battery_view device s = elim (lookup device s.current) [
  | none ↦ none
  | some current ↦ some (record {
    available = current.snapshot.battery_available && not current.stale;
    fresh = not current.stale;
    percentage = if current.stale then none else current.snapshot.battery_percent;
    observed_at = battery_time current.snapshot;
    sequence = current.snapshot.sequence;
    source = current.snapshot.source;
  })
]

pub record HeartbeatView : Type 0 where
  pub status : HeartbeatStatus
  pub last_success : Option Datetime
  pub fresh : Bool
  pub stale_after : ℕ
  pub sequence : ℕ
  pub source : Option TelemetrySource

-- The status and the freshness that a device shows, by what is wanted of it.
shown : Bool → HeartbeatState → HeartbeatStatus × Bool
shown wanted_off h =
    if wanted_off
    then (disconnected, false)
    else if is_disconnected h.status
    then (status_without_link h, false)
    else (h.status, is_healthy h.status)

-- The method `heartbeat`, without the session's identifier.
unfoldable pub heartbeat : String → Bool → TelemetryState → Result HeartbeatView
unfolding shown
heartbeat device wanted_off s = elim (lookup device s.heartbeats) [
  | none ↦ err (key_error "device")
  | some h ↦ ok (record {
    status = (shown wanted_off h).0;
    last_success = h.last_success;
    fresh = (shown wanted_off h).1;
    stale_after = s.heartbeat_stale_after;
    sequence = max 1 h.sequence;
    source = h.successful_source;
  })
]
