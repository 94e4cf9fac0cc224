-- ===== src/Telemetry/Snapshots.antt =====
-- The current snapshot of each device, and when it goes stale (src/pitblu_core/telemetry.py).
use pitblu_core.Prelude.{
  Bool, Exec, List, Option, String, [], any, false, if◌then◌else◌, insert, keep, leb, lookup, map,
  modify, nat_eq, none, not, ok, option_eq, remove, some, string_eq, true, ℕ, ◌&&◌, ◌++◌, ◌+◌, ◌==◌,
  ◌>>◌, ◌||◌, ◌∷◌,
}
use pitblu_core.Protocol.{Celsius}
use pitblu_core.Models.{Datetime, DeviceSnapshot, ProbeReading, TelemetrySource}
use pitblu_core.Events.{
  EventType, Payload, availability, battery, battery_level, connection_state, device_availability,
  device_connection, probe_availability, probe_state, probe_temperature, temperature,
}
use pitblu_core.Telemetry.{CurrentSnapshot, Draft, TelemetryState, announce, announce_all}
use pitblu_core.Telemetry.Heartbeats.{communication_succeeded}

-- Not skipped by the loop of `mark_stale`: not stale yet, and forced or past its deadline.
abbrev pub is_due : ℕ → ℕ → Option String → String × CurrentSnapshot → Bool
is_due stale_after now force (device, current) =
    not current.stale
    && (force == some device || leb (current.snapshot.observed_at.micros + stale_after) now)

abbrev pub mark_entry : ℕ → ℕ → Option String → String × CurrentSnapshot → String × CurrentSnapshot
mark_entry stale_after now force (device, current) =
    if is_due stale_after now force (device, current)
    then (device, record current { stale = true })
    else (device, current)

lost_probe : TelemetrySource → Datetime → String → ProbeReading → Draft
lost_probe source now reason probe = record {
  kind = probe_availability;
  probe = some probe.number;
  observed_sequence = probe.sequence;
  source = source;
  observed_at = now;
  payload = probe_state false probe.present (some reason);
}

-- The events for one device that has gone stale.
unfoldable pub lost_drafts : DeviceSnapshot → Datetime → String → List Draft
unfolding lost_probe
lost_drafts snapshot now reason =
    record {
      kind = device_availability;
      probe = none;
      observed_sequence = snapshot.sequence;
      source = snapshot.source;
      observed_at = now;
      payload = availability false (some reason);
    }
    ∷ record {
      kind = battery;
      probe = none;
      observed_sequence = snapshot.sequence;
      source = snapshot.source;
      observed_at = now;
      payload = battery_level false none (some reason);
    }
    ∷ map (lost_probe snapshot.source now reason) snapshot.probes

-- The events of the loop of `mark_stale`.
unfoldable pub announce_lost :
    Datetime → String → List (String × CurrentSnapshot) → TelemetryState → TelemetryState
announce_lost now reason [] s = s
announce_lost now reason ((device, current) ∷ rest) s =
    announce_lost now reason rest (announce_all device (lost_drafts current.snapshot now reason) s)

-- `mark_stale`: the devices that it changed, and the state
unfoldable pub mark_stale :
    Datetime → Option String → String → TelemetryState → List String × TelemetryState
mark_stale now force reason s =
    let due = keep (is_due s.stale_after now.micros force) s.current in
    (
      map (λ entry. entry.0) due,
      announce_lost now reason due
          (record s { current = map (mark_entry s.stale_after now.micros force) s.current }),
    )

-- `battery_observed_at or observed_at`
abbrev pub battery_time : DeviceSnapshot → Datetime
battery_time s = elim s.battery_observed_at [ none ↦ s.observed_at | some t ↦ t ]

-- Whether the battery's event is published again.
battery_is_new : Option CurrentSnapshot → DeviceSnapshot → Bool
battery_is_new none snapshot = true
battery_is_new (some current) snapshot =
    current.stale || not ((battery_time snapshot).micros == (battery_time current.snapshot).micros)

abbrev temperature_draft : DeviceSnapshot → ProbeReading → Option Celsius → List Draft
temperature_draft snapshot probe none = []
temperature_draft snapshot probe (some t) =
    if probe.available && probe.present
    then (record {
      kind = probe_temperature;
      probe = some probe.number;
      observed_sequence = probe.sequence;
      source = snapshot.source;
      observed_at = snapshot.observed_at;
      payload = temperature t;
    }
        ∷ [])
    else []

probe_drafts : DeviceSnapshot → List ProbeReading → List Draft
probe_drafts snapshot [] = []
probe_drafts snapshot (probe ∷ probes) =
    record {
      kind = probe_availability;
      probe = some probe.number;
      observed_sequence = probe.sequence;
      source = snapshot.source;
      observed_at = snapshot.observed_at;
      payload = probe_state probe.available probe.present none;
    }
    ∷ (temperature_draft snapshot probe probe.temperature_c ++ probe_drafts snapshot probes)

battery_draft : DeviceSnapshot → Draft
battery_draft snapshot = record {
  kind = battery;
  probe = none;
  observed_sequence = snapshot.sequence;
  source = snapshot.source;
  observed_at = battery_time snapshot;
  payload = battery_level snapshot.battery_available snapshot.battery_percent none;
}

-- The events of an accepted snapshot.
unfoldable pub snapshot_drafts : Option CurrentSnapshot → DeviceSnapshot → List Draft
unfolding battery_is_new probe_drafts battery_draft
snapshot_drafts current snapshot =
    record {
      kind = device_availability;
      probe = none;
      observed_sequence = snapshot.sequence;
      source = snapshot.source;
      observed_at = snapshot.observed_at;
      payload = availability (any (λ p. p.available) snapshot.probes) none;
    }
    ∷ record {
      kind = device_connection;
      probe = none;
      observed_sequence = snapshot.sequence;
      source = snapshot.source;
      observed_at = snapshot.observed_at;
      payload = connection_state "polling";
    }
    ∷ ((if battery_is_new current snapshot then battery_draft snapshot ∷ [] else [])
        ++ probe_drafts snapshot snapshot.probes)

-- `current is not None and snapshot.observed_at <= current.snapshot.observed_at`
abbrev pub is_not_newer : DeviceSnapshot → Option CurrentSnapshot → Bool
is_not_newer snapshot none = false
is_not_newer snapshot (some current) =
    leb snapshot.observed_at.micros current.snapshot.observed_at.micros

unfoldable pub note_success :
    String → DeviceSnapshot → Option Datetime → Exec TelemetryState (Unit {0})
note_success device snapshot none s = (ok tt, s)
note_success device snapshot (some t) s = communication_succeeded device t snapshot.source s

-- The rest of `record` once the snapshot is known to be newer.
unfoldable pub accept_snapshot :
    String → ℕ → DeviceSnapshot → Option CurrentSnapshot → TelemetryState → TelemetryState
accept_snapshot device ref snapshot current s =
    announce_all device (snapshot_drafts current snapshot) (record s {
      current = insert device (record { snapshot = snapshot; ref = ref; stale = false }) s.current;
      stale_tasks = insert device ref (remove device s.stale_tasks);
    })

-- The statements of `record` behind its early return.
unfoldable pub record_newer :
    String → ℕ → DeviceSnapshot → Option CurrentSnapshot → Exec TelemetryState (Unit {0})
unfolding note_success accept_snapshot
record_newer device ref snapshot current = do
  note_success device snapshot snapshot.successful_communication_at
  modify (accept_snapshot device ref snapshot current)

-- The method `record`; `ref` is the identity of the snapshot, `now` the time that `mark_stale` reads.
unfoldable pub record_snapshot :
    String → ℕ → DeviceSnapshot → Datetime → Exec TelemetryState (Unit {0})
record_snapshot device ref snapshot now s =
    let current = lookup device s.current in
    if is_not_newer snapshot current
    then (ok tt, (mark_stale now none "stale" s).1)
    else record_newer device ref snapshot current s

unfoldable pub deadline_present :
    Option CurrentSnapshot → ℕ → Datetime → TelemetryState → TelemetryState
deadline_present none ref now s = s
deadline_present (some current) ref now s =
    if current.ref == ref then (mark_stale now none "stale" s).1 else s

-- `_mark_stale_after_deadline` from the end of its sleep on
unfoldable pub snapshot_deadline : String → ℕ → Datetime → TelemetryState → TelemetryState
unfolding deadline_present
snapshot_deadline device ref now s = deadline_present (lookup device s.current) ref now s

abbrev pub connection_draft : DeviceSnapshot → Datetime → EventType → Payload → Draft
connection_draft snapshot now kind payload = record {
  kind = kind;
  probe = none;
  observed_sequence = snapshot.sequence;
  source = snapshot.source;
  observed_at = now;
  payload = payload;
}

unfoldable pub connection_present :
    String
    → String
    → Option CurrentSnapshot
    → Datetime
    → Datetime
    → Datetime
    → TelemetryState
    → TelemetryState
connection_present device state none t0 t1 t2 s = s
connection_present device state (some current) t0 t1 t2 s =
    let told =
      announce device
        (connection_draft current.snapshot t0 device_connection (connection_state state)) s in
    if state == "disconnected"
    then announce device
        (connection_draft current.snapshot t2 device_availability
          (availability false (some "disconnected")))
        (mark_stale t1 (some device) "disconnected" told).1
    else told

-- The method `connection`, with the three times that it may read.
unfoldable pub connection :
    String → String → Datetime → Datetime → Datetime → TelemetryState → TelemetryState
unfolding connection_present
connection device state t0 t1 t2 s =
    connection_present device state (lookup device s.current) t0 t1 t2 s
