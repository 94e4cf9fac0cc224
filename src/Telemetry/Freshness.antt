-- ===== src/Telemetry/Freshness.antt =====
-- What `record` does to the snapshots that are shown (src/pitblu_core/telemetry.py).
use mathlib.Core.Option.{map as map_option}
use pitblu_core.Prelude.{
  ==-refl, Bool-cases, List, Option, Result, String, [], ap, arith, false, if◌then◌else◌, inl, inr,
  insert, leb, lookup, lookup-insert, map, nat_eq, none, ok, option_eq, refl, remove, some,
  string_eq, true, ℕ, ◌<◌, ◌∙◌, ◌∷◌, ◌≡◌,
}
use pitblu_core.Models.{Datetime, DeviceSnapshot, ProbeReading, TelemetrySource, is_naive}
use pitblu_core.Telemetry.{CurrentSnapshot, HeartbeatState, TelemetryState, announce, healthy}
use pitblu_core.Telemetry.Heartbeats.{
  communication_succeeded, ensure_heartbeat, publish_heartbeat, succeeded_present,
}
use pitblu_core.Telemetry.Snapshots.{
  accept_snapshot, is_not_newer, mark_stale, note_success, record_newer, record_snapshot,
  snapshot_drafts,
}
use pitblu_core.Telemetry.Views.{
  ProbeView, entry_probes, entry_time, observed_at, probe_view, probes,
}
use pitblu_core.Telemetry.Staleness.{
  current-announce_all, current-mark_stale, lookup-map-mark_entry, marked,
}

current-publish_heartbeat :
    (device : String) (h : HeartbeatState) (t : Datetime) (s : TelemetryState)
    → (publish_heartbeat device h t s).current ≡ s.current
unfolding publish_heartbeat announce
current-publish_heartbeat device h t s = refl

current-succeeded_present :
    (device : String) (o : Option HeartbeatState) (t : Datetime) (source : TelemetrySource)
    (s : TelemetryState)
    → (succeeded_present device o t source s).current ≡ s.current
unfolding succeeded_present
current-succeeded_present device none t source s = refl
current-succeeded_present device (some h) t source s = ground (
  arith,
  current-publish_heartbeat device
      (record h { status = healthy; last_success = some t; successful_source = some source }) t
      (record s { heartbeat_stale_tasks = remove device s.heartbeat_stale_tasks }),
)

current-note_success :
    (device : String) (snapshot : DeviceSnapshot) (o : Option Datetime) (s : TelemetryState)
    → (note_success device snapshot o s).1.current ≡ s.current
unfolding note_success communication_succeeded ensure_heartbeat
current-note_success device snapshot none s = refl
current-note_success device snapshot (some t) s = ground (
  arith,
  current-succeeded_present device
      (lookup device (ensure_heartbeat device snapshot.source s).heartbeats) t snapshot.source
      (ensure_heartbeat device snapshot.source s),
)

noted :
    (device : String) (snapshot : DeviceSnapshot) (o : Option Datetime) (s : TelemetryState)
    → is_naive o ≡ false
    → (note_success device snapshot o s).0 ≡ ok tt
unfolding note_success communication_succeeded
noted device snapshot none s h = refl
noted device snapshot (some t) s h = ground arith

-- The device's entry after a snapshot that is newer than the one that was held.
current-record_newer :
    (device : String) (ref : ℕ) (snapshot : DeviceSnapshot) (o : Option CurrentSnapshot)
    (s : TelemetryState)
    → is_naive snapshot.successful_communication_at ≡ false
    → (record_newer device ref snapshot o s).1.current
      ≡ insert device (record { snapshot = snapshot; ref = ref; stale = false }) s.current
unfolding record_newer accept_snapshot
current-record_newer device ref snapshot o s h =
    rw (noted device snapshot snapshot.successful_communication_at s h) (
      current-announce_all device (snapshot_drafts o snapshot) _
      ∙ ap (insert device (record { snapshot = snapshot; ref = ref; stale = false }))
          (current-note_success device snapshot snapshot.successful_communication_at s))

-- Which way `record` goes.
record_accepts :
    (device : String) (ref : ℕ) (snapshot : DeviceSnapshot) (now : Datetime) (s : TelemetryState)
    → is_not_newer snapshot (lookup device s.current) ≡ false
    → record_snapshot device ref snapshot now s
      ≡ record_newer device ref snapshot (lookup device s.current) s
unfolding record_snapshot
record_accepts device ref snapshot now s e = rw e

record_refuses :
    (device : String) (ref : ℕ) (snapshot : DeviceSnapshot) (now : Datetime) (s : TelemetryState)
    → is_not_newer snapshot (lookup device s.current) ≡ true
    → record_snapshot device ref snapshot now s ≡ (ok tt, (mark_stale now none "stale" s).1)
unfolding record_snapshot
record_refuses device ref snapshot now s e = rw e

lookup_accepted :
    (device : String) (ref : ℕ) (snapshot : DeviceSnapshot) (now : Datetime) (s : TelemetryState)
    → is_naive snapshot.successful_communication_at ≡ false
    → is_not_newer snapshot (lookup device s.current) ≡ false
    → lookup device (record_snapshot device ref snapshot now s).1.current
      ≡ some (record { snapshot = snapshot; ref = ref; stale = false })
lookup_accepted device ref snapshot now s h e =
    let entry : CurrentSnapshot = record { snapshot = snapshot; ref = ref; stale = false } in
    ap (λ (r : Result Unit × TelemetryState). lookup device r.1.current)
      (record_accepts device ref snapshot now s e)
    ∙ ap (lookup device) (current-record_newer device ref snapshot (lookup device s.current) s h)
    ∙ lookup-insert device device entry s.current
    ∙ rw (==-refl device)

-- A reading as it was taken, and fresh
abbrev pub fresh_view : ProbeReading → ProbeView
fresh_view p = record {
  probe = p.number;
  available = p.available;
  present = p.present;
  fresh = true;
  temperature_c = p.temperature_c;
  observed_at = p.observed_at;
  sequence = p.sequence;
  source = p.source;
  error_code = p.error_code;
}

probe_view_fresh : (p : ProbeReading) → probe_view false p ≡ fresh_view p
unfolding probe_view
probe_view_fresh p = elim (Bool-cases p.available) [
  | inl here ↦ rw here refl
  | inr gone ↦ rw gone refl
]

map-probe_view : (ps : List ProbeReading) → map (probe_view false) ps ≡ map fresh_view ps
map-probe_view [] = refl
map-probe_view (p ∷ ps) = rw (probe_view_fresh p, map-probe_view ps)

-- A snapshot is newer than the entry that is held, if there is one.
abbrev pub IsNewer : DeviceSnapshot → Option CurrentSnapshot → Type 0
IsNewer snapshot none = Unit
IsNewer snapshot (some c) = c.snapshot.observed_at.micros < snapshot.observed_at.micros

newer_is_accepted :
    (snapshot : DeviceSnapshot) (o : Option CurrentSnapshot)
    → IsNewer snapshot o
    → is_not_newer snapshot o ≡ false
newer_is_accepted snapshot none h = refl
newer_is_accepted snapshot (some c) h = ground (arith, h)

-- A snapshot that is newer than the one held is shown at once: each reading is fresh, with the
-- availability, the temperature, the time and the error with which it was taken, whether the device
-- was stale or not; the conditions are that it is newer, and that its success, if it has one, has a
-- time zone.
pub record_shows :
    (device : String) (ref : ℕ) (snapshot : DeviceSnapshot) (now : Datetime) (s : TelemetryState)
    → is_naive snapshot.successful_communication_at ≡ false
    → IsNewer snapshot (lookup device s.current)
    → probes device (record_snapshot device ref snapshot now s).1 ≡ map fresh_view snapshot.probes
unfolding probes
record_shows device ref snapshot now s h e =
    ap entry_probes (
      lookup_accepted device ref snapshot now s h
        (newer_is_accepted snapshot (lookup device s.current) e))
    ∙ (unfold entry_probes in map-probe_view snapshot.probes)

-- The later of the time that is held, if any, and the new one.
abbrev pub newest : Option Datetime → Datetime → Datetime
newest none t = t
newest (some u) t = if leb t.micros u.micros then u else t

newest_old :
    (o : Option CurrentSnapshot) (snapshot : DeviceSnapshot) (a n : ℕ) (device : String)
    → is_not_newer snapshot o ≡ true
    → entry_time (map_option (marked a n none device) o)
      ≡ some (newest (entry_time o) snapshot.observed_at)
newest_old none snapshot a n device e = cc
newest_old (some c) snapshot a n device e = ground arith

newest_new :
    (o : Option CurrentSnapshot) (snapshot : DeviceSnapshot)
    → is_not_newer snapshot o ≡ false
    → snapshot.observed_at ≡ newest (entry_time o) snapshot.observed_at
newest_new none snapshot e = refl
newest_new (some c) snapshot e = ground arith

-- Out of order or repeated, a snapshot never takes the shown time of its device back: afterwards it
-- is the newer of the one held and the snapshot's. The condition is that the snapshot's success, if
-- it has one, has a time zone.
pub record_keeps_newest :
    (device : String) (ref : ℕ) (snapshot : DeviceSnapshot) (now : Datetime) (s : TelemetryState)
    → is_naive snapshot.successful_communication_at ≡ false
    → observed_at device (record_snapshot device ref snapshot now s).1
      ≡ some (newest (observed_at device s) snapshot.observed_at)
unfolding observed_at
record_keeps_newest device ref snapshot now s h =
    elim (Bool-cases (is_not_newer snapshot (lookup device s.current))) [
      | inl old ↦
          ap (λ (r : Result Unit × TelemetryState). entry_time (lookup device r.1.current))
            (record_refuses device ref snapshot now s old)
          ∙ ap (λ d. entry_time (lookup device d)) (current-mark_stale now none "stale" s)
          ∙ ap entry_time (lookup-map-mark_entry s.stale_after now.micros none device s.current)
          ∙ newest_old (lookup device s.current) snapshot s.stale_after now.micros device old
      | inr new ↦
          ap entry_time (lookup_accepted device ref snapshot now s h new)
          ∙ ap {B = Option Datetime} some (newest_new (lookup device s.current) snapshot new)
    ]
