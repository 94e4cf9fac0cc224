-- ===== src/Tests/Telemetry.antt =====
-- The telemetry (src/pitblu_core/telemetry.py).
use pitblu_core.Prelude.{
  All, List, Option, String, [], arith, false, insert, lookup, map, nat_eq, option_eq, refl, remove,
  set_default, some, string_eq, true, ◌+◌, ◌↔◌, ◌∷◌, ◌≡◌, ◌≤◌, ◌⊎◌,
}
use pitblu_core.Models.{Datetime, physical, utc}
use pitblu_core.Events.{key_eq, type_eq}
use pitblu_core.Telemetry.{
  CurrentSnapshot, HeartbeatState, TelemetryState, announce, announce_all, healthy, new_telemetry,
  stale,
}
use pitblu_core.Telemetry.Heartbeats.{
  communication_succeeded, ensure_heartbeat, heartbeat_deadline, publish_heartbeat,
  register_heartbeat,
}
use pitblu_core.Telemetry.Snapshots.{
  mark_stale, record_newer, record_snapshot, snapshot_deadline, snapshot_drafts,
}
use pitblu_core.Telemetry.Views.{observed_at, probes}
use pitblu_core.Telemetry.Runs.{TelemetryOperation, records, registers, run, step}
use pitblu_core.Telemetry.Sequences.{Increasing}
use pitblu_core.Telemetry.Runs.Numbers.{run-Increasing}
use pitblu_core.Telemetry.Staleness.{IsHidden, mark_stale_exact, snapshot_deadline_hides}
use pitblu_core.Telemetry.Freshness.{fresh_view, newest, record_keeps_newest, record_shows}
use pitblu_core.Telemetry.Liveness.Timers.{healthy_is_watched}
use pitblu_core.Tests.Device.{snapshot_at}

abbrev cook : List TelemetryOperation
cook =
    registers "grill" physical (utc 1)
    ∷ records "grill" 7 (snapshot_at 9) (utc 9)
    ∷ records "grill" 8 (snapshot_at 12) (utc 12)
    ∷ []

run-Increasing_example : Increasing (run (new_telemetry 15 15) cook).calls
run-Increasing_example = run-Increasing 15 15 cook

abbrev cooking : TelemetryState
cooking = run (new_telemetry 15 15) cook

healthy_heartbeat : HeartbeatState
healthy_heartbeat = record {
  adapter_source = physical;
  status = healthy;
  last_success = some (utc 12);
  successful_source = some physical;
  sequence = 3;
}

heartbeat_of_cook : lookup "grill" cooking.heartbeats ≡ some healthy_heartbeat
unfolding run step register_heartbeat ensure_heartbeat publish_heartbeat announce record_snapshot
    record_newer communication_succeeded mark_stale announce_all snapshot_drafts lookup insert
    remove set_default healthy_heartbeat
heartbeat_of_cook = refl

healthy_is_watched_example :
    (t : Datetime) × (h' : HeartbeatState) × (lookup "grill" cooking.heartbeat_stale_tasks ≡ some t)
    × (healthy_heartbeat.last_success ≡ some t)
    × (lookup "grill" (heartbeat_deadline "grill" t (utc 30) cooking).heartbeats ≡ some h')
    × (h'.status ≡ stale)
    × (h'.last_success ≡ some t)
unfolding healthy_heartbeat
healthy_is_watched_example =
    healthy_is_watched 15 15 cook "grill" healthy_heartbeat (utc 30) (tt, (tt, (tt, tt)))
      heartbeat_of_cook refl

abbrev shown_snapshot : CurrentSnapshot
shown_snapshot = record { snapshot = snapshot_at 12; ref = 8; stale = false }

snapshot_of_cook : lookup "grill" cooking.current ≡ some shown_snapshot
unfolding run step register_heartbeat ensure_heartbeat publish_heartbeat announce record_snapshot
    record_newer communication_succeeded mark_stale announce_all snapshot_drafts lookup insert
    remove set_default
snapshot_of_cook = refl

threshold_of_cook : cooking.stale_after ≡ 15
unfolding run step register_heartbeat ensure_heartbeat publish_heartbeat announce record_snapshot
    record_newer communication_succeeded mark_stale announce_all snapshot_drafts lookup insert
    remove set_default
threshold_of_cook = refl

snapshot_deadline_hides_example :
    All IsHidden (probes "grill" (snapshot_deadline "grill" 8 (utc 27) cooking))
snapshot_deadline_hides_example =
    snapshot_deadline_hides "grill" (utc 27) cooking shown_snapshot snapshot_of_cook
      (omega (arith, threshold_of_cook))

mark_stale_exact_example :
    (c' : CurrentSnapshot) × (lookup "grill"
        (mark_stale (utc 20) (some "grill") "lost" cooking).1.current
      ≡ some c')
    × (c'.snapshot ≡ snapshot_at 12)
    × ((c'.stale ≡ true) ↔ (
        (shown_snapshot.stale ≡ true)
        ⊎ (◌≡◌ {A = Option String} (some "grill") (some "grill"))
        ⊎ (12 + cooking.stale_after ≤ 20)))
mark_stale_exact_example =
    mark_stale_exact (utc 20) (some "grill") "lost" cooking "grill" shown_snapshot snapshot_of_cook

record_keeps_newest_example :
    observed_at "grill" (record_snapshot "grill" 9 (snapshot_at 10) (utc 13) cooking).1
    ≡ some (newest (observed_at "grill" cooking) (utc 10))
record_keeps_newest_example = record_keeps_newest "grill" 9 (snapshot_at 10) (utc 13) cooking refl

abbrev old_entry : TelemetryState
old_entry = record (new_telemetry 15 15) {
  current = ("grill", record { snapshot = snapshot_at 5; ref = 1; stale = true }) ∷ [];
}

record_shows_example :
    probes "grill" (record_snapshot "grill" 2 (snapshot_at 10) (utc 13) old_entry).1
    ≡ map fresh_view (snapshot_at 10).probes
record_shows_example =
    record_shows "grill" 2 (snapshot_at 10) (utc 13) old_entry refl (unfold lookup in ground arith)
