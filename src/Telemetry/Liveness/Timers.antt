-- ===== src/Telemetry/Liveness/Timers.antt =====
-- The timers over whole runs (src/pitblu_core/telemetry.py).

use pitblu_core.Prelude.{
  ==-refl, All, List, Option-cases, String, [], inl, inr, is_some, lookup, lookup-insert, nat_eq,
  none, refl, some, string_eq, subst, true, ℕ, ◌&&◌, ◌+◌, ◌∙◌, ◌∷◌, ◌≡◌,
}
use pitblu_core.Models.{Datetime}
use pitblu_core.Events.{thermometer_heartbeat}
use pitblu_core.Telemetry.{
  HeartbeatState, TelemetryState, announce, device_key, healthy, is_healthy, new_telemetry,
  next_sequence, stale,
}
use pitblu_core.Telemetry.Heartbeats.{
  due_present, ensure_heartbeat, heartbeat_deadline, heartbeat_disconnected, heartbeat_expected,
  is_success_at, publish_heartbeat, register_heartbeat,
}
use pitblu_core.Telemetry.Snapshots.{connection, mark_stale, snapshot_deadline}
use pitblu_core.Telemetry.Lifecycle.{remove_device}
use pitblu_core.Telemetry.Runs.{
  TelemetryOperation, closes, connects, ensures, expects, heartbeat_due, loses, marks, records,
  registers, removes, run, snapshot_due, step, succeeds,
}
use pitblu_core.Telemetry.Liveness.{IsWatched, Watched, ensure_heartbeat-IsWatched}
use pitblu_core.Telemetry.Liveness.Untouched.{
  by_same, connection_present-same, deadline-same, marked-same,
}
use pitblu_core.Telemetry.Liveness.Methods.{
  communication_succeeded-IsWatched, disconnected_present-IsWatched, due_present-IsWatched,
  expected_present-IsWatched, forget-IsWatched, record_snapshot-IsWatched,
  register_present-IsWatched,
}

-- The service has not been closed.
abbrev pub IsOpen : TelemetryOperation → Type 0
IsOpen closes = ⊥
IsOpen _ = Unit

step-IsWatched :
    (s : TelemetryState) (op : TelemetryOperation) → IsOpen op → IsWatched s → IsWatched (step s op)
unfolding step register_heartbeat heartbeat_disconnected heartbeat_expected heartbeat_deadline
    connection remove_device
step-IsWatched s (ensures device source) c w = ensure_heartbeat-IsWatched device source s w
step-IsWatched s (registers device source now) c w =
    register_present-IsWatched device now (ensure_heartbeat device source s)
      (ensure_heartbeat-IsWatched device source s w)
step-IsWatched s (succeeds device t source) c w =
    communication_succeeded-IsWatched device t source s w
step-IsWatched s (loses device now) c w = disconnected_present-IsWatched device now s w
step-IsWatched s (expects device now) c w = expected_present-IsWatched device now s w
step-IsWatched s (heartbeat_due device t now) c w = due_present-IsWatched device t now s w
step-IsWatched s (records device ref snapshot now) c w =
    record_snapshot-IsWatched device ref snapshot now s w
step-IsWatched s (marks now force reason) c w =
    by_same s (mark_stale now force reason s).1 (marked-same now force reason s) w
step-IsWatched s (snapshot_due device ref now) c w =
    by_same s (snapshot_deadline device ref now s) (deadline-same device ref now s) w
step-IsWatched s (connects device state t0 t1 t2) c w =
    by_same s (connection device state t0 t1 t2 s)
      (connection_present-same device state (lookup device s.current) t0 t1 t2 s) w
step-IsWatched s (removes device t0 t1 t2 t3) c w =
    let left = connection device "disconnected" t0 t1 t2 s in
    forget-IsWatched device (heartbeat_disconnected device t3 left) (
      disconnected_present-IsWatched device t3 left (
        by_same s left
          (connection_present-same device "disconnected" (lookup device s.current) t0 t1 t2 s) w))
step-IsWatched s closes c w = absurd c

run-IsWatched :
    (s : TelemetryState) (ops : List TelemetryOperation)
    → All IsOpen ops
    → IsWatched s
    → IsWatched (run s ops)
unfolding run
run-IsWatched s [] c w = w
run-IsWatched s (op ∷ ops) c w = run-IsWatched (step s op) ops c.1 (step-IsWatched s op c.0 w)

new-IsWatched : (a b : ℕ) → IsWatched (new_telemetry a b)
unfolding lookup
new-IsWatched a b d = tt

ends :
    (t : Datetime) (h : HeartbeatState)
    → h.status ≡ healthy
    → h.last_success ≡ some t
    → (is_healthy h.status && is_success_at t h.last_success) ≡ true
ends t h p q = rw (p, q) (==-refl t.micros)

beats-publish_heartbeat :
    (device : String) (h : HeartbeatState) (now : Datetime) (s : TelemetryState)
    → (h' : HeartbeatState) × (lookup device (publish_heartbeat device h now s).heartbeats
        ≡ some h')
      × (h'.status ≡ h.status)
      × (h'.last_success ≡ h.last_success)
unfolding publish_heartbeat announce
beats-publish_heartbeat device h now s =
    let n = next_sequence (device_key device thermometer_heartbeat none) (h.sequence + 1) s in
    let h' : HeartbeatState = record h { sequence = n } in
    (h', lookup-insert device device h' s.heartbeats ∙ rw (==-refl device), refl, refl)

-- The heartbeat after its timer ended is stale.
ended :
    (device : String) (t now : Datetime) (s : TelemetryState) (h : HeartbeatState)
    → lookup device s.heartbeats ≡ some h
    → h.status ≡ healthy
    → h.last_success ≡ some t
    → (h' : HeartbeatState) × (lookup device (heartbeat_deadline device t now s).heartbeats
        ≡ some h')
      × (h'.status ≡ stale)
      × (h'.last_success ≡ h.last_success)
unfolding heartbeat_deadline due_present
ended device t now s h e p q =
    rw (e, heartbeat_deadline, ends t h p q)
      (beats-publish_heartbeat device (record h { status = stale }) now s)

success_of :
    (h : HeartbeatState)
    → is_some h.last_success ≡ true
    → (t : Datetime) × (h.last_success ≡ some t)
success_of h k = elim (Option-cases h.last_success) [ inl n ↦ absurd (cc (rw n at k)) | inr x ↦ x ]

-- No heartbeat stays healthy by itself. After any operations and timers short of the end of the
-- service, a device whose heartbeat is healthy has a timer that waits for the deadline of exactly
-- its last success, and whenever that timer ends, before anything else happens to the device, the
-- heartbeat is stale and still tells the last success.
pub healthy_is_watched :
    (stale_after heartbeat_stale_after : ℕ) (ops : List TelemetryOperation) (device : String)
    (h : HeartbeatState) (now : Datetime)
    → All IsOpen ops
    → let s = run (new_telemetry stale_after heartbeat_stale_after) ops in
      lookup device s.heartbeats ≡ some h
      → h.status ≡ healthy
      → (t : Datetime) × (h' : HeartbeatState) × (lookup device s.heartbeat_stale_tasks ≡ some t)
        × (h.last_success ≡ some t)
        × (lookup device (heartbeat_deadline device t now s).heartbeats ≡ some h')
        × (h'.status ≡ stale)
        × (h'.last_success ≡ some t)
healthy_is_watched a b ops device h now c e p =
    let s = run (new_telemetry a b) ops in
    let w =
      subst (λ o. Watched o (lookup device s.heartbeat_stale_tasks)) e
        (run-IsWatched (new_telemetry a b) ops c (new-IsWatched a b) device) in
    let (t, q) = success_of h (w.1 p) in
    let (h', found, now_stale, kept) = ended device t now s h e p q in
    (t, h', w.0 p ∙ q, q, found, now_stale, kept ∙ q)
