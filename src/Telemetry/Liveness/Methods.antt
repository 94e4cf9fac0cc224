-- ===== src/Telemetry/Liveness/Methods.antt =====
-- Each method keeps a timer beside every healthy heartbeat (src/pitblu_core/telemetry.py).
use mathlib.Core.Path.{subst₂}
use pitblu_core.Prelude.{
  ==_iff, Bool, Bool-cases, Option, Option-cases, Result, String, after_result, ap, arith, err,
  false, if◌then◌else◌, inl, inr, lookup, lookup-remove, modify, nat_eq, none, not, ok, refl,
  remove, some, string_eq, subst, sym, true, value_error, ℕ, ◌&&◌, ◌==◌, ◌∙◌, ◌≡◌,
}
use pitblu_core.Models.{Datetime, DeviceSnapshot, TelemetrySource}
use pitblu_core.Telemetry.{
  CurrentSnapshot, HeartbeatState, TelemetryState, disconnected, is_disconnected, is_healthy, stale,
}
use pitblu_core.Telemetry.Heartbeats.{
  communication_succeeded, disconnected_present, due_present, ensure_heartbeat, expected_present,
  is_success_at, register_present, status_without_link, succeeded_present,
}
use pitblu_core.Telemetry.Snapshots.{
  accept_snapshot, is_not_newer, mark_stale, note_success, record_newer, record_snapshot,
  snapshot_drafts,
}
use pitblu_core.Telemetry.Lifecycle.{forget}
use pitblu_core.Telemetry.Liveness.{
  IsWatched, Watched, Watched-if, WatchedAll, ensure_heartbeat-IsWatched, if-IsWatched,
  publish_heartbeat-IsWatched, publish_quiet-IsWatched, succeeded_present-IsWatched,
}
use pitblu_core.Telemetry.Liveness.Untouched.{SameHeartbeats-announce_all, by_same, marked-same}

pub register_present-IsWatched :
    (device : String) (t : Datetime) (s : TelemetryState)
    → IsWatched s
    → IsWatched (register_present device (lookup device s.heartbeats) t s)
unfolding register_present
register_present-IsWatched device t s w = elim (Option-cases (lookup device s.heartbeats)) [
  | inl e ↦ rw (e, register_present) w
  | inr (h, e) ↦
      rw (e, register_present)
        (if-IsWatched _ _ s
          (publish_heartbeat-IsWatched device h t s
            (subst (λ o. Watched o (lookup device s.heartbeat_stale_tasks)) e (w device)) w)
          w)
]

-- A disconnected heartbeat needs no task.
pub quiet-IsWatched :
    (device : String) (h : HeartbeatState) (s : TelemetryState)
    → lookup device s.heartbeats ≡ some h
    → is_disconnected h.status ≡ true
    → IsWatched s
    → WatchedAll s.heartbeats (remove device s.heartbeat_stale_tasks)
quiet-IsWatched device h s e off w d =
    subst (Watched (lookup d s.heartbeats)) (sym (lookup-remove d device s.heartbeat_stale_tasks))
      (elim (Bool-cases (device == d)) [
        | inl here ↦
            subst (λ o. Watched o (if device == d then none else lookup d s.heartbeat_stale_tasks))
              (sym e ∙ ap (λ (k : String). lookup k s.heartbeats) ((==_iff device d).0 here))
              (ground arith)
        | inr there ↦ rw there (w d)
      ])

pub disconnected_present-IsWatched :
    (device : String) (t : Datetime) (s : TelemetryState)
    → IsWatched s
    → IsWatched (disconnected_present device (lookup device s.heartbeats) t s)
unfolding disconnected_present
disconnected_present-IsWatched device t s w = elim (Option-cases (lookup device s.heartbeats)) [
  | inl e ↦ rw (e, disconnected_present) w
  | inr (h, e) ↦ elim (Bool-cases (is_disconnected h.status)) [
    | inl off ↦ rw (e, disconnected_present, off) (quiet-IsWatched device h s e off w)
    | inr on ↦
        rw (e, disconnected_present, on)
          (publish_quiet-IsWatched device (record h { status = disconnected }) t s (ground arith) w)
  ]
]

pub expected_present-IsWatched :
    (device : String) (t : Datetime) (s : TelemetryState)
    → IsWatched s
    → IsWatched (expected_present device (lookup device s.heartbeats) t s)
unfolding expected_present
expected_present-IsWatched device t s w = elim (Option-cases (lookup device s.heartbeats)) [
  | inl e ↦ rw (e, expected_present) w
  | inr (h, e) ↦
      rw (e, expected_present)
        (if-IsWatched _ _ s
          (publish_heartbeat-IsWatched device (record h { status = status_without_link h }) t s
            (ground arith) w)
          w)
]

stale_is_Watched :
    (h : HeartbeatState) (t : Datetime) (p : Option Datetime)
    → is_success_at t h.last_success ≡ true
    → Watched (some (record h { status = stale })) p
stale_is_Watched h t p e = elim (Option-cases h.last_success) [
  | inl n ↦ absurd (cc (rw n at e))
  | inr (u, n) ↦ (λ x. cc, λ x. cc, λ x. rw n refl)
]

pub due_present-IsWatched :
    (device : String) (t now : Datetime) (s : TelemetryState)
    → IsWatched s
    → IsWatched (due_present device (lookup device s.heartbeats) t now s)
unfolding due_present
due_present-IsWatched device t now s w = elim (Option-cases (lookup device s.heartbeats)) [
  | inl e ↦ rw (e, due_present) w
  | inr (h, e) ↦ elim (Bool-cases (is_healthy h.status && is_success_at t h.last_success)) [
    | inl due ↦
        rw (e, due_present, due)
          (publish_heartbeat-IsWatched device (record h { status = stale }) now s
            (stale_is_Watched h t (lookup device s.heartbeat_stale_tasks) (ground arith)) w)
    | inr early ↦ rw (e, due_present, early) w
  ]
]

pub if-exec-IsWatched :
    (b : Bool) (x y : Result (Unit {0}) × TelemetryState)
    → IsWatched x.1
    → IsWatched y.1
    → IsWatched (if b then x else y).1
if-exec-IsWatched true x y v w = v
if-exec-IsWatched false x y v w = w

pub communication_succeeded-IsWatched :
    (device : String) (t : Datetime) (source : TelemetrySource) (s : TelemetryState)
    → IsWatched s
    → IsWatched (communication_succeeded device t source s).1
unfolding communication_succeeded
communication_succeeded-IsWatched device t source s w =
    let ensured = ensure_heartbeat device source s in
    let present = succeeded_present device (lookup device ensured.heartbeats) t source ensured in
    if-exec-IsWatched (not t.aware)
      (err (value_error "successful communication time must be timezone-aware"), s) (ok tt, present)
      w
      (succeeded_present-IsWatched device (lookup device ensured.heartbeats) t source ensured
        (ensure_heartbeat-IsWatched device source s w))

pub note_success-IsWatched :
    (device : String) (snapshot : DeviceSnapshot) (o : Option Datetime) (s : TelemetryState)
    → IsWatched s
    → IsWatched (note_success device snapshot o s).1
unfolding note_success
note_success-IsWatched device snapshot none s w = w
note_success-IsWatched device snapshot (some t) s w =
    communication_succeeded-IsWatched device t snapshot.source s w

pub after_result-IsWatched :
    (r : Result (Unit {0})) (f : TelemetryState → TelemetryState) (s : TelemetryState)
    → IsWatched s
    → IsWatched (f s)
    → IsWatched (after_result r (λ _. modify f) s).1
after_result-IsWatched (ok a) f s v w = w
after_result-IsWatched (err e) f s v w = v

pub record_newer-IsWatched :
    (device : String) (ref : ℕ) (snapshot : DeviceSnapshot) (o : Option CurrentSnapshot)
    (s : TelemetryState)
    → IsWatched s
    → IsWatched (record_newer device ref snapshot o s).1
unfolding record_newer accept_snapshot
record_newer-IsWatched device ref snapshot o s w =
    let noted = note_success device snapshot snapshot.successful_communication_at s in
    let v = note_success-IsWatched device snapshot snapshot.successful_communication_at s w in
    after_result-IsWatched noted.0 (accept_snapshot device ref snapshot o) noted.1 v (
      by_same noted.1 (accept_snapshot device ref snapshot o noted.1)
        (SameHeartbeats-announce_all device (snapshot_drafts o snapshot) noted.1 _
          (record { beats = refl; tasks = refl }))
        v)

pub record_snapshot-IsWatched :
    (device : String) (ref : ℕ) (snapshot : DeviceSnapshot) (now : Datetime) (s : TelemetryState)
    → IsWatched s
    → IsWatched (record_snapshot device ref snapshot now s).1
unfolding record_snapshot
record_snapshot-IsWatched device ref snapshot now s w =
    if-exec-IsWatched (is_not_newer snapshot (lookup device s.current))
      (ok tt, (mark_stale now none "stale" s).1)
      (record_newer device ref snapshot (lookup device s.current) s)
      (by_same s (mark_stale now none "stale" s).1 (marked-same now none "stale" s) w)
      (record_newer-IsWatched device ref snapshot (lookup device s.current) s w)

pub forget-IsWatched :
    (device : String) (s : TelemetryState) → IsWatched s → IsWatched (forget device s)
unfolding forget
forget-IsWatched device s w d =
    subst₂ Watched (sym (lookup-remove d device s.heartbeats))
      (sym (lookup-remove d device s.heartbeat_stale_tasks))
      (Watched-if (device == d) none (lookup d s.heartbeats) none (lookup d s.heartbeat_stale_tasks)
        tt (λ _. w d))
