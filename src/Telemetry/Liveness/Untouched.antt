-- ===== src/Telemetry/Liveness/Untouched.antt =====
-- The operations that leave the heartbeats and their timers alone
-- (src/pitblu_core/telemetry.py).
use mathlib.Core.Path.{subst₂}
use pitblu_core.Prelude.{
  Bool, List, Option, String, [], false, if◌then◌else◌, lookup, nat_eq, none, refl, some, string_eq,
  sym, true, ℕ, ◌==◌, ◌∷◌, ◌≡◌,
}
use pitblu_core.Models.{Datetime}
use pitblu_core.Events.{connection_state, device_connection}
use pitblu_core.Telemetry.{CurrentSnapshot, Draft, TelemetryState, announce, announce_all}
use pitblu_core.Telemetry.Snapshots.{
  announce_lost, connection_draft, connection_present, deadline_present, lost_drafts, mark_stale,
  snapshot_deadline,
}
use pitblu_core.Telemetry.Liveness.{IsWatched, WatchedAll}

-- The parts of the state that heartbeats are made of.
pub record SameHeartbeats (s t : TelemetryState) : Type 0 where
  pub beats : t.heartbeats ≡ s.heartbeats
  pub tasks : t.heartbeat_stale_tasks ≡ s.heartbeat_stale_tasks

pub SameHeartbeats-announce_all :
    (device : String) (ds : List Draft) (s t : TelemetryState)
    → SameHeartbeats s t
    → SameHeartbeats s (announce_all device ds t)
unfolding announce_all announce
SameHeartbeats-announce_all device [] s t h = h
SameHeartbeats-announce_all device (d ∷ ds) s t h =
    SameHeartbeats-announce_all device ds s (announce device d t)
      (record { beats = h.beats; tasks = h.tasks })

pub SameHeartbeats-announce_lost :
    (now : Datetime) (reason : String) (due : List (String × CurrentSnapshot))
    (s t : TelemetryState)
    → SameHeartbeats s t
    → SameHeartbeats s (announce_lost now reason due t)
unfolding announce_lost
SameHeartbeats-announce_lost now reason [] s t h = h
SameHeartbeats-announce_lost now reason ((device, c) ∷ rest) s t h =
    SameHeartbeats-announce_lost now reason rest s
      (announce_all device (lost_drafts c.snapshot now reason) t)
      (SameHeartbeats-announce_all device (lost_drafts c.snapshot now reason) s t h)

pub SameHeartbeats-mark_stale :
    (now : Datetime) (force : Option String) (reason : String) (s t : TelemetryState)
    → SameHeartbeats s t
    → SameHeartbeats s (mark_stale now force reason t).1
unfolding mark_stale
SameHeartbeats-mark_stale now force reason s t h =
    SameHeartbeats-announce_lost now reason _ s _ (record { beats = h.beats; tasks = h.tasks })

pub by_same : (s t : TelemetryState) → SameHeartbeats s t → IsWatched s → IsWatched t
by_same s t h w = subst₂ WatchedAll (sym h.beats) (sym h.tasks) w

if-same :
    (b : Bool) (s t u : TelemetryState)
    → SameHeartbeats s t
    → SameHeartbeats s u
    → SameHeartbeats s (if b then t else u)
if-same true s t u h k = h
if-same false s t u h k = k

pub connection_present-same :
    (device state : String) (o : Option CurrentSnapshot) (t0 t1 t2 : Datetime) (s : TelemetryState)
    → SameHeartbeats s (connection_present device state o t0 t1 t2 s)
unfolding connection_present announce
connection_present-same device state none t0 t1 t2 s = record { beats = refl; tasks = refl }
connection_present-same device state (some c) t0 t1 t2 s =
    let told =
      announce device (connection_draft c.snapshot t0 device_connection (connection_state state))
        s in
    let marked =
      SameHeartbeats-mark_stale t1 (some device) "disconnected" s told
        (record { beats = refl; tasks = refl }) in
    if-same (state == "disconnected") s _ told
      (record { beats = marked.beats; tasks = marked.tasks })
      (record { beats = refl; tasks = refl })

pub marked-same :
    (now : Datetime) (force : Option String) (reason : String) (s : TelemetryState)
    → SameHeartbeats s (mark_stale now force reason s).1
marked-same now force reason s =
    SameHeartbeats-mark_stale now force reason s s (record { beats = refl; tasks = refl })

deadline_present-same :
    (o : Option CurrentSnapshot) (ref : ℕ) (now : Datetime) (s : TelemetryState)
    → SameHeartbeats s (deadline_present o ref now s)
unfolding deadline_present
deadline_present-same none ref now s = record { beats = refl; tasks = refl }
deadline_present-same (some c) ref now s =
    if-same (c.ref == ref) s (mark_stale now none "stale" s).1 s (marked-same now none "stale" s)
      (record { beats = refl; tasks = refl })

pub deadline-same :
    (device : String) (ref : ℕ) (now : Datetime) (s : TelemetryState)
    → SameHeartbeats s (snapshot_deadline device ref now s)
unfolding snapshot_deadline
deadline-same device ref now s = deadline_present-same (lookup device s.current) ref now s
