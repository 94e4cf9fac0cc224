-- ===== src/Telemetry/Liveness.antt =====
-- Every healthy heartbeat has a timer that ends it (src/pitblu_core/telemetry.py).
pub mod Untouched
pub mod Methods
pub mod Timers
use mathlib.Core.Path.{subst₂}
use pitblu_core.Prelude.{
  ==_iff, Bool, Bool-cases, Dict, Option, String, arith, false, if◌then◌else◌, inl, inr, insert,
  is_some, lookup, lookup-insert, lookup-remove, lookup-set_default, nat_eq, none, refl, remove,
  some, string_eq, subst, sym, true, ◌==◌, ◌∙◌, ◌≡◌,
}
use pitblu_core.Models.{Datetime, TelemetrySource}
use pitblu_core.Telemetry.{HeartbeatState, TelemetryState, announce, healthy, stale, unknown}
use pitblu_core.Telemetry.Heartbeats.{ensure_heartbeat, publish_heartbeat, succeeded_present}

-- A healthy heartbeat has a success, whose deadline is waited for, and a stale one has had one.
abbrev pub Watched : Option HeartbeatState → Option Datetime → Type 0
Watched none task = Unit
Watched (some h) task =
    (h.status ≡ healthy → task ≡ h.last_success)
    × (h.status ≡ healthy → is_some h.last_success ≡ true)
    × (h.status ≡ stale → is_some h.last_success ≡ true)

abbrev pub WatchedAll : Dict String HeartbeatState → Dict String Datetime → Type 0
WatchedAll heartbeats tasks = (d : String) → Watched (lookup d heartbeats) (lookup d tasks)

abbrev pub IsWatched : TelemetryState → Type 0
IsWatched s = WatchedAll s.heartbeats s.heartbeat_stale_tasks

pub Watched-if :
    (b : Bool) (o o' : Option HeartbeatState) (p p' : Option Datetime)
    → Watched o p
    → (b ≡ false → Watched o' p')
    → Watched (if b then o else o') (if b then p else p')
Watched-if true o o' p p' v w = v
Watched-if false o o' p p' v w = w refl

-- A heartbeat that is put in with a task, or with none, that suits it.
pub Watched-insert :
    (device : String) (h : HeartbeatState) (task : Option Datetime)
    (heartbeats : Dict String HeartbeatState) (before after : Dict String Datetime)
    → ((d : String) → lookup d after ≡ (if device == d then task else lookup d before))
    → Watched (some h) task
    → WatchedAll heartbeats before
    → WatchedAll (insert device h heartbeats) after
Watched-insert device h task heartbeats before after e v w d =
    subst₂ Watched (sym (lookup-insert d device h heartbeats)) (sym (e d))
      (Watched-if (device == d) (some h) (lookup d heartbeats) task (lookup d before) v (λ _. w d))

pub own_task :
    (device : String) (tasks : Dict String Datetime) (d : String)
    → lookup d tasks ≡ (if device == d then lookup device tasks else lookup d tasks)
own_task device tasks d = elim (Bool-cases (device == d)) [
  | inl e ↦ rw (e, (==_iff device d).0 e)
  | inr e ↦ rw e
]

pub if-IsWatched :
    (b : Bool) (s t : TelemetryState) → IsWatched s → IsWatched t → IsWatched (if b then s else t)
if-IsWatched true s t v w = v
if-IsWatched false s t v w = w

-- A heartbeat that is published beside the task that it has.
pub publish_heartbeat-IsWatched :
    (device : String) (h : HeartbeatState) (t : Datetime) (s : TelemetryState)
    → Watched (some h) (lookup device s.heartbeat_stale_tasks)
    → IsWatched s
    → IsWatched (publish_heartbeat device h t s)
unfolding publish_heartbeat announce
publish_heartbeat-IsWatched device h t s v w =
    Watched-insert device _ (lookup device s.heartbeat_stale_tasks) s.heartbeats
      s.heartbeat_stale_tasks s.heartbeat_stale_tasks (own_task device s.heartbeat_stale_tasks) v w

-- A heartbeat that is published without a task.
pub publish_quiet-IsWatched :
    (device : String) (h : HeartbeatState) (t : Datetime) (s : TelemetryState)
    → Watched (some h) none
    → IsWatched s
    → IsWatched (
        publish_heartbeat device h t
          (record s { heartbeat_stale_tasks = remove device s.heartbeat_stale_tasks }))
unfolding publish_heartbeat announce
publish_quiet-IsWatched device h t s v w =
    Watched-insert device _ none s.heartbeats s.heartbeat_stale_tasks
      (remove device s.heartbeat_stale_tasks) (λ d. lookup-remove d device s.heartbeat_stale_tasks)
      v w

pub succeeded_present-IsWatched :
    (device : String) (o : Option HeartbeatState) (t : Datetime) (source : TelemetrySource)
    (s : TelemetryState)
    → IsWatched s
    → IsWatched (succeeded_present device o t source s)
unfolding succeeded_present publish_heartbeat announce
succeeded_present-IsWatched device none t source s w = w
succeeded_present-IsWatched device (some h) t source s w = if-IsWatched _ s _ w (
    Watched-insert device _ (some t) s.heartbeats s.heartbeat_stale_tasks
      (insert device t (remove device s.heartbeat_stale_tasks))
      (λ d.
        lookup-insert d device t (remove device s.heartbeat_stale_tasks)
        ∙ ground (arith, lookup-remove d device s.heartbeat_stale_tasks))
      (ground arith) w)

abbrev fresh_start : TelemetrySource → HeartbeatState
fresh_start source = record {
  adapter_source = source;
  status = unknown;
  last_success = none;
  successful_source = none;
  sequence = 0;
}

Watched-default :
    (b : Bool) (o o' : Option HeartbeatState) (p : Option Datetime) (source : TelemetrySource)
    → (b ≡ true → Watched o p)
    → Watched o' p
    → Watched (if b then elim o [ none ↦ some (fresh_start source) | some w ↦ some w ] else o') p
Watched-default true none o' p source v w = ground arith
Watched-default true (some h) o' p source v w = v refl
Watched-default false o o' p source v w = w

-- A new heartbeat is unknown, and one that is there stays.
pub ensure_heartbeat-IsWatched :
    (device : String) (source : TelemetrySource) (s : TelemetryState)
    → IsWatched s
    → IsWatched (ensure_heartbeat device source s)
unfolding ensure_heartbeat
ensure_heartbeat-IsWatched device source s w d =
    subst (λ o. Watched o (lookup d s.heartbeat_stale_tasks))
      (sym (lookup-set_default d device (fresh_start source) s.heartbeats))
      (Watched-default (device == d) (lookup device s.heartbeats) (lookup d s.heartbeats)
        (lookup d s.heartbeat_stale_tasks) source
        (λ e.
          subst (λ k. Watched (lookup k s.heartbeats) (lookup d s.heartbeat_stale_tasks))
            (sym ((==_iff device d).0 e)) (w d))
        (w d))
