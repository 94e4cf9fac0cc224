-- ===== src/Service/Recovery.antt =====
-- When a recovery ends, and what a start recovers (src/pitblu_core/service.py).
use pitblu_core.Prelude.{
  ==_iff, All, Bool, Bool-cases, List, Option, Result, String, [], ap, arith, err, false, get_elem?,
  if◌then◌else◌, inl, inr, insert, is_some, lookup, nat_eq, none, not, ok, refl, some, string_eq,
  subst, suc, sym, true, ℕ, ◌&&◌, ◌+◌, ◌==◌, ◌||◌, ◌∙◌, ◌∷◌, ◌≡◌, ◌≤◌, ◌⊎◌,
}
use pitblu_core.Models.{Datetime, TelemetrySource}
use pitblu_core.Connection.{BackoffPolicy, unit}
use pitblu_core.Connection.Backoff.{IsValidPolicy, next_delay_bounds}
use pitblu_core.Storage.{DeviceRow, OperationRow}
use pitblu_core.Storage.DeviceTable.{device, list_devices, no_patch}
use pitblu_core.Storage.OperationTable.{interrupt_operations}
use pitblu_core.Service.{
  Service, recovers, schedule_recovery, set_columns, with_store, with_telemetry,
}
use pitblu_core.Service.Lifecycle.{
  RecoveryEnd, RecoveryRound, asleep, awakes, gave_up, raised, recover, recover_once, recovered,
  register_beat, sleeps, start, start_device, start_devices, status_is,
}

-- The operation of a round, as it is left in the service, has succeeded.
pub record HasSucceeded (key : String) (r : RecoveryRound) (s : Service) : Type 0 where
  pub before : Service
  pub operation : OperationRow
  pub run_there : s ≡ recover_once key r before
  pub found : lookup r.id s.objects ≡ some operation
  pub succeeded : operation.status ≡ "succeeded"

-- A stored device that is to be connected, and by itself
pub record IsWanted (key : String) (s : Service) : Type 0 where
  pub row : DeviceRow
  pub stored : device key s.store ≡ some row
  pub reconnects : row.auto_reconnect ≡ true
  pub desired : row.desired_state ≡ "connected"

-- Why a recovery has ended in a service: it closes, the device is not to be connected by it, or the
-- operation of one of the rounds has succeeded, and nothing has come behind it. One that is asleep
-- goes on.
abbrev pub HasReason : String → List RecoveryRound → RecoveryEnd → Service → Type 0
HasReason key rounds gave_up s = (s.closing ≡ true) ⊎ (¬ IsWanted key s)
HasReason key rounds recovered s =
    (i : ℕ) × (r : RecoveryRound) × (get_elem? rounds i ≡ some r) × HasSucceeded key r s
HasReason key rounds asleep s = Unit
HasReason key rounds (raised e) s = ⊥

HasReason-later :
    (key : String) (r : RecoveryRound) (rounds : List RecoveryRound) (end : RecoveryEnd)
    (s : Service)
    → HasReason key rounds end s
    → HasReason key (r ∷ rounds) end s
HasReason-later key r rounds gave_up s h = h
HasReason-later key r rounds recovered s (i, q, there, h) = (suc i, q, there, h)
HasReason-later key r rounds asleep s h = h
HasReason-later key r rounds (raised e) s h = h

gives_up :
    (key : String) (s : Service)
    → (s.closing || not (recovers false (device key s.store))) ≡ true
    → (s.closing ≡ true) ⊎ (¬ IsWanted key s)
gives_up key s h = elim (Bool-cases s.closing) [
  | inl closes ↦ inl closes
  | inr goes_on ↦ inr (λ w. absurd (
      ground (
        arith,
        h,
        goes_on,
        w.stored,
        w.reconnects,
        (==_iff w.row.desired_state "connected").1 w.desired,
      )))
]

succeeded_row :
    (o : Option OperationRow)
    → status_is "succeeded" o ≡ true
    → (row : OperationRow) × (o ≡ some row) × (row.status ≡ "succeeded")
succeeded_row none h = absurd (cc h)
succeeded_row (some row) h = (row, refl, (==_iff row.status "succeeded").0 h)

sleeps-defined :
    (immediate : Bool) (random : ℕ) (policy : BackoffPolicy)
    → IsValidPolicy policy
    → random ≤ unit
    → (delay : ℕ) × (next : BackoffPolicy) × (sleeps immediate random policy ≡ (ok delay, next))
      × IsValidPolicy next
sleeps-defined true random policy v h = (0, policy, refl, v)
sleeps-defined false random policy v h =
    let (base, delay, known, n, lo, hi) = next_delay_bounds random policy v h in
    (
      delay,
      record policy { attempt = policy.attempt + 1 },
      n,
      record { some_delay = v.some_delay; positive = v.positive; jitter_capped = v.jitter_capped },
    )

-- A recovery never ends in an exception of its own and never stops for a failure of the adapter: it
-- is over only if the service closes, if the device is gone or no longer to be connected on its own,
-- or if the operation of the round that it has just run has succeeded. This holds for a valid backoff,
-- whatever the rounds come to and whatever other tasks do while it sleeps.
pub recover-HasReason :
    (key : String) (rounds : List RecoveryRound) (immediate : Bool) (policy : BackoffPolicy)
    (s : Service)
    → IsValidPolicy policy
    → All (λ r. r.random ≤ unit) rounds
    → (let (end, used, after) = recover key rounds immediate policy s in
        HasReason key rounds end after)
unfolding recover
recover-HasReason key [] immediate policy s v h = tt
recover-HasReason key (r ∷ rounds) immediate policy s v (h, others) =
    elim (Bool-cases (s.closing || not (recovers false (device key s.store)))) [
      | inl over ↦ rw over (gives_up key s over)
      | inr on ↦ rw on (
          let (delay, next, n, valid) = sleeps-defined immediate r.random policy v h in
          subst slept (sym n)
            (woken next (recover-HasReason key rounds false next after valid others)))
    ]
  where
    after : Service
    after = recover_once key r (awakes immediate r s)

    ends : BackoffPolicy → RecoveryEnd × BackoffPolicy × Service
    ends next =
        if status_is "succeeded" (lookup r.id after.objects)
        then (recovered, next, after)
        else recover key rounds false next after

    slept : Result ℕ × BackoffPolicy → Type 0
    slept x =
        let y : RecoveryEnd × BackoffPolicy × Service = elim x.0 [
          | err e ↦ (raised e, x.1, s)
          | ok d ↦ ends x.1
        ] in
        HasReason key (r ∷ rounds) y.0 y.2

    woken :
        (next : BackoffPolicy)
        → (let y = recover key rounds false next after in HasReason key rounds y.0 y.2)
        → HasReason key (r ∷ rounds) (ends next).0 (ends next).2
    woken next rest = elim (Bool-cases (status_is "succeeded" (lookup r.id after.objects))) [
      | inl done ↦ rw done (
          let (row, found, succeeded) = succeeded_row (lookup r.id after.objects) done in
          (
            0,
            r,
            refl,
            record {
              before = awakes immediate r s;
              operation = row;
              run_there = refl;
              found = found;
              succeeded = succeeded;
            },
          ))
      | inr not_yet ↦
          rw not_yet (
            let y = recover key rounds false next after in
            HasReason-later key r rounds y.0 y.2 rest)
    ]

-- At most the owner of the adapter is being recovered.
abbrev pub RecoversOwner : Service → Type 0
RecoversOwner s =
    (s.recoveries ≡ [])
    ⊎ ((key : String) × (s.owner ≡ some key) × (s.recoveries ≡ (key, true) ∷ []))

abbrev IsIdle : Service → Type 0
IsIdle s = (s.owner ≡ none) × (s.recoveries ≡ [])

scheduled :
    (key : String) (immediate : Bool) (s : Service)
    → (let t = schedule_recovery key immediate s in
        (t.owner ≡ s.owner)
        × ((t.recoveries ≡ s.recoveries) ⊎ (t.recoveries ≡ insert key immediate s.recoveries)))
unfolding schedule_recovery
scheduled key immediate s =
    elim (Bool-cases
      (recovers s.closing (device key s.store) && not (is_some (lookup key s.recoveries)))) [
        | inl new ↦ rw new (refl, inr refl)
        | inr old ↦ rw old (refl, inl refl)
      ]

-- Idle, or for an owner that there is
abbrev IsStarting : Service → Type 0
IsStarting s = IsIdle s ⊎ ((is_some s.owner ≡ true) × RecoversOwner s)

chosen-IsStarting :
    (key : String) (s : Service)
    → IsIdle s
    → IsStarting (schedule_recovery key true (record s { owner = some key }))
unfolding insert
chosen-IsStarting key s (no_owner, calm) =
    let (same, rec) = scheduled key true (record s { owner = some key }) in
    inr (
      ap is_some same,
      elim rec [
        | inl none_new ↦ inl (none_new ∙ calm)
        | inr one ↦ inr (key, same, one ∙ ap (insert key true) calm)
      ],
    )

start_device-IsStarting :
    (source : TelemetrySource) (times : String → Datetime × Datetime) (row : DeviceRow)
    (s : Service)
    → IsStarting s
    → IsStarting (start_device source times row s)
unfolding start_device set_columns
start_device-IsStarting source times row s h =
    either (row.desired_state == "connected" && row.auto_reconnect && not (is_some s.owner))
      (λ wants. ground (arith, wants))
  where
    shown : Service
    shown =
        set_columns row.device_id (record no_patch { observed_state = some "disconnected" })
          (with_telemetry
            (register_beat source row.device_id row.desired_state (times row.device_id).0
              (times row.device_id).1)
            s)

    unowned : is_some s.owner ≡ false → IsIdle s
    unowned free = elim h [
      | inl idle ↦ idle
      | inr (owned, rec) ↦ absurd (ground (arith, free, owned))
    ]

    either :
        (b : Bool)
        → (b ≡ true → is_some s.owner ≡ false)
        → IsStarting (
            if b
            then schedule_recovery row.device_id true (record shown { owner = some row.device_id })
            else shown)
    either true free = chosen-IsStarting row.device_id shown (unowned (free refl))
    either false free = h

start_devices-IsStarting :
    (source : TelemetrySource) (times : String → Datetime × Datetime) (rows : List DeviceRow)
    (s : Service)
    → IsStarting s
    → IsStarting (start_devices source times rows s)
unfolding start_devices
start_devices-IsStarting source times [] s h = h
start_devices-IsStarting source times (row ∷ rows) s h =
    start_devices-IsStarting source times rows (start_device source times row s)
      (start_device-IsStarting source times row s h)

-- However many stored devices are to be connected, the start of a service that owns nothing recovers
-- at most one of them, at once, and that one owns the adapter.
pub start-RecoversOwner :
    (source : TelemetrySource) (times : String → Datetime × Datetime) (now : ℕ) (s : Service)
    → s.owner ≡ none
    → s.recoveries ≡ []
    → RecoversOwner (start source times now s)
unfolding start
start-RecoversOwner source times now s free calm =
    let begun = record (with_store (interrupt_operations now) s) { discovering = true } in
    elim (start_devices-IsStarting source times (list_devices begun.store) begun
      (inl (free, calm))) [ inl (no_owner, none_new) ↦ inl none_new | inr (owned, rec) ↦ rec ]
