-- ===== src/Service/Lifecycle.antt =====
-- The life of the service: its start, the loop of its discovery, the loop of a recovery, and its
-- close (src/pitblu_core/service.py). The backoffs of the devices are given to a recovery and come
-- back from it. What other tasks do while one sleeps is a function of the service.
use pitblu_core.Prelude.{
  Bool, Dict, Exception, Exec, List, Option, Result, String, [], err, false, if◌then◌else◌, is_some,
  lookup, nat_eq, none, not, ok, pure, some, string_eq, true, ℕ, ◌&&◌, ◌==◌, ◌||◌, ◌∷◌,
}
use pitblu_core.Models.{Datetime, DiscoveredDevice, TelemetrySource}
use pitblu_core.Connection.{BackoffPolicy, next_delay}
use pitblu_core.Telemetry.{TelemetryState}
use pitblu_core.Telemetry.Heartbeats.{heartbeat_disconnected, register_heartbeat}
use pitblu_core.Telemetry.Snapshots.{connection}
use pitblu_core.Telemetry.Lifecycle.{close}
use pitblu_core.Storage.{DeviceRow, OperationRow}
use pitblu_core.Storage.DeviceTable.{device, list_devices, no_patch}
use pitblu_core.Storage.OperationTable.{interrupt_operations}
use pitblu_core.Service.{
  Job, Service, executes_connection, executes_scan, interrupted, queued_operation, recovers,
  registers_heartbeat, reports, save_object, schedule_recovery, set_columns, with_store,
  with_telemetry,
}
use pitblu_core.Service.Operations.{by_id, reconnects}
use pitblu_core.Service.Attempts.{Attempt}
use pitblu_core.Service.Connecting.{execute_connection}

-- `_register_heartbeat`, at the times of its two calls
unfoldable pub register_beat :
    TelemetrySource → String → String → Datetime → Datetime → TelemetryState → TelemetryState
register_beat source key desired t0 t1 t =
    let registered = register_heartbeat key source t0 t in
    if desired == "disconnected" then heartbeat_disconnected key t1 registered else registered

-- The body of the loop of `start`
unfoldable pub start_device :
    TelemetrySource → (String → Datetime × Datetime) → DeviceRow → Service → Service
unfolding register_beat set_columns schedule_recovery
start_device source times row s =
    let (t0, t1) = times row.device_id in
    let known = with_telemetry (register_beat source row.device_id row.desired_state t0 t1) s in
    let shown =
      set_columns row.device_id (record no_patch { observed_state = some "disconnected" }) known in
    if row.desired_state == "connected" && row.auto_reconnect && not (is_some shown.owner)
    then schedule_recovery row.device_id true (record shown { owner = some row.device_id })
    else shown

unfoldable pub start_devices :
    TelemetrySource → (String → Datetime × Datetime) → List DeviceRow → Service → Service
unfolding start_device
start_devices source times [] s = s
start_devices source times (row ∷ rows) s =
    start_devices source times rows (start_device source times row s)

-- `start`
unfoldable pub start : TelemetrySource → (String → Datetime × Datetime) → ℕ → Service → Service
unfolding start_devices
start source times now s =
    let calm = record (with_store (interrupt_operations now) s) { discovering = true } in
    start_devices source times (list_devices calm.store) calm

-- `interval` of `_discovery_loop`
abbrev pub discovery_interval : Bool → ℕ → ℕ → ℕ
discovery_interval is_connected connected_interval missing_interval =
    if is_connected then connected_interval else missing_interval

-- A round of `_discovery_loop` behind its sleep, with `discovery_error`
unfoldable pub discovery_round : Result (List DiscoveredDevice) → Service → Option String × Service
discovery_round (ok found) s = (none, record s { candidates = by_id found })
discovery_round (err e) s = (some "bluetooth_scan_failed", s)

-- A round of `_recover`: its sleep with what other tasks do meanwhile, and its operation
pub record RecoveryRound : Type 0 where
  pub random : ℕ
  pub meanwhile : Service → Service
  pub id : String
  pub now : ℕ
  pub attempt : Attempt

pub data RecoveryEnd : Type 0 where
  gave_up recovered asleep : RecoveryEnd
  raised : Exception → RecoveryEnd

abbrev pub status_is : String → Option OperationRow → Bool
status_is status none = false
status_is status (some row) = row.status == status

-- The operation of a round, run
unfoldable pub recover_once : String → RecoveryRound → Service → Service
unfolding save_object execute_connection
recover_once key r s =
    let operation = queued_operation "reconnect" (some key) r.id r.now in
    execute_connection operation key reconnects true r.attempt (save_object operation s)

-- The sleep of a round, if there is one
abbrev pub sleeps : Bool → ℕ → Exec BackoffPolicy ℕ
sleeps true random = pure 0
sleeps false random = next_delay random

abbrev pub awakes : Bool → RecoveryRound → Service → Service
awakes true r s = s
awakes false r s = r.meanwhile s

-- `_recover`: how it ended, and the backoff and the service then; with no round left it still sleeps
unfoldable pub recover :
    String
    → List RecoveryRound
    → Bool
    → BackoffPolicy
    → Service
    → RecoveryEnd × BackoffPolicy × Service
unfolding recover_once
recover key [] immediate policy s = (asleep, policy, s)
recover key (r ∷ rounds) immediate policy s =
    let (slept, policy') = sleeps immediate r.random policy in
    let after = recover_once key r (awakes immediate r s) in
    let rest = recover key rounds false policy' after in
    if s.closing || not (recovers false (device key s.store))
    then (gave_up, policy, s)
    else elim slept [
      | err e ↦ (raised e, policy', s)
      | ok delay ↦
          (if status_is "succeeded" (lookup r.id after.objects)
            then (recovered, policy', after)
            else rest)
    ]

-- The operation that a task runs
abbrev pub operation_of : Job → Dict String OperationRow → Option OperationRow
operation_of (executes_connection id _ _) objects = lookup id objects
operation_of (executes_scan id _) objects = lookup id objects
operation_of (reports _) objects = none
operation_of (registers_heartbeat _ _) objects = none

abbrev pub mark_cut : Option ℕ → Option OperationRow → Service → Service
mark_cut (some now) (some row) s = interrupted row now s
mark_cut (some now) none s = s
mark_cut none row s = s

-- Cancelled tasks end one behind the other, and their callbacks discard them. A task that is within
-- its operation marks it first, at the time that `cut` gives for it.
unfoldable pub end_tasks : (Job → Option ℕ) → List Job → Service → Service
unfolding interrupted
end_tasks cut [] s = s
end_tasks cut (job ∷ jobs) s =
    end_tasks cut jobs (mark_cut (cut job) (operation_of job s.objects) (record s { tasks = jobs }))

-- The operations that cancelled recoveries were within, each marked at its time
unfoldable pub mark_all : List (OperationRow × ℕ) → Service → Service
unfolding interrupted
mark_all [] s = s
mark_all ((row, now) ∷ rows) s = mark_all rows (interrupted row now s)

unfoldable pub say_disconnected : Option String → Datetime → Datetime → Datetime → Service → Service
unfolding set_columns
say_disconnected none t0 t1 t2 s = s
say_disconnected (some key) t0 t1 t2 s =
    set_columns key (record no_patch { observed_state = some "disconnected" })
      (with_telemetry (connection key "disconnected" t0 t1 t2) s)

-- `contextlib.suppress(Exception)`, around the adapter's `disconnect`
abbrev pub suppressed : Result (Unit {0}) → Service → Service
suppressed (ok u) s = s
suppressed (err e) s = s

-- `close`: what the cancelled tasks and recoveries were within is given, and what the adapter's
-- `disconnect` does; the last three times are those of `connection`.
unfoldable pub close_service :
    (Job → Option ℕ)
    → List (OperationRow × ℕ)
    → Result (Unit {0})
    → ℕ
    → Datetime
    → Datetime
    → Datetime
    → Service
    → Service
unfolding end_tasks mark_all say_disconnected
close_service cut recovering released now t0 t1 t2 s =
    let ended = end_tasks cut s.tasks (record s { closing = true; discovering = false }) in
    let cleared = mark_all recovering (record ended { recoveries = []; polling_tasks = [] }) in
    let settled = with_store (interrupt_operations now) cleared in
    let told = say_disconnected settled.connected_device t0 t1 t2 settled in
    with_telemetry close (suppressed released told)
