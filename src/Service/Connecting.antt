-- ===== src/Service/Connecting.antt =====
-- The task of a connection operation, run whole (src/pitblu_core/service.py,
-- `_execute_connection`).
use pitblu_core.Prelude.{
  Bool, Exception, Exec, Option, String, err, false, gets, if◌then◌else◌, insert, none, not, ok,
  option_eq, pure, remove, some, string_eq, true, when, ℕ, ◌&&◌, ◌==◌, ◌>>=◌, ◌>>◌,
}
use pitblu_core.Models.{Datetime, TelemetrySource}
use pitblu_core.Connection.{
  ConnectionState, ConnectionStateMachine, backoff, connected, connecting, degraded, disconnected,
  discovered, initialising, new_machine, on_discovered, polling, request_connect, transition,
  unsupported,
}
use pitblu_core.Telemetry.{TelemetryState}
use pitblu_core.Telemetry.Heartbeats.{
  communication_succeeded, heartbeat_disconnected, heartbeat_expected,
}
use pitblu_core.Telemetry.Snapshots.{connection, record_snapshot}
use pitblu_core.Storage.{DeviceRow, OperationRow}
use pitblu_core.Storage.DeviceTable.{device, no_patch}
use pitblu_core.Service.Attempts.{Attempt, Run, at_stage, awaits, on_service, on_telemetry, select}
use pitblu_core.Service.{
  Service, finish, save_object, schedule_recovery, set_columns, stop_polling, stop_recovery,
  with_telemetry,
}
use pitblu_core.Service.Operations.{
  Action, connects, disconnects, is_disconnect, is_taken, reconnects,
}

-- The disconnection, and the state that is left.
unfoldable pub disconnect : String → DeviceRow → Attempt → Exec Run (Unit {0})
unfolding stop_polling set_columns
disconnect key row a = do
  at_stage "disconnect"
  on_service (stop_polling key)
  s ← gets (λ r. r.service)
  when (not (is_taken s.owner key)) (do
    awaits a.detached
    on_service (λ t. record t {
      candidates = remove row.discovery_id t.candidates;
      connected_device = none;
      owner = none;
    }))
  on_service (
      with_telemetry
        λ t. heartbeat_disconnected key a.now (connection key "disconnected" a.now a.now a.now t))
  on_service (
      set_columns key (record no_patch {
        desired_state = some "disconnected";
        observed_state = some "disconnected";
      }))

-- The calls of the state machine before the adapter connects, and behind it.
unfoldable pub machine_before : Bool → Exec ConnectionStateMachine (Unit {0})
machine_before force = do
  on_discovered true
  request_connect force
  transition initialising
  pure tt

unfoldable pub machine_after : Exec ConnectionStateMachine (Unit {0})
machine_after = do transition connected; transition polling; pure tt

abbrev pub state_text : ConnectionState → String
state_text discovered = "discovered"
state_text connecting = "connecting"
state_text initialising = "initialising"
state_text connected = "connected"
state_text polling = "polling"
state_text degraded = "degraded"
state_text backoff = "backoff"
state_text disconnected = "disconnected"
state_text unsupported = "unsupported"

-- `_start_polling`
unfoldable pub start_polling : String → Service → Service
start_polling key s = record s { polling_tasks = insert key tt (remove key s.polling_tasks) }

abbrev pub note_initialised :
    String → TelemetrySource → Option Datetime → Exec TelemetryState (Unit {0})
note_initialised key source none = pure tt
note_initialised key source (some t) = communication_succeeded key t source

-- The release that a reconnection begins with.
abbrev pub release : String → DeviceRow → Attempt → Exec Run (Unit {0})
release key row a = do
  on_service (stop_polling key)
  awaits a.detached
  elim row.identity [
    | none ↦ pure tt
    | some _ ↦ (do at_stage "bluez_release"; awaits a.released_early; pure tt)
  ]

-- The connection behind its early return.
unfoldable pub establish : String → Bool → DeviceRow → Attempt → Exec Run (Unit {0})
unfolding select machine_before machine_after start_polling set_columns stop_polling
establish key reconnecting row a = do
  on_service (with_telemetry (heartbeat_expected key a.now))
  when reconnecting (release key row a)
  select key reconnecting row a
  let (r₁, m₁) = machine_before reconnecting new_machine
  awaits r₁
  at_stage "connect_initialise"
  initialised_at ← awaits a.initialised_at
  let (r₂, m₂) = machine_after m₁
  awaits r₂
  on_telemetry (note_initialised key a.source initialised_at)
  at_stage "initial_read"
  snapshot ← awaits a.snapshot
  at_stage "record_snapshot"
  on_telemetry (record_snapshot key a.ref snapshot a.now)
  on_service (λ s. start_polling key (record s {
    connected_device = some key;
    last_error = none;
    last_failure_stage = none;
    last_failure = none;
  }))
  on_service (
      set_columns key (record no_patch {
        desired_state = some "connected";
        observed_state = some (state_text m₂.observed);
      }))

-- The body of the `try`.
unfoldable pub attempt : String → Action → Bool → DeviceRow → Attempt → Exec Run (Unit {0})
unfolding disconnect establish stop_recovery
attempt key action recovering row a = do
  when (not recovering) (on_service (stop_recovery key))
  s ← gets (λ r. r.service)
  elim action [
    | disconnects ↦ disconnect key row a
    | connects ↦
        (if s.connected_device == some key && a.is_connected
          then pure tt
          else establish key false row a)
    | reconnects ↦ establish key true row a
  ]

-- What the handler of the exceptions notes in the service and of the device.
unfoldable pub failure_columns : String → Action → Exception → Run → Service
unfolding set_columns
failure_columns key action e r =
    let noted : Service = record r.service {
      last_error = some "device_operation_failed";
      last_failure_stage = some r.stage;
      last_failure = some e;
    } in
    let observed = if is_disconnect action then "disconnected" else "backoff" in
    set_columns key (record no_patch { observed_state = some observed }) noted

-- The handler of the exceptions.
unfoldable pub note_failure : String → Action → Bool → OperationRow → ℕ → Exception → Run → Service
unfolding failure_columns finish schedule_recovery
note_failure key action recovering operation ended e r =
    let failed = finish operation true ended (failure_columns key action e r) in
    if not (is_disconnect action) && not recovering
    then schedule_recovery key false failed
    else failed

-- `_execute_connection`
unfoldable pub execute_connection :
    OperationRow → String → Action → Bool → Attempt → Service → Service
unfolding attempt save_object finish note_failure
execute_connection operation key action recovering a s =
    let running : OperationRow = record operation { status = "running"; updated_at = a.started } in
    let begun = save_object running s in
    elim (device key begun.store) [
      | none ↦ finish running true a.ended begun
      | some row ↦
          (let (result, r) =
              attempt key action recovering row a (record { service = begun; stage = "prepare" }) in
            elim result [
              | ok _ ↦ finish running false a.ended r.service
              | err e ↦ note_failure key action recovering running a.ended e r
            ])
    ]
