-- ===== src/Service.antt =====
-- src/pitblu_core/service.py: the administrative service. A method that awaits the adapter is given
-- what the adapter answers, and runs whole here; identifiers and the readings of the clock are
-- arguments, as is the name that `register` makes of the device's. An operation's dictionary is
-- shared by the service and the task that runs it: `objects` holds each under its identifier, and
-- `active` refers to it. Tasks that are created are a list of what they are to run.
pub mod Operations
pub mod Registration
pub mod Attempts
pub mod Connecting
pub mod Polling
pub mod Views
pub mod Secrecy
pub mod Lifecycle
pub mod Rest
pub mod Recovery
pub mod Ownership
pub mod Identities
pub mod Outcomes
pub mod Silence
use pitblu_core.Prelude.{
  Bool, Dict, Exception, List, Option, Result, String, [], err, false, if◌then◌else◌, insert,
  is_some, lookup, none, not, ok, remove, resource_not_found, some, string_eq, ℕ, ◌&&◌, ◌++◌, ◌==◌,
  ◌∷◌,
}
use pitblu_core.Models.{DiscoveredDevice}
use pitblu_core.Telemetry.{TelemetryState}
use pitblu_core.Storage.{DeviceRow, OperationRow, Store}
use pitblu_core.Storage.DeviceTable.{DevicePatch, device, update_device}
use pitblu_core.Storage.OperationTable.{save_operation}

-- The coroutine of a task: an operation is named by its identifier.
pub data Job : Type 0 where
  executes_scan : String → ℕ → Job
  executes_connection : String → String → String → Job
  reports : OperationRow → Job
  registers_heartbeat : String → String → Job

pub record Service : Type 0 where
  pub store : Store
  pub telemetry : TelemetryState
  pub candidates : Dict String DiscoveredDevice
  pub scan_results : Dict String (List DiscoveredDevice)
  pub connected_device : Option String
  pub owner : Option String
  pub closing : Bool
  pub active : Dict String String
  pub objects : Dict String OperationRow
  -- for each device, whether its recovery starts at once
  pub recoveries : Dict String Bool
  pub polling_tasks : Dict String (Unit {0})
  pub tasks : List Job
  -- whether there is a task of `_discovery_loop`
  pub discovering : Bool
  pub last_error : Option String
  pub last_failure_stage : Option String
  pub last_failure : Option Exception

abbrev pub with_store : (Store → Store) → Service → Service
with_store f s = record s { store = f s.store }

abbrev pub with_telemetry : (TelemetryState → TelemetryState) → Service → Service
with_telemetry f s = record s { telemetry = f s.telemetry }

-- `store.update_device`, as a statement
unfoldable pub set_columns : String → DevicePatch → Service → Service
set_columns key patch s = with_store (λ t. (update_device key patch t).1) s

-- `_schedule`
abbrev pub schedule : Job → Service → Service
schedule job s = record s { tasks = s.tasks ++ job ∷ [] }

-- An operation's dictionary after an assignment to it, which is then saved.
unfoldable pub save_object : OperationRow → Service → Service
save_object row s = record s {
  objects = insert row.operation_id row s.objects;
  store = save_operation row s.store;
}

-- `_new_operation`
abbrev pub queued_operation : String → Option String → String → ℕ → OperationRow
queued_operation kind device id now = record {
  operation_id = id;
  kind = kind;
  device_id = device;
  status = "queued";
  created_at = now;
  updated_at = now;
  error_code = none;
}

-- What `_finish` writes to an operation, of whose error only the presence counts.
abbrev pub finished_row : OperationRow → Bool → ℕ → OperationRow
finished_row row failed now = record row {
  status = if failed then "failed" else "succeeded";
  error_code = if failed then some "device_operation_failed" else none;
  updated_at = now;
}

-- `_finish`
unfoldable pub finish : OperationRow → Bool → ℕ → Service → Service
unfolding save_object
finish row failed now s =
    schedule (reports (finished_row row failed now)) (save_object (finished_row row failed now) s)

-- What a task that is cancelled does with its operation.
unfoldable pub interrupted : OperationRow → ℕ → Service → Service
unfolding save_object
interrupted row now s =
    save_object
      (record row { status = "failed"; error_code = some "interrupted"; updated_at = now }) s

-- The method `device`, but for the view.
unfoldable pub known_device : String → Service → Result DeviceRow
known_device key s = elim (device key s.store) [
  | none ↦ err (resource_not_found "device not found")
  | some row ↦ ok row
]

-- `_stop_recovery` and `_stop_polling`
unfoldable pub stop_recovery : String → Service → Service
stop_recovery key s = record s { recoveries = remove key s.recoveries }

unfoldable pub stop_polling : String → Service → Service
stop_polling key s = record s { polling_tasks = remove key s.polling_tasks }

-- Whether `_schedule_recovery` goes on past its first test.
abbrev pub recovers : Bool → Option DeviceRow → Bool
recovers closing none = false
recovers closing (some row) = not closing && row.auto_reconnect && row.desired_state == "connected"

-- `_schedule_recovery`
unfoldable pub schedule_recovery : String → Bool → Service → Service
schedule_recovery key immediate s =
    if recovers s.closing (device key s.store) && not (is_some (lookup key s.recoveries))
    then record s { recoveries = insert key immediate s.recoveries }
    else s
