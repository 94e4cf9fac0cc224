-- ===== src/Service/Views.antt =====
-- What the service tells of its devices, operations and itself (src/pitblu_core/service.py).
use pitblu_core.Prelude.{
  Bool, Exception, Exec, List, Option, Result, String, [], after_result, bind_result, err, gets,
  length, lookup, none, not, ok, pure, reject_if, resource_not_found, some, string_eq, ℕ, ◌==◌,
  ◌>>=◌, ◌∷◌,
}
use pitblu_core.Models.{DiscoveredDevice, TelemetrySource}
use pitblu_core.Telemetry.Heartbeats.{ensure_heartbeat}
use pitblu_core.Telemetry.Views.{
  BatteryView, HeartbeatView, ProbeView, battery_view, heartbeat, probes,
}
use pitblu_core.Storage.{DeviceRow, OperationRow}
use pitblu_core.Storage.DeviceTable.{list_devices}
use pitblu_core.Storage.OperationTable.{operation}
use pitblu_core.Service.{Service, known_device}

-- `_device_view` of the module and of the class: the row, and the heartbeat
pub record DeviceView : Type 0 where
  pub row : DeviceRow
  pub beat : HeartbeatView

abbrev pub with_row : DeviceRow → Result HeartbeatView → Result DeviceView
with_row row (ok beat) = ok (record { row = row; beat = beat })
with_row row (err e) = err e

unfoldable pub device_view : TelemetrySource → DeviceRow → Exec Service DeviceView
device_view source row s =
    let t = ensure_heartbeat row.device_id source s.telemetry in
    (
      with_row row (heartbeat row.device_id (row.desired_state == "disconnected") t),
      record s { telemetry = t },
    )

-- `[self._device_view(row) for row in …]`
unfoldable pub device_views : TelemetrySource → List DeviceRow → Exec Service (List DeviceView)
unfolding device_view
device_views source [] = pure []
device_views source (row ∷ rows) = do
  view ← device_view source row
  views ← device_views source rows
  pure (view ∷ views)

-- `devices`
unfoldable pub devices : TelemetrySource → Exec Service (List DeviceView)
unfolding device_views
devices source s = device_views source (list_devices s.store) s

-- `device`
unfoldable pub shown_device : TelemetrySource → String → Exec Service DeviceView
unfolding device_view known_device
shown_device source key s = after_result (known_device key s) (device_view source) s

-- `probes` and `battery`
unfoldable pub shown_probes : TelemetrySource → String → Exec Service (List ProbeView)
unfolding shown_device
shown_probes source key = shown_device source key >>= λ _. gets (λ s. probes key s.telemetry)

unfoldable pub shown_battery : TelemetrySource → String → Exec Service (Option BatteryView)
unfolding shown_device
shown_battery source key = shown_device source key >>= λ _. gets (λ s. battery_view key s.telemetry)

-- `operation`
unfoldable pub shown_operation : String → Service → Result OperationRow
shown_operation id s = elim (operation id s.store) [
  | none ↦ err (resource_not_found "operation not found")
  | some row ↦ ok row
]

-- `scan_result`: the operation, and what the scan found
unfoldable pub scan_result : String → Service → Result (OperationRow × List DiscoveredDevice)
unfolding shown_operation
scan_result id s = bind_result (shown_operation id s) λ row.
    reject_if (not (row.kind == "scan")) (resource_not_found "scan not found")
      (ok (row, elim (lookup id s.scan_results) [ none ↦ [] | some found ↦ found ]))

-- `diagnostics`, given whether the adapter is connected and the discovery loop's last error
pub record Diagnostics : Type 0 where
  pub stopping : Bool
  pub is_connected : Bool
  pub polling_tasks : ℕ
  pub recovery_tasks : ℕ
  pub pending_operations : ℕ
  pub error : Option String
  pub failure_stage : Option String
  pub failure : Option Exception
  pub discovery_error : Option String

unfoldable pub diagnostics : Bool → Option String → Service → Diagnostics
diagnostics is_connected discovery_error s = record {
  stopping = s.closing;
  is_connected = is_connected;
  polling_tasks = length s.polling_tasks;
  recovery_tasks = length s.recoveries;
  pending_operations = length s.tasks;
  error = s.last_error;
  failure_stage = s.last_failure_stage;
  failure = s.last_failure;
  discovery_error = discovery_error;
}
