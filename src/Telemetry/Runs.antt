-- ===== src/Telemetry/Runs.antt =====
-- Any operations on the telemetry (src/pitblu_core/telemetry.py) in any order: the methods that the
-- service calls, and the ends of the timers' sleeps.
pub mod Numbers
use pitblu_core.Prelude.{List, Option, String, [], ℕ, ◌∷◌}
use pitblu_core.Models.{Datetime, DeviceSnapshot, TelemetrySource}
use pitblu_core.Telemetry.{TelemetryState}
use pitblu_core.Telemetry.Heartbeats.{
  communication_succeeded, ensure_heartbeat, heartbeat_deadline, heartbeat_disconnected,
  heartbeat_expected, register_heartbeat,
}
use pitblu_core.Telemetry.Snapshots.{connection, mark_stale, record_snapshot, snapshot_deadline}
use pitblu_core.Telemetry.Lifecycle.{close, remove_device}

pub data TelemetryOperation : Type 0 where
  ensures : String → TelemetrySource → TelemetryOperation
  registers : String → TelemetrySource → Datetime → TelemetryOperation
  succeeds : String → Datetime → TelemetrySource → TelemetryOperation
  loses expects : String → Datetime → TelemetryOperation
  heartbeat_due : String → Datetime → Datetime → TelemetryOperation
  records : String → ℕ → DeviceSnapshot → Datetime → TelemetryOperation
  marks : Datetime → Option String → String → TelemetryOperation
  snapshot_due : String → ℕ → Datetime → TelemetryOperation
  connects : String → String → Datetime → Datetime → Datetime → TelemetryOperation
  removes : String → Datetime → Datetime → Datetime → Datetime → TelemetryOperation
  closes : TelemetryOperation

-- The state after an operation, whether it returned or raised.
unfoldable pub step : TelemetryState → TelemetryOperation → TelemetryState
step s (ensures device source) = ensure_heartbeat device source s
step s (registers device source now) = register_heartbeat device source now s
step s (succeeds device t source) = (communication_succeeded device t source s).1
step s (loses device now) = heartbeat_disconnected device now s
step s (expects device now) = heartbeat_expected device now s
step s (heartbeat_due device t now) = heartbeat_deadline device t now s
step s (records device ref snapshot now) = (record_snapshot device ref snapshot now s).1
step s (marks now force reason) = (mark_stale now force reason s).1
step s (snapshot_due device ref now) = snapshot_deadline device ref now s
step s (connects device state t0 t1 t2) = connection device state t0 t1 t2 s
step s (removes device t0 t1 t2 t3) = remove_device device t0 t1 t2 t3 s
step s closes = close s

unfoldable pub run : TelemetryState → List TelemetryOperation → TelemetryState
run s [] = s
run s (op ∷ ops) = run (step s op) ops

-- An invariant of each step is one of each run.
pub run_induction :
    (P : TelemetryState → Type 0)
    → ((s : TelemetryState) (op : TelemetryOperation) → P s → P (step s op))
    → (s : TelemetryState) (ops : List TelemetryOperation) → P s
    → P (run s ops)
unfolding run
run_induction P keeps s [] h = h
run_induction P keeps s (op ∷ ops) h = run_induction P keeps (step s op) ops (keeps s op h)
