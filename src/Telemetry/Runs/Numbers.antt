-- ===== src/Telemetry/Runs/Numbers.antt =====
-- The sequence numbers over whole runs (src/pitblu_core/telemetry.py).
use pitblu_core.Prelude.{List, lookup, nat_eq, refl, ℕ}
use pitblu_core.Telemetry.Sequences.Heartbeats.{
  communication_succeeded-IsSequenced, heartbeat_deadline-IsSequenced,
  heartbeat_disconnected-IsSequenced, heartbeat_expected-IsSequenced,
  register_heartbeat-IsSequenced,
}
use pitblu_core.Telemetry.Sequences.Snapshots.{
  connection-IsSequenced, mark_stale-IsSequenced, record_snapshot-IsSequenced,
  remove_device-IsSequenced, snapshot_deadline-IsSequenced,
}
use pitblu_core.Telemetry.{TelemetryState, new_telemetry}
use pitblu_core.Telemetry.Heartbeats.{ensure_heartbeat}
use pitblu_core.Telemetry.Lifecycle.{close}
use pitblu_core.Telemetry.Runs.{
  TelemetryOperation, closes, connects, ensures, expects, heartbeat_due, loses, marks, records,
  registers, removes, run, run_induction, snapshot_due, step, succeeds,
}
use pitblu_core.Telemetry.Sequences.{Increasing, IsSequenced}

step-IsSequenced :
    (s : TelemetryState) (op : TelemetryOperation) → IsSequenced s → IsSequenced (step s op)
unfolding step ensure_heartbeat close
step-IsSequenced s (ensures device source) v = v
step-IsSequenced s (registers device source now) v =
    register_heartbeat-IsSequenced device source now s v
step-IsSequenced s (succeeds device t source) v =
    communication_succeeded-IsSequenced device t source s v
step-IsSequenced s (loses device now) v = heartbeat_disconnected-IsSequenced device now s v
step-IsSequenced s (expects device now) v = heartbeat_expected-IsSequenced device now s v
step-IsSequenced s (heartbeat_due device t now) v = heartbeat_deadline-IsSequenced device t now s v
step-IsSequenced s (records device ref snapshot now) v =
    record_snapshot-IsSequenced device ref snapshot now s v
step-IsSequenced s (marks now force reason) v = mark_stale-IsSequenced now force reason s v
step-IsSequenced s (snapshot_due device ref now) v =
    snapshot_deadline-IsSequenced device ref now s v
step-IsSequenced s (connects device state t0 t1 t2) v =
    connection-IsSequenced device state t0 t1 t2 s v
step-IsSequenced s (removes device t0 t1 t2 t3) v = remove_device-IsSequenced device t0 t1 t2 t3 s v
step-IsSequenced s closes v = v

new-IsSequenced : (a b : ℕ) → IsSequenced (new_telemetry a b)
unfolding lookup
new-IsSequenced a b = record { increasing = tt; exact = λ k. refl }

-- Whatever the operations and timers, in any order, and whatever numbers the devices report: every
-- event that the telemetry publishes has a number above that of the event before it of the same
-- device, kind and probe, back to the last time that the device was forgotten.
pub run-Increasing :
    (stale_after heartbeat_stale_after : ℕ) (ops : List TelemetryOperation)
    → Increasing (run (new_telemetry stale_after heartbeat_stale_after) ops).calls
run-Increasing a b ops =
    (run_induction IsSequenced step-IsSequenced (new_telemetry a b) ops
      (new-IsSequenced a b)).increasing
