-- ===== src/Telemetry/Lifecycle.antt =====
-- The removal of a device, and the end of the service (src/pitblu_core/telemetry.py).
use pitblu_core.Prelude.{String, [], not, option_eq, remove, restrict, some, string_eq, ◌==◌, ◌∷◌}
use pitblu_core.Models.{Datetime}
use pitblu_core.Events.{key_eq}
use pitblu_core.Telemetry.{TelemetryState, forgets}
use pitblu_core.Telemetry.Heartbeats.{heartbeat_disconnected}
use pitblu_core.Telemetry.Snapshots.{connection}

-- The statements of `remove` behind the two awaited calls.
unfoldable pub forget : String → TelemetryState → TelemetryState
forget device s = record s {
  stale_tasks = remove device s.stale_tasks;
  heartbeat_stale_tasks = remove device s.heartbeat_stale_tasks;
  current = remove device s.current;
  heartbeats = remove device s.heartbeats;
  calls = forgets device ∷ s.calls;
  event_sequences = restrict (λ k. not (k.device == some device)) s.event_sequences;
}

-- The method `remove`, with the four times that it may read.
unfoldable pub remove_device :
    String → Datetime → Datetime → Datetime → Datetime → TelemetryState → TelemetryState
unfolding forget
remove_device device t0 t1 t2 t3 s =
    forget device (heartbeat_disconnected device t3 (connection device "disconnected" t0 t1 t2 s))

-- The method `close`: the tasks are cancelled and forgotten.
unfoldable pub close : TelemetryState → TelemetryState
close s = record s { stale_tasks = []; heartbeat_stale_tasks = [] }
