-- ===== src/Telemetry/Heartbeats.antt =====
-- The thermometer heartbeat of src/pitblu_core/telemetry.py.
use pitblu_core.Prelude.{
  Bool, Exec, Option, String, err, false, if◌then◌else◌, insert, is_some, leb, lookup, nat_eq, none,
  not, ok, remove, set_default, some, string_eq, value_error, ◌&&◌, ◌+◌, ◌==◌,
}
use pitblu_core.Models.{Datetime, TelemetrySource}
use pitblu_core.Events.{heartbeat_state, thermometer_heartbeat}
use pitblu_core.Telemetry.{
  HeartbeatState, HeartbeatStatus, TelemetryState, announce, device_key, disconnected, healthy,
  is_disconnected, is_healthy, next_sequence, stale, status_text, unknown,
}

unfoldable pub ensure_heartbeat : String → TelemetrySource → TelemetryState → TelemetryState
ensure_heartbeat device source s = record s {
  heartbeats =
      set_default device
        (record {
          adapter_source = source;
          status = unknown;
          last_success = none;
          successful_source = none;
          sequence = 0;
        })
        s.heartbeats;
}

-- `_publish_heartbeat`: the heartbeat's own number is the one that the event gets
unfoldable pub publish_heartbeat :
    String → HeartbeatState → Datetime → TelemetryState → TelemetryState
publish_heartbeat device heartbeat observed_at s =
    let key = device_key device thermometer_heartbeat none in
    let sequence = next_sequence key (heartbeat.sequence + 1) s in
    announce device
      (record {
        kind = thermometer_heartbeat;
        probe = none;
        observed_sequence = heartbeat.sequence + 1;
        source = heartbeat.adapter_source;
        observed_at = observed_at;
        payload =
            heartbeat_state (status_text heartbeat.status) heartbeat.last_success
              (is_healthy heartbeat.status) s.heartbeat_stale_after;
      })
      (record s {
        heartbeats = insert device (record heartbeat { sequence = sequence }) s.heartbeats;
      })

unfoldable pub register_present :
    String → Option HeartbeatState → Datetime → TelemetryState → TelemetryState
register_present device none now s = s
register_present device (some heartbeat) now s =
    if heartbeat.sequence == 0 then publish_heartbeat device heartbeat now s else s

unfoldable pub register_heartbeat :
    String → TelemetrySource → Datetime → TelemetryState → TelemetryState
unfolding register_present
register_heartbeat device source now s =
    let ensured = ensure_heartbeat device source s in
    register_present device (lookup device ensured.heartbeats) now ensured

-- `previous is not None and observed_at <= previous`
abbrev pub is_old : Datetime → Option Datetime → Bool
is_old t none = false
is_old t (some previous) = leb t.micros previous.micros

-- The heartbeat after a success, whose deadline replaces the one that was waited for.
unfoldable pub succeeded_present :
    String → Option HeartbeatState → Datetime → TelemetrySource → TelemetryState → TelemetryState
succeeded_present device none observed_at source s = s
succeeded_present device (some heartbeat) observed_at source s =
    if is_old observed_at heartbeat.last_success
    then s
    else (let published =
          publish_heartbeat device
            (record heartbeat {
              status = healthy;
              last_success = some observed_at;
              successful_source = some source;
            })
            observed_at
            (record s { heartbeat_stale_tasks = remove device s.heartbeat_stale_tasks }) in
        record published {
          heartbeat_stale_tasks = insert device observed_at published.heartbeat_stale_tasks;
        })

unfoldable pub communication_succeeded :
    String → Datetime → TelemetrySource → Exec TelemetryState (Unit {0})
unfolding succeeded_present
communication_succeeded device observed_at source s =
    if not observed_at.aware
    then (err (value_error "successful communication time must be timezone-aware"), s)
    else (let ensured = ensure_heartbeat device source s in
        (
          ok tt,
          succeeded_present device (lookup device ensured.heartbeats) observed_at source ensured,
        ))

unfoldable pub disconnected_present :
    String → Option HeartbeatState → Datetime → TelemetryState → TelemetryState
disconnected_present device none now s = s
disconnected_present device (some heartbeat) now s =
    let quiet : TelemetryState = record s {
      heartbeat_stale_tasks = remove device s.heartbeat_stale_tasks;
    } in
    if is_disconnected heartbeat.status
    then quiet
    else publish_heartbeat device (record heartbeat { status = disconnected }) now quiet

unfoldable pub heartbeat_disconnected : String → Datetime → TelemetryState → TelemetryState
unfolding disconnected_present
heartbeat_disconnected device now s = disconnected_present device (lookup device s.heartbeats) now s

-- `"unknown" if heartbeat.last_successful_communication_at is None else "stale"`
abbrev pub status_without_link : HeartbeatState → HeartbeatStatus
status_without_link h = if is_some h.last_success then stale else unknown

unfoldable pub expected_present :
    String → Option HeartbeatState → Datetime → TelemetryState → TelemetryState
expected_present device none now s = s
expected_present device (some heartbeat) now s =
    if is_disconnected heartbeat.status
    then publish_heartbeat device (record heartbeat { status = status_without_link heartbeat }) now
        s
    else s

unfoldable pub heartbeat_expected : String → Datetime → TelemetryState → TelemetryState
unfolding expected_present
heartbeat_expected device now s = expected_present device (lookup device s.heartbeats) now s

-- `heartbeat.last_successful_communication_at == successful_at`
abbrev pub is_success_at : Datetime → Option Datetime → Bool
is_success_at t none = false
is_success_at t (some u) = u.micros == t.micros

unfoldable pub due_present :
    String → Option HeartbeatState → Datetime → Datetime → TelemetryState → TelemetryState
due_present device none successful_at now s = s
due_present device (some heartbeat) successful_at now s =
    if is_healthy heartbeat.status && is_success_at successful_at heartbeat.last_success
    then publish_heartbeat device (record heartbeat { status = stale }) now s
    else s

-- `_mark_heartbeat_stale_after_deadline` from the end of its sleep on
unfoldable pub heartbeat_deadline : String → Datetime → Datetime → TelemetryState → TelemetryState
unfolding due_present
heartbeat_deadline device successful_at now s =
    due_present device (lookup device s.heartbeats) successful_at now s
