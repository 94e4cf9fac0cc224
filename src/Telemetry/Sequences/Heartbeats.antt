-- ===== src/Telemetry/Sequences/Heartbeats.antt =====
-- The numbers of the events of heartbeats (src/pitblu_core/telemetry.py).
use pitblu_core.Prelude.{
  Bool, Option, Option-cases, Result, String, false, if◌then◌else◌, inl, inr, lookup, nat_eq, none,
  not, option_eq, some, string_eq, true,
}
use pitblu_core.Models.{Datetime, TelemetrySource}
use pitblu_core.Events.{key_eq, type_eq}
use pitblu_core.Telemetry.{HeartbeatState, TelemetryState}
use pitblu_core.Telemetry.Heartbeats.{
  communication_succeeded, ensure_heartbeat, heartbeat_deadline, heartbeat_disconnected,
  heartbeat_expected, register_heartbeat, succeeded_present,
}
use pitblu_core.Telemetry.Sequences.{IsSequenced, if-IsSequenced, publish_heartbeat-IsSequenced}

pub register_heartbeat-IsSequenced :
    (device : String) (source : TelemetrySource) (t : Datetime) (s : TelemetryState)
    → IsSequenced s
    → IsSequenced (register_heartbeat device source t s)
unfolding register_heartbeat ensure_heartbeat
register_heartbeat-IsSequenced device source t s v =
    elim (Option-cases (lookup device (ensure_heartbeat device source s).heartbeats)) [
      | inl e ↦ rw (e, register_heartbeat) v
      | inr (h, e) ↦
          rw (e, register_heartbeat)
            (if-IsSequenced _ _ _ (publish_heartbeat-IsSequenced device h t _ v) v)
    ]

pub succeeded_present-IsSequenced :
    (device : String) (o : Option HeartbeatState) (t : Datetime) (source : TelemetrySource)
    (s : TelemetryState)
    → IsSequenced s
    → IsSequenced (succeeded_present device o t source s)
unfolding succeeded_present
succeeded_present-IsSequenced device none t source s v = v
succeeded_present-IsSequenced device (some h) t source s v =
    if-IsSequenced _ _ _ v (publish_heartbeat-IsSequenced device _ t _ v)

pub if-exec-IsSequenced :
    (b : Bool) (x y : Result (Unit {0}) × TelemetryState)
    → IsSequenced x.1
    → IsSequenced y.1
    → IsSequenced (if b then x else y).1
if-exec-IsSequenced true x y v w = v
if-exec-IsSequenced false x y v w = w

pub communication_succeeded-IsSequenced :
    (device : String) (t : Datetime) (source : TelemetrySource) (s : TelemetryState)
    → IsSequenced s
    → IsSequenced (communication_succeeded device t source s).1
unfolding communication_succeeded ensure_heartbeat
communication_succeeded-IsSequenced device t source s v =
    if-exec-IsSequenced (not t.aware) _ _ v
      (succeeded_present-IsSequenced device _ t source (ensure_heartbeat device source s) v)

pub heartbeat_disconnected-IsSequenced :
    (device : String) (t : Datetime) (s : TelemetryState)
    → IsSequenced s
    → IsSequenced (heartbeat_disconnected device t s)
unfolding heartbeat_disconnected
heartbeat_disconnected-IsSequenced device t s v = elim (Option-cases (lookup device s.heartbeats)) [
  | inl e ↦ rw (e, heartbeat_disconnected) v
  | inr (h, e) ↦
      rw (e, heartbeat_disconnected)
        (if-IsSequenced _ _ _ v (publish_heartbeat-IsSequenced device _ t _ v))
]

pub heartbeat_expected-IsSequenced :
    (device : String) (t : Datetime) (s : TelemetryState)
    → IsSequenced s
    → IsSequenced (heartbeat_expected device t s)
unfolding heartbeat_expected
heartbeat_expected-IsSequenced device t s v = elim (Option-cases (lookup device s.heartbeats)) [
  | inl e ↦ rw (e, heartbeat_expected) v
  | inr (h, e) ↦
      rw (e, heartbeat_expected)
        (if-IsSequenced _ _ _ (publish_heartbeat-IsSequenced device _ t _ v) v)
]

pub heartbeat_deadline-IsSequenced :
    (device : String) (t now : Datetime) (s : TelemetryState)
    → IsSequenced s
    → IsSequenced (heartbeat_deadline device t now s)
unfolding heartbeat_deadline
heartbeat_deadline-IsSequenced device t now s v = elim (Option-cases (lookup device s.heartbeats)) [
  | inl e ↦ rw (e, heartbeat_deadline) v
  | inr (h, e) ↦
      rw (e, heartbeat_deadline)
        (if-IsSequenced _ _ _ (publish_heartbeat-IsSequenced device _ now _ v) v)
]
