-- ===== src/Telemetry/Sequences/Snapshots.antt =====
-- The numbers of the events of snapshots (src/pitblu_core/telemetry.py).
use pitblu_core.Prelude.{
  List, Option, Option-cases, Result, String, [], after_result, arith, err, inl, inr, lookup,
  modify, nat_eq, none, not, ok, option_eq, some, string_eq, ℕ, ◌==◌, ◌∙◌, ◌∷◌,
}
use pitblu_core.Models.{Datetime, DeviceSnapshot}
use pitblu_core.Events.{key_eq, type_eq}
use pitblu_core.Telemetry.Sequences.Heartbeats.{
  communication_succeeded-IsSequenced, heartbeat_disconnected-IsSequenced, if-exec-IsSequenced,
}
use pitblu_core.Telemetry.{CurrentSnapshot, TelemetryState}
use pitblu_core.Telemetry.Heartbeats.{heartbeat_disconnected}
use pitblu_core.Telemetry.Snapshots.{
  accept_snapshot, announce_lost, connection, is_not_newer, mark_stale, note_success, record_newer,
  record_snapshot, snapshot_deadline,
}
use pitblu_core.Telemetry.Lifecycle.{forget, remove_device}
use pitblu_core.Telemetry.Sequences.{
  IsSequenced, announce-IsSequenced, announce_all-IsSequenced, if-IsSequenced, last_used-restrict,
}

pub announce_lost-IsSequenced :
    (now : Datetime) (reason : String) (due : List (String × CurrentSnapshot)) (s : TelemetryState)
    → IsSequenced s
    → IsSequenced (announce_lost now reason due s)
unfolding announce_lost
announce_lost-IsSequenced now reason [] s v = v
announce_lost-IsSequenced now reason ((device, current) ∷ rest) s v =
    announce_lost-IsSequenced now reason rest _ (announce_all-IsSequenced device _ s v)

pub mark_stale-IsSequenced :
    (now : Datetime) (force : Option String) (reason : String) (s : TelemetryState)
    → IsSequenced s
    → IsSequenced (mark_stale now force reason s).1
unfolding mark_stale
mark_stale-IsSequenced now force reason s v = announce_lost-IsSequenced now reason _ _ v

pub note_success-IsSequenced :
    (device : String) (snapshot : DeviceSnapshot) (o : Option Datetime) (s : TelemetryState)
    → IsSequenced s
    → IsSequenced (note_success device snapshot o s).1
unfolding note_success
note_success-IsSequenced device snapshot none s v = v
note_success-IsSequenced device snapshot (some t) s v =
    communication_succeeded-IsSequenced device t snapshot.source s v

pub after_result-IsSequenced :
    (r : Result (Unit {0})) (f : TelemetryState → TelemetryState) (s : TelemetryState)
    → IsSequenced s
    → IsSequenced (f s)
    → IsSequenced (after_result r (λ _. modify f) s).1
after_result-IsSequenced (ok a) f s v w = w
after_result-IsSequenced (err e) f s v w = v

pub accept_snapshot-IsSequenced :
    (device : String) (ref : ℕ) (snapshot : DeviceSnapshot) (o : Option CurrentSnapshot)
    (s : TelemetryState)
    → IsSequenced s
    → IsSequenced (accept_snapshot device ref snapshot o s)
unfolding accept_snapshot
accept_snapshot-IsSequenced device ref snapshot o s v = announce_all-IsSequenced device _ _ v

pub record_newer-IsSequenced :
    (device : String) (ref : ℕ) (snapshot : DeviceSnapshot) (o : Option CurrentSnapshot)
    (s : TelemetryState)
    → IsSequenced s
    → IsSequenced (record_newer device ref snapshot o s).1
unfolding record_newer
record_newer-IsSequenced device ref snapshot o s v =
    let noted = note_success device snapshot snapshot.successful_communication_at s in
    let w = note_success-IsSequenced device snapshot snapshot.successful_communication_at s v in
    after_result-IsSequenced noted.0 (accept_snapshot device ref snapshot o) noted.1 w
      (accept_snapshot-IsSequenced device ref snapshot o noted.1 w)

pub record_snapshot-IsSequenced :
    (device : String) (ref : ℕ) (snapshot : DeviceSnapshot) (now : Datetime) (s : TelemetryState)
    → IsSequenced s
    → IsSequenced (record_snapshot device ref snapshot now s).1
unfolding record_snapshot
record_snapshot-IsSequenced device ref snapshot now s v =
    if-exec-IsSequenced (is_not_newer snapshot (lookup device s.current))
      (ok tt, (mark_stale now none "stale" s).1)
      (record_newer device ref snapshot (lookup device s.current) s)
      (mark_stale-IsSequenced now none "stale" s v)
      (record_newer-IsSequenced device ref snapshot (lookup device s.current) s v)

pub snapshot_deadline-IsSequenced :
    (device : String) (ref : ℕ) (now : Datetime) (s : TelemetryState)
    → IsSequenced s
    → IsSequenced (snapshot_deadline device ref now s)
unfolding snapshot_deadline
snapshot_deadline-IsSequenced device ref now s v = elim (Option-cases (lookup device s.current)) [
  | inl e ↦ rw (e, snapshot_deadline) v
  | inr (c, e) ↦
      rw (e, snapshot_deadline)
        (if-IsSequenced _ _ _ (mark_stale-IsSequenced now none "stale" s v) v)
]

pub connection-IsSequenced :
    (device state : String) (t0 t1 t2 : Datetime) (s : TelemetryState)
    → IsSequenced s
    → IsSequenced (connection device state t0 t1 t2 s)
unfolding connection
connection-IsSequenced device state t0 t1 t2 s v = elim (Option-cases (lookup device s.current)) [
  | inl e ↦ rw (e, connection) v
  | inr (c, e) ↦
      let told = announce-IsSequenced device _ s v in
      rw (e, connection)
        (if-IsSequenced _ _ _
          (announce-IsSequenced device _ _
            (mark_stale-IsSequenced t1 (some device) "disconnected" _ told))
          told)
]

pub forget-IsSequenced :
    (device : String) (s : TelemetryState) → IsSequenced s → IsSequenced (forget device s)
unfolding forget
forget-IsSequenced device s v = record {
  increasing = v.increasing;
  exact = λ k.
      last_used-restrict k (λ j. not (j.device == some device)) s.event_sequences
      ∙ ground (arith, v.exact k);
}

pub remove_device-IsSequenced :
    (device : String) (t0 t1 t2 t3 : Datetime) (s : TelemetryState)
    → IsSequenced s
    → IsSequenced (remove_device device t0 t1 t2 t3 s)
unfolding remove_device
remove_device-IsSequenced device t0 t1 t2 t3 s v =
    let left = connection device "disconnected" t0 t1 t2 s in
    forget-IsSequenced device (heartbeat_disconnected device t3 left) (
      heartbeat_disconnected-IsSequenced device t3 left
        (connection-IsSequenced device "disconnected" t0 t1 t2 s v))
