-- ===== src/Service/Operations.antt =====
-- Operations: how they are started, and the scan (src/pitblu_core/service.py).
use pitblu_core.Prelude.{
  Bool, Dict, Exec, List, Option, Result, String, [], err, false, if◌then◌else◌, insert, is_some,
  lookup, nat_eq, none, not, ok, option_eq, resource_not_found, some, state_conflict, string_eq,
  take_last, true, ℕ, ◌&&◌, ◌==◌, ◌∷◌,
}
use pitblu_core.Models.{DiscoveredDevice}
use pitblu_core.Storage.{OperationRow}
use pitblu_core.Storage.DeviceTable.{device, no_patch}
use pitblu_core.Storage.OperationTable.{is_pending, operations}
use pitblu_core.Service.{
  Service, executes_connection, executes_scan, finish, queued_operation, save_object, schedule,
  set_columns,
}

pub data Action : Type 0 where
  connects disconnects reconnects : Action

abbrev pub action_text : Action → String
action_text connects = "connect"
action_text disconnects = "disconnect"
action_text reconnects = "reconnect"

abbrev pub is_disconnect : Action → Bool
is_disconnect disconnects = true
is_disconnect _ = false

-- The operation of a device that is queued or running, if any.
abbrev pub pending_row : Option OperationRow → Option OperationRow
pending_row none = none
pending_row (some row) = if is_pending row.status then some row else none

abbrev pub object_of : Option String → Dict String OperationRow → Option OperationRow
object_of none objects = none
object_of (some id) objects = lookup id objects

unfoldable pub pending : String → Service → Option OperationRow
pending key s = pending_row (object_of (lookup key s.active) s.objects)

-- `self._owner not in {None, device_id}`
abbrev pub is_taken : Option String → String → Bool
is_taken none key = false
is_taken (some owner) key = not (owner == key)

-- `_new_operation` and the statements behind it, once nothing speaks against the operation.
unfoldable pub begin : String → Action → String → ℕ → Service → Service
unfolding save_object set_columns
begin key action id now s =
    let owned : Service = if is_disconnect action then s else record s { owner = some key } in
    let wanted =
      set_columns key
        (record no_patch {
          desired_state = some (if is_disconnect action then "disconnected" else "connected");
        })
        owned in
    let saved = save_object (queued_operation (action_text action) (some key) id now) wanted in
    schedule (executes_connection id key (action_text action))
      (record saved { active = insert key id saved.active })

-- `start_connection_operation`, which returns the operation
unfoldable pub start_connection_operation : String → Action → String → ℕ → Exec Service OperationRow
unfolding pending begin
start_connection_operation key action id now s =
    if not (is_some (device key s.store))
    then (err (resource_not_found "device not found"), s)
    else if s.closing
    then (err (state_conflict "service is stopping"), s)
    else elim (pending key s) [
      | some row ↦
          (if row.kind == action_text action
            then (ok row, s)
            else (err (state_conflict "device operation is in progress"), s))
      | none ↦
          (if not (is_disconnect action) && is_taken s.owner key
            then (err (state_conflict "adapter is owned by another registered device"), s)
            else (
              ok (queued_operation (action_text action) (some key) id now),
              begin key action id now s,
            ))
    ]

abbrev pub is_pending_scan : OperationRow → Bool
is_pending_scan row = row.kind == "scan" && is_pending row.status

abbrev pub first_where : {A : Type 0} → (A → Bool) → List A → Option A
first_where p [] = none
first_where p (x ∷ xs) = if p x then some x else first_where p xs

-- `start_scan`
unfoldable pub start_scan : ℕ → String → ℕ → Exec Service OperationRow
unfolding save_object
start_scan duration id now s =
    if s.closing
    then (err (state_conflict "service is stopping"), s)
    else elim (first_where is_pending_scan (operations s.store)) [
      | some row ↦ (ok row, s)
      | none ↦ (
        ok (queued_operation "scan" none id now),
        schedule (executes_scan id duration) (save_object (queued_operation "scan" none id now) s),
      )
    ]

-- `{item.discovery_id: item for item in candidates}`
abbrev pub by_id : List DiscoveredDevice → Dict String DiscoveredDevice
by_id found = go [] found
  where
    go : Dict String DiscoveredDevice → List DiscoveredDevice → Dict String DiscoveredDevice
    go d [] = d
    go d (c ∷ cs) = go (insert c.discovery_id c d) cs

-- `_execute_scan` up to its end, given what the adapter finds; the results of at most a hundred
-- scans are kept
unfoldable pub execute_scan :
    OperationRow → Result (List DiscoveredDevice) → ℕ → ℕ → Service → Service
unfolding save_object finish
execute_scan operation found started ended s =
    let running : OperationRow = record operation { status = "running"; updated_at = started } in
    let begun = save_object running s in
    elim found [
      | err e ↦ finish running true ended begun
      | ok candidates ↦ finish running false ended (record begun {
        candidates = by_id candidates;
        scan_results = take_last 100 (insert operation.operation_id candidates begun.scan_results);
      })
    ]
