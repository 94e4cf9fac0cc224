-- ===== src/Service/Ownership.antt =====
-- Who may use the radio (src/pitblu_core/service.py, `start_connection_operation`).
pub mod Requests
use pitblu_core.Prelude.{
  ==-refl, ==_iff, Bool-cases, Dict, Option-cases, String, arith, err, false, if◌then◌else◌, inl,
  inr, insert, is_some, lookup, lookup-insert, ok, option_eq, refl, some, state_conflict, string_eq,
  true, ℕ, ◌==◌, ◌≡◌, ◌≢◌,
}
use pitblu_core.Storage.{OperationRow}
use pitblu_core.Storage.DeviceTable.{device}
use pitblu_core.Storage.OperationTable.{is_pending}
use pitblu_core.Service.{Service, queued_operation, save_object, set_columns}
use pitblu_core.Service.Operations.{
  Action, action_text, begin, connects, disconnects, is_disconnect, object_of, pending, pending_row,
  reconnects, start_connection_operation,
}

-- While a device owns the adapter, no request to connect or reconnect another one changes anything.
owner_excludes :
    (key owner : String) (action : Action) (id : String) (now : ℕ) (s : Service)
    → s.owner ≡ some owner
    → owner ≢ key
    → is_disconnect action ≡ false
    → (start_connection_operation key action id now s).1 ≡ s
unfolding start_connection_operation
owner_excludes key owner action id now s h k c = elim (Option-cases (pending key s)) [
  | inl e ↦ ground (arith, ==_iff owner key)
  | inr (row, e) ↦ ground arith
]

-- While an operation of a device is queued or running, no request for the device changes anything:
-- one for the same action is told of the operation, and any other is refused.
pending_excludes :
    (key : String) (action : Action) (id : String) (now : ℕ) (s : Service) (row : OperationRow)
    → is_some (device key s.store) ≡ true
    → s.closing ≡ false
    → pending key s ≡ some row
    → start_connection_operation key action id now s ≡ (
        if row.kind == action_text action
        then (ok row, s)
        else (err (state_conflict "device operation is in progress"), s))
unfolding start_connection_operation
pending_excludes key action id now s row h c p = ground (arith, h, c, p)

begin-active :
    (key : String) (action : Action) (id : String) (now : ℕ) (s : Service)
    → (begin key action id now s).active ≡ insert key id s.active
unfolding begin set_columns save_object
begin-active key connects id now s = refl
begin-active key disconnects id now s = refl
begin-active key reconnects id now s = refl

begin-objects :
    (key : String) (action : Action) (id : String) (now : ℕ) (s : Service)
    → (begin key action id now s).objects
      ≡ insert id (queued_operation (action_text action) (some key) id now) s.objects
unfolding begin set_columns save_object
begin-objects key connects id now s = refl
begin-objects key disconnects id now s = refl
begin-objects key reconnects id now s = refl

-- The pending operation of a device after a new operation was put in.
put_in :
    (key other id : String) (row : OperationRow) (active : Dict String String)
    (objects : Dict String OperationRow)
    → is_pending row.status ≡ true
    → ((j : String) → lookup other active ≡ some j → j ≢ id)
    → pending_row (object_of (lookup other (insert key id active)) (insert id row objects))
      ≡ (if key == other then some row else pending_row (object_of (lookup other active) objects))
put_in key other id row active objects h new = elim (Bool-cases (key == other)) [
  | inl e ↦
      rw (lookup-insert other key id active, e)
        (rw (lookup-insert id id row objects, ==-refl id, h))
  | inr e ↦
      rw (lookup-insert other key id active, e)
        (elim (Option-cases (lookup other active)) [
          | inl n ↦ rw n
          | inr (j, n) ↦
              rw (n, lookup-insert j id row objects) (ground (arith, ==_iff id j, new j n))
        ])
]

-- A request that nothing speaks against starts an operation, which is then the device's pending one;
-- every other device keeps its own. The identifier of the operation is new.
pub begin-pending :
    (key other : String) (action : Action) (id : String) (now : ℕ) (s : Service)
    → ((k j : String) → lookup k s.active ≡ some j → j ≢ id)
    → pending other (begin key action id now s) ≡ (
        if key == other
        then some (queued_operation (action_text action) (some key) id now)
        else pending other s)
unfolding pending
begin-pending key other action id now s new =
    rw (begin-active key action id now s, begin-objects key action id now s)
      (put_in key other id (queued_operation (action_text action) (some key) id now) s.active
        s.objects refl (new other))
