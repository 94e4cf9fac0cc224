-- ===== src/Service/Outcomes.antt =====
-- How operations and polling end (src/pitblu_core/service.py).
use pitblu_core.Prelude.{
  ==-refl, Bool, Exception, Option-cases, Result, String, err, false, if◌then◌else◌, inl, inr,
  insert, is_some, lookup, lookup-insert, not, ok, option_eq, refl, some, string_eq, true, ℕ, ◌&&◌,
  ◌∙◌, ◌≡◌,
}
use pitblu_core.Storage.{OperationRow}
use pitblu_core.Storage.DeviceTable.{device}
use pitblu_core.Storage.OperationTable.{is_finished, operation}
use pitblu_core.Service.Attempts.{Attempt, Run}
use pitblu_core.Service.{Service, finish, finished_row, recovers, save_object, schedule_recovery}
use pitblu_core.Service.Operations.{Action, is_disconnect}
use pitblu_core.Service.Connecting.{attempt, execute_connection, failure_columns, note_failure}

-- The operation's dictionary tells the end.
abbrev pub HasEnded : String → Service → Type 0
HasEnded id s =
    (row : OperationRow) × (lookup id s.objects ≡ some row) × (is_finished row.status ≡ true)

finish-HasEnded :
    (row : OperationRow) (failed : Bool) (now : ℕ) (s : Service)
    → HasEnded row.operation_id (finish row failed now s)
unfolding finish save_object
finish-HasEnded row failed now s = (
  finished_row row failed now,
  lookup-insert row.operation_id row.operation_id (finished_row row failed now) s.objects
      ∙ rw (==-refl row.operation_id),
  ended failed,
)
  where
    ended : (b : Bool) → is_finished (if b then "failed" else "succeeded") ≡ true
    ended true = refl
    ended false = refl

schedule_recovery-HasEnded :
    (id key : String) (immediate : Bool) (s : Service)
    → HasEnded id s
    → HasEnded id (schedule_recovery key immediate s)
unfolding schedule_recovery
schedule_recovery-HasEnded id key immediate s h =
    either (recovers s.closing (device key s.store) && not (is_some (lookup key s.recoveries)))
  where
    either :
        (b : Bool)
        → HasEnded id (if b then record s { recoveries = insert key immediate s.recoveries } else s)
    either true = h
    either false = h

note_failure-HasEnded :
    (key : String) (action : Action) (recovering : Bool) (operation : OperationRow) (ended : ℕ)
    (e : Exception) (r : Run)
    → HasEnded operation.operation_id (note_failure key action recovering operation ended e r)
unfolding note_failure
note_failure-HasEnded key action recovering operation ended e r =
    either (not (is_disconnect action) && not recovering)
  where
    failed : Service
    failed = finish operation true ended (failure_columns key action e r)

    fails : HasEnded operation.operation_id failed
    fails = finish-HasEnded operation true ended (failure_columns key action e r)

    either :
        (b : Bool)
        → HasEnded operation.operation_id (if b then schedule_recovery key false failed else failed)
    either true = schedule_recovery-HasEnded operation.operation_id key false failed fails
    either false = fails

-- Whatever the adapter answers, and at whatever stage it fails, the run of a connection operation
-- ends with the operation succeeded or failed.
pub execute_connection-HasEnded :
    (operation : OperationRow) (key : String) (action : Action) (recovering : Bool) (a : Attempt)
    (s : Service)
    → HasEnded operation.operation_id (execute_connection operation key action recovering a s)
unfolding execute_connection
execute_connection-HasEnded operation key action recovering a s =
    let running : OperationRow = record operation { status = "running"; updated_at = a.started } in
    let begun = save_object running s in
    elim (Option-cases (device key begun.store)) [
      | inl e ↦ rw (e, execute_connection) (finish-HasEnded running true a.ended begun)
      | inr (row, e) ↦
          rw (e, execute_connection)
            (by_result
              (attempt key action recovering row a
                (record { service = begun; stage = "prepare" })).0
              (attempt key action recovering row a
                (record { service = begun; stage = "prepare" })).1)
    ]
  where
    by_result :
        (result : Result (Unit {0})) (r : Run)
        → HasEnded operation.operation_id (elim result [
          | ok _ ↦
              finish
                (record operation { status = "running"; updated_at = a.started })
                false
                a.ended
                r.service
          | err e ↦
              note_failure key action recovering
                (record operation { status = "running"; updated_at = a.started })
                a.ended
                e
                r
        ])
    by_result (ok _) r =
        finish-HasEnded (record operation { status = "running"; updated_at = a.started }) false
          a.ended r.service
    by_result (err e) r =
        note_failure-HasEnded key action recovering
          (record operation { status = "running"; updated_at = a.started }) a.ended e r
