-- ===== src/Storage/OperationTable.antt =====
-- The tables of operations and of operational events (src/pitblu_core/storage.py).
use pitblu_core.Prelude.{
  Bool, List, Option, String, [], any, if◌then◌else◌, keep, map, nat_eq, none, not, some, string_eq,
  take, ℕ, ◌++◌, ◌+◌, ◌==◌, ◌||◌, ◌∷◌,
}
use pitblu_core.Storage.{OperationRow, Store, order_desc}

abbrev pub is_finished : String → Bool
is_finished status = status == "succeeded" || status == "failed"

abbrev pub is_pending : String → Bool
is_pending status = status == "queued" || status == "running"

-- `INSERT … ON CONFLICT(operation_id) DO UPDATE`
unfoldable pub upsert : OperationRow → List OperationRow → List OperationRow
upsert v [] = v ∷ []
upsert v (r ∷ rows) =
    if r.operation_id == v.operation_id
    then record r { status = v.status; updated_at = v.updated_at; error_code = v.error_code } ∷ rows
    else r ∷ upsert v rows

-- `SELECT … ORDER BY created_at DESC LIMIT 100`
unfoldable pub newest_operations : List OperationRow → List OperationRow
newest_operations rows = take 100 (order_desc (λ r. r.created_at) rows)

-- The rows that the deletion behind it leaves.
unfoldable pub prune : List OperationRow → List OperationRow
prune rows =
    let newest = newest_operations rows in
    keep (λ r. not (is_finished r.status) || any (λ n. n.operation_id == r.operation_id) newest)
      rows

unfoldable pub save_operation : OperationRow → Store → Store
unfolding upsert prune
save_operation v s = record s { operations = prune (upsert v s.operations) }

unfoldable pub operations : Store → List OperationRow
operations s = newest_operations s.operations

unfoldable pub find_operation : String → List OperationRow → Option OperationRow
find_operation key [] = none
find_operation key (r ∷ rows) = if r.operation_id == key then some r else find_operation key rows

unfoldable pub operation : String → Store → Option OperationRow
unfolding find_operation
operation key s = find_operation key s.operations

abbrev pub interrupt_row : ℕ → OperationRow → OperationRow
interrupt_row now r =
    if is_pending r.status
    then record r { status = "failed"; error_code = some "interrupted"; updated_at = now }
    else r

unfoldable pub interrupt_operations : ℕ → Store → Store
interrupt_operations now s = record s { operations = map (interrupt_row now) s.operations }

unfoldable pub append_event : String → Store → Store
append_event payload s =
    let events = s.operational_events ++ (s.next_ordinal, payload) ∷ [] in
    let newest = take 100 (order_desc (λ e. e.0) events) in
    record s {
      operational_events = keep (λ e. any (λ n. n.0 == e.0) newest) events;
      next_ordinal = s.next_ordinal + 1;
    }

unfoldable pub recent_events : Store → List String
recent_events s = map (λ e. e.1) s.operational_events
