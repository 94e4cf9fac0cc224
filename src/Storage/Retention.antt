-- ===== src/Storage/Retention.antt =====
-- Which operations the store keeps (src/pitblu_core/storage.py).
use pitblu_core.Prelude.{
  ==_iff, All, Bool, List, Option, String, [], any, arith, false, if◌then◌else◌, keep, map, none,
  not, refl, some, string_eq, true, ℕ, ◌==◌, ◌||◌, ◌∙◌, ◌∷◌, ◌≡◌,
}
use pitblu_core.Storage.{OperationRow, Store}
use pitblu_core.Storage.OperationTable.{
  find_operation, interrupt_operations, interrupt_row, is_finished, is_pending, newest_operations,
  operation, prune, save_operation, upsert,
}

find-keep :
    (p : OperationRow → Bool) (key : String) (rows : List OperationRow) (r : OperationRow)
    → find_operation key rows ≡ some r
    → p r ≡ true
    → find_operation key (keep p rows) ≡ some r
unfolding find_operation
find-keep p key [] r e h = cc
find-keep p key (x ∷ rows) r e h = ground (arith, find-keep p key rows r)

-- The row that is stored for the key, from the one that was there.
abbrev pub stored : OperationRow → Option OperationRow → OperationRow
stored v none = v
stored v (some r) = record r {
  status = v.status;
  updated_at = v.updated_at;
  error_code = v.error_code;
}

find-upsert :
    (v : OperationRow) (key : String) (rows : List OperationRow)
    → find_operation key (upsert v rows) ≡ (
        if v.operation_id == key
        then some (stored v (find_operation key rows))
        else find_operation key rows)
unfolding find_operation upsert
find-upsert v key [] = refl
find-upsert v key (r ∷ rows) = ground (
  arith,
  find-upsert v key rows,
  ==_iff v.operation_id key,
  ==_iff r.operation_id v.operation_id,
  ==_iff r.operation_id key,
)

find-prune :
    (key : String) (rows : List OperationRow) (r : OperationRow)
    → find_operation key rows ≡ some r
    → is_finished r.status ≡ false
    → find_operation key (prune rows) ≡ some r
unfolding prune
find-prune key rows r e h =
    find-keep
      (λ x.
        not (is_finished x.status)
        || any (λ n. n.operation_id == x.operation_id) (newest_operations rows))
      key rows r e (rw h)

-- However many operations the store holds, one that is not finished is never dropped: after a save
-- it is told as it was, and the saved one, if it is not finished, with its new status.
pub save_operation_keeps :
    (v : OperationRow) (key : String) (s : Store) (r : OperationRow)
    → (if v.operation_id == key then some (stored v (operation key s)) else operation key s)
      ≡ some r
    → is_finished r.status ≡ false
    → operation key (save_operation v s) ≡ some r
unfolding save_operation operation
save_operation_keeps v key s r e h =
    find-prune key (upsert v s.operations) r (find-upsert v key s.operations ∙ e) h

abbrev pub NotPending : OperationRow → Type 0
NotPending r = is_pending r.status ≡ false

interrupted :
    (now : ℕ) (b : Bool) (r : OperationRow)
    → is_pending r.status ≡ b
    → NotPending (
        if b
        then record r { status = "failed"; error_code = some "interrupted"; updated_at = now }
        else r)
interrupted now true r e = refl
interrupted now false r e = e

interrupted_rows :
    (now : ℕ) (rows : List OperationRow) → All NotPending (map (interrupt_row now) rows)
interrupted_rows now [] = tt
interrupted_rows now (r ∷ rows) =
    (interrupted now (is_pending r.status) r refl, interrupted_rows now rows)

find-interrupt :
    (now : ℕ) (key : String) (rows : List OperationRow)
    → find_operation key (map (interrupt_row now) rows)
      ≡ elim (find_operation key rows) [ none ↦ none | some r ↦ some (interrupt_row now r) ]
unfolding find_operation
find-interrupt now key [] = refl
find-interrupt now key (r ∷ rows) = ground (arith, find-interrupt now key rows)

-- After an interruption no operation is queued or running; each that was has failed as interrupted,
-- and every other is as it was.
pub interrupt_operations-All :
    (now : ℕ) (key : String) (s : Store)
    → All NotPending (interrupt_operations now s).operations
      × (operation key (interrupt_operations now s)
          ≡ elim (operation key s) [ none ↦ none | some r ↦ some (interrupt_row now r) ])
unfolding interrupt_operations operation
interrupt_operations-All now key s =
    (interrupted_rows now s.operations, find-interrupt now key s.operations)
