-- ===== src/Service/Rest.antt =====
-- What the service leaves when it is closed (src/pitblu_core/service.py).
use mathlib.Core.Option.{map as map_option}
use pitblu_core.Prelude.{
  ==-refl, All, Bool, Bool-cases, Exception, List, Option, Result, String, [], arith, err, false,
  if◌then◌else◌, inl, inr, is_some, nat_eq, none, ok, refl, resource_not_found, some,
  state_conflict, string_eq, subst, sym, true, ℕ, ◌==◌, ◌∙◌, ◌∷◌, ◌≡◌,
}
use pitblu_core.Models.{Datetime}
use pitblu_core.Storage.{DeviceRow, OperationRow, Store}
use pitblu_core.Storage.Rows.{device-update_device}
use pitblu_core.Storage.DeviceTable.{device, no_patch, patch_row, update_device}
use pitblu_core.Storage.OperationTable.{interrupt_operations}
use pitblu_core.Storage.Retention.{NotPending, interrupt_operations-All}
use pitblu_core.Telemetry.Lifecycle.{close}
use pitblu_core.Telemetry.Snapshots.{connection}
use pitblu_core.Service.{
  Job, Service, interrupted, save_object, schedule_recovery, set_columns, with_store,
  with_telemetry,
}
use pitblu_core.Service.Operations.{Action, start_connection_operation, start_scan}
use pitblu_core.Service.Lifecycle.{
  close_service, end_tasks, mark_all, mark_cut, operation_of, say_disconnected, suppressed,
}

-- Nothing runs or waits, of the service and of its telemetry, and nothing is said to run.
pub record IsAtRest (s : Service) : Type 0 where
  pub closed : s.closing ≡ true
  pub no_tasks : s.tasks ≡ []
  pub no_discovery : s.discovering ≡ false
  pub no_recoveries : s.recoveries ≡ []
  pub no_polling : s.polling_tasks ≡ []
  pub no_stale_timers : s.telemetry.stale_tasks ≡ []
  pub no_heartbeat_timers : s.telemetry.heartbeat_stale_tasks ≡ []
  pub none_pending : All NotPending s.store.operations

-- The services differ at most in the operations.
record SameTasks (a b : Service) : Type 0 where
  closing : b.closing ≡ a.closing
  tasks : b.tasks ≡ a.tasks
  discovering : b.discovering ≡ a.discovering
  recoveries : b.recoveries ≡ a.recoveries
  polling : b.polling_tasks ≡ a.polling_tasks
  connected : b.connected_device ≡ a.connected_device

SameTasks-trans : (a b c : Service) → SameTasks a b → SameTasks b c → SameTasks a c
SameTasks-trans a b c x y = record {
  closing = y.closing ∙ x.closing;
  tasks = y.tasks ∙ x.tasks;
  discovering = y.discovering ∙ x.discovering;
  recoveries = y.recoveries ∙ x.recoveries;
  polling = y.polling ∙ x.polling;
  connected = y.connected ∙ x.connected;
}

SameTasks-refl : (a : Service) → SameTasks a a
SameTasks-refl a = record {
  closing = refl;
  tasks = refl;
  discovering = refl;
  recoveries = refl;
  polling = refl;
  connected = refl;
}

interrupted-SameTasks :
    (row : OperationRow) (now : ℕ) (s : Service) → SameTasks s (interrupted row now s)
unfolding interrupted save_object
interrupted-SameTasks row now s = record {
  closing = refl;
  tasks = refl;
  discovering = refl;
  recoveries = refl;
  polling = refl;
  connected = refl;
}

mark_cut-SameTasks :
    (cut : Option ℕ) (row : Option OperationRow) (s : Service) → SameTasks s (mark_cut cut row s)
mark_cut-SameTasks (some now) (some row) s = interrupted-SameTasks row now s
mark_cut-SameTasks (some now) none s = SameTasks-refl s
mark_cut-SameTasks none row s = SameTasks-refl s

mark_all-SameTasks : (cut : List (OperationRow × ℕ)) (s : Service) → SameTasks s (mark_all cut s)
unfolding mark_all
mark_all-SameTasks [] s = SameTasks-refl s
mark_all-SameTasks ((row, now) ∷ cut) s =
    SameTasks-trans s (interrupted row now s) (mark_all cut (interrupted row now s))
      (interrupted-SameTasks row now s) (mark_all-SameTasks cut (interrupted row now s))

end_tasks-SameTasks :
    (cut : Job → Option ℕ) (jobs : List Job) (s : Service)
    → s.tasks ≡ jobs
    → SameTasks (record s { tasks = [] }) (end_tasks cut jobs s)
unfolding end_tasks
end_tasks-SameTasks cut [] s h = record {
  closing = refl;
  tasks = h;
  discovering = refl;
  recoveries = refl;
  polling = refl;
  connected = refl;
}
end_tasks-SameTasks cut (job ∷ jobs) s h =
    let less : Service = record s { tasks = jobs } in
    let marked = mark_cut (cut job) (operation_of job s.objects) less in
    let same = mark_cut-SameTasks (cut job) (operation_of job s.objects) less in
    let later = end_tasks-SameTasks cut jobs marked same.tasks in
    record {
      closing = later.closing ∙ same.closing;
      tasks = later.tasks;
      discovering = later.discovering ∙ same.discovering;
      recoveries = later.recoveries ∙ same.recoveries;
      polling = later.polling ∙ same.polling;
      connected = later.connected ∙ same.connected;
    }

said-SameTasks :
    (o : Option String) (t0 t1 t2 : Datetime) (s : Service)
    → SameTasks s (say_disconnected o t0 t1 t2 s)
unfolding say_disconnected set_columns
said-SameTasks none t0 t1 t2 s = SameTasks-refl s
said-SameTasks (some key) t0 t1 t2 s = record {
  closing = refl;
  tasks = refl;
  discovering = refl;
  recoveries = refl;
  polling = refl;
  connected = refl;
}

said-operations :
    (o : Option String) (t0 t1 t2 : Datetime) (s : Service)
    → (say_disconnected o t0 t1 t2 s).store.operations ≡ s.store.operations
unfolding say_disconnected set_columns update_device
said-operations none t0 t1 t2 s = refl
said-operations (some key) t0 t1 t2 s = refl

suppressed_lem : (released : Result (Unit {0})) (s : Service) → suppressed released s ≡ s
suppressed_lem (ok u) s = refl
suppressed_lem (err e) s = refl

close_service-IsAtRest :
    (cut : Job → Option ℕ) (recovering : List (OperationRow × ℕ)) (released : Result (Unit {0}))
    (now : ℕ) (t0 t1 t2 : Datetime) (s : Service)
    → IsAtRest (close_service cut recovering released now t0 t1 t2 s)
unfolding close_service close
close_service-IsAtRest cut recovering released now t0 t1 t2 s =
    let ended = end_tasks cut s.tasks (record s { closing = true; discovering = false }) in
    let kept =
      end_tasks-SameTasks cut s.tasks (record s { closing = true; discovering = false }) refl in
    let emptied : Service = record ended { recoveries = []; polling_tasks = [] } in
    let cleared = mark_all recovering emptied in
    let marked = mark_all-SameTasks recovering emptied in
    let settled = with_store (interrupt_operations now) cleared in
    let told = say_disconnected settled.connected_device t0 t1 t2 settled in
    let same = said-SameTasks settled.connected_device t0 t1 t2 settled in
    subst (λ v. IsAtRest (with_telemetry close v)) (sym (suppressed_lem released told))
      (record {
        closed = same.closing ∙ marked.closing ∙ kept.closing;
        no_tasks = same.tasks ∙ marked.tasks ∙ kept.tasks;
        no_discovery = same.discovering ∙ marked.discovering ∙ kept.discovering;
        no_recoveries = same.recoveries ∙ marked.recoveries;
        no_polling = same.polling ∙ marked.polling;
        no_stale_timers = refl;
        no_heartbeat_timers = refl;
        none_pending =
            subst (All NotPending) (sym (said-operations settled.connected_device t0 t1 t2 settled))
              (interrupt_operations-All now "" cleared.store).0;
      })

-- The row of a device, if it has one, says that it is disconnected.
abbrev pub IsShownOff : Option DeviceRow → Type 0
IsShownOff none = Unit
IsShownOff (some row) = row.observed_state ≡ "disconnected"

abbrev pub AllShownOff : Option String → Store → Type 0
AllShownOff none s = Unit
AllShownOff (some key) s = IsShownOff (device key s)

patched-IsShownOff :
    (o : Option DeviceRow) (test : Bool)
    → test ≡ true
    → IsShownOff (
        if test
        then map_option (patch_row (record no_patch { observed_state = some "disconnected" })) o
        else o)
unfolding patch_row
patched-IsShownOff none true h = tt
patched-IsShownOff (some row) true h = refl
patched-IsShownOff o false h = absurd (cc h)

said-AllShownOff :
    (o : Option String) (t0 t1 t2 : Datetime) (s : Service)
    → AllShownOff o (say_disconnected o t0 t1 t2 s).store
unfolding say_disconnected set_columns
said-AllShownOff none t0 t1 t2 s = tt
said-AllShownOff (some key) t0 t1 t2 s =
    let said = with_telemetry (connection key "disconnected" t0 t1 t2) s in
    let off = record no_patch { observed_state = some "disconnected" } in
    subst IsShownOff (sym (device-update_device key key off said.store).1)
      (patched-IsShownOff (device key said.store) (key == key) (==-refl key))

close_service-AllShownOff :
    (cut : Job → Option ℕ) (recovering : List (OperationRow × ℕ)) (released : Result (Unit {0}))
    (now : ℕ) (t0 t1 t2 : Datetime) (s : Service)
    → AllShownOff s.connected_device (close_service cut recovering released now t0 t1 t2 s).store
unfolding close_service
close_service-AllShownOff cut recovering released now t0 t1 t2 s =
    let ended = end_tasks cut s.tasks (record s { closing = true; discovering = false }) in
    let kept =
      end_tasks-SameTasks cut s.tasks (record s { closing = true; discovering = false }) refl in
    let emptied : Service = record ended { recoveries = []; polling_tasks = [] } in
    let cleared = mark_all recovering emptied in
    let marked = mark_all-SameTasks recovering emptied in
    let settled = with_store (interrupt_operations now) cleared in
    let told = say_disconnected settled.connected_device t0 t1 t2 settled in
    subst (λ v. AllShownOff s.connected_device (with_telemetry close v).store)
      (sym (suppressed_lem released told))
      (subst (λ o. AllShownOff o told.store) (marked.connected ∙ kept.connected)
        (said-AllShownOff settled.connected_device t0 t1 t2 settled))

-- No request and no failure starts anything.
pub record Refuses (key : String) (action : Action) (immediate : Bool) (duration : ℕ) (id : String)
    (now : ℕ) (s : Service) : Type 0 where
  pub no_scan : start_scan duration id now s ≡ (err (state_conflict "service is stopping"), s)
  pub no_operation : (e : Exception) × (start_connection_operation key action id now s ≡ (err e, s))
  pub no_recovery : schedule_recovery key immediate s ≡ s

closed-Refuses :
    (key : String) (action : Action) (immediate : Bool) (duration : ℕ) (id : String) (now : ℕ)
    (s : Service)
    → s.closing ≡ true
    → Refuses key action immediate duration id now s
unfolding start_scan start_connection_operation schedule_recovery
closed-Refuses key action immediate duration id now s h = record {
  no_scan = ground (arith, h);
  no_operation = elim (Bool-cases (is_some (device key s.store))) [
    | inl e ↦ (state_conflict "service is stopping", ground (arith, h, e))
    | inr e ↦ (resource_not_found "device not found", ground (arith, e))
  ];
  no_recovery = ground (arith, h);
}

-- A service that has been closed is at rest, whatever its tasks were in the middle of and whether or
-- not the adapter lets itself be disconnected: no task of an operation, discovery, recovery or poll is
-- left, no timer of the telemetry waits, no operation of the store is queued or running, and the
-- device that was connected is shown as disconnected. It stays so: a scan, an operation of a device or a
-- recovery that is asked for then is refused, and changes nothing. (A task that is cancelled does end.)
pub close_service_is_final :
    (cut : Job → Option ℕ) (recovering : List (OperationRow × ℕ)) (released : Result (Unit {0}))
    (now : ℕ) (t0 t1 t2 : Datetime) (s : Service) (key : String) (action : Action)
    (immediate : Bool) (duration : ℕ) (id : String) (later : ℕ)
    → (let closed = close_service cut recovering released now t0 t1 t2 s in
        IsAtRest closed
        × AllShownOff s.connected_device closed.store
        × Refuses key action immediate duration id later closed)
close_service_is_final cut recovering released now t0 t1 t2 s key action immediate duration id
      later =
    let closed = close_service cut recovering released now t0 t1 t2 s in
    let rest = close_service-IsAtRest cut recovering released now t0 t1 t2 s in
    (
      rest,
      close_service-AllShownOff cut recovering released now t0 t1 t2 s,
      closed-Refuses key action immediate duration id later closed rest.closed,
    )
