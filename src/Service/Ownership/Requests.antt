-- ===== src/Service/Ownership/Requests.antt =====
-- Requests for connection operations by any clients (src/pitblu_core/service.py,
-- `start_connection_operation`).
use pitblu_core.Prelude.{
  ==_iff, All, All-append, List, Option, String, [], ap, arith, false, if◌then◌else◌, inl, inr,
  is_some, lookup, none, option_eq, refl, some, string_eq, subst, sym, true, ℕ, ◌++◌, ◌+◌, ◌==◌,
  ◌∙◌, ◌∷◌, ◌≡◌, ◌≢◌, ◌≤◌, ◌⊎◌,
}
use pitblu_core.Service.{
  Job, Service, executes_connection, executes_scan, registers_heartbeat, reports, save_object,
  set_columns,
}
use pitblu_core.Service.Operations.{
  Action, action_text, begin, connects, disconnects, is_disconnect, is_taken, pending, reconnects,
  start_connection_operation,
}
use pitblu_core.Service.Ownership.{begin-pending}

-- No operation that is active has the identifier.
abbrev pub IsFresh : String → Service → Type 0
IsFresh id s = (k j : String) → lookup k s.active ≡ some j → j ≢ id

-- The services that requests lead to, each under a fresh identifier, before any task has run.
pub data Requested (first : Service) : Service → Type 0 where
  begins : Requested first first
  requests :
      {s : Service}
      → Requested first s
      → (key : String) (action : Action) (id : String) (now : ℕ) → IsFresh id s
      → Requested first (start_connection_operation key action id now s).1

start-cases :
    (key : String) (action : Action) (id : String) (now : ℕ) (s : Service)
    → ((start_connection_operation key action id now s).1 ≡ s)
      ⊎ ((pending key s ≡ none)
          × (is_disconnect action ≡ false → is_taken s.owner key ≡ false)
          × ((start_connection_operation key action id now s).1 ≡ begin key action id now s))
unfolding start_connection_operation
start-cases key action id now s = ground arith

begin-tasks :
    (key : String) (action : Action) (id : String) (now : ℕ) (s : Service)
    → (begin key action id now s).tasks
      ≡ s.tasks ++ executes_connection id key (action_text action) ∷ []
unfolding begin set_columns save_object
begin-tasks key connects id now s = refl
begin-tasks key disconnects id now s = refl
begin-tasks key reconnects id now s = refl

-- How many tasks are to run a connection operation of the device.
abbrev pub tasks_for : String → List Job → ℕ
tasks_for key [] = 0
tasks_for key (executes_connection _ k _ ∷ jobs) =
    if k == key then tasks_for key jobs + 1 else tasks_for key jobs
tasks_for key (executes_scan _ _ ∷ jobs) = tasks_for key jobs
tasks_for key (reports _ ∷ jobs) = tasks_for key jobs
tasks_for key (registers_heartbeat _ _ ∷ jobs) = tasks_for key jobs

tasks_for-append :
    (key k id kind : String) (jobs : List Job)
    → tasks_for key (jobs ++ executes_connection id k kind ∷ [])
      ≡ tasks_for key jobs + (if k == key then 1 else 0)
tasks_for-append key k id kind [] = ground arith
tasks_for-append key k id kind (executes_connection _ j _ ∷ jobs) =
    ground (arith, tasks_for-append key k id kind jobs)
tasks_for-append key k id kind (executes_scan _ _ ∷ jobs) = tasks_for-append key k id kind jobs
tasks_for-append key k id kind (reports _ ∷ jobs) = tasks_for-append key k id kind jobs
tasks_for-append key k id kind (registers_heartbeat _ _ ∷ jobs) =
    tasks_for-append key k id kind jobs

-- A device whose operation is to be run has it pending, and there is one.
abbrev pub HasOneEach : Service → Type 0
HasOneEach s =
    (key : String)
    → (tasks_for key s.tasks ≡ 0) ⊎ ((tasks_for key s.tasks ≡ 1) × (is_some (pending key s) ≡ true))

begin-HasOneEach :
    (key : String) (action : Action) (id : String) (now : ℕ) (s : Service)
    → IsFresh id s
    → pending key s ≡ none
    → HasOneEach s
    → HasOneEach (begin key action id now s)
begin-HasOneEach key action id now s fresh idle v other =
    let count =
      ap (tasks_for other) (begin-tasks key action id now s)
      ∙ tasks_for-append other key id (action_text action) s.tasks in
    ground
      (arith, count, begin-pending key other action id now s fresh, v other, ==_iff key other, idle)

-- However many clients ask to connect, disconnect and reconnect however many devices, in any order,
-- no device ever has more than one task that runs a connection operation: those before the first
-- task has run are at most one for each device. There is none before the first request.
pub one_task_each :
    (first s : Service) (key : String)
    → first.tasks ≡ []
    → Requested first s
    → tasks_for key s.tasks ≤ 1
one_task_each first s key empty r = ground (arith, go s r key)
  where
    go : (t : Service) → Requested first t → HasOneEach t
    go _ begins = λ other. inl (ap (tasks_for other) empty)
    go _ (requests {s = t} r k action id now fresh) = elim (start-cases k action id now t) [
      | inl e ↦ subst HasOneEach (sym e) (go t r)
      | inr (idle, _, e) ↦
          subst HasOneEach (sym e) (begin-HasOneEach k action id now t fresh idle (go t r))
    ]

-- A connection or reconnection is of the owner.
abbrev pub OwnedJob : Option String → Job → Type 0
OwnedJob owner (executes_connection _ key kind) = (kind == "disconnect") ≡ false → owner ≡ some key
OwnedJob owner (executes_scan _ _) = Unit
OwnedJob owner (reports _) = Unit
OwnedJob owner (registers_heartbeat _ _) = Unit

OwnedJob-taken :
    (owner : Option String) (key : String) (job : Job)
    → is_taken owner key ≡ false
    → OwnedJob owner job
    → OwnedJob (some key) job
OwnedJob-taken none key (executes_connection _ k kind) free v = λ c. absurd (cc (v c))
OwnedJob-taken (some o) key (executes_connection _ k kind) free v =
    λ c. ground (arith, ==_iff o key, v c)
OwnedJob-taken owner key (executes_scan _ _) free v = tt
OwnedJob-taken owner key (reports _) free v = tt
OwnedJob-taken owner key (registers_heartbeat _ _) free v = tt

All-OwnedJob :
    (owner : Option String) (key : String) (jobs : List Job)
    → is_taken owner key ≡ false
    → All (OwnedJob owner) jobs
    → All (OwnedJob (some key)) jobs
All-OwnedJob owner key [] free v = tt
All-OwnedJob owner key (job ∷ jobs) free v =
    (OwnedJob-taken owner key job free v.0, All-OwnedJob owner key jobs free v.1)

begin-OwnedJob :
    (key : String) (action : Action) (id : String) (now : ℕ) (s : Service)
    → (is_disconnect action ≡ false → is_taken s.owner key ≡ false)
    → All (OwnedJob s.owner) s.tasks
    → All (OwnedJob (begin key action id now s).owner) (begin key action id now s).tasks
unfolding begin set_columns save_object
begin-OwnedJob key connects id now s free v =
    All-append (OwnedJob (some key)) s.tasks _ (All-OwnedJob s.owner key s.tasks (free refl) v)
      (λ c. refl)
begin-OwnedJob key reconnects id now s free v =
    All-append (OwnedJob (some key)) s.tasks _ (All-OwnedJob s.owner key s.tasks (free refl) v)
      (λ c. refl)
begin-OwnedJob key disconnects id now s free v =
    All-append (OwnedJob s.owner) s.tasks _ v (λ c. absurd (cc c))

-- However many clients ask to connect, disconnect and reconnect however many devices, in any order and
-- before any task has run, every task that waits to connect or reconnect a device is for the one
-- device that owns the adapter. There is no task before the first request. (Tasks that run meanwhile
-- may change the owner.)
pub connecting_is_owner :
    (first s : Service) → first.tasks ≡ [] → Requested first s → All (OwnedJob s.owner) s.tasks
connecting_is_owner first _ empty begins = subst (All (OwnedJob first.owner)) (sym empty) tt
connecting_is_owner first _ empty (requests {s = t} r key action id now fresh) =
    elim (start-cases key action id now t) [
      | inl e ↦
          subst (λ (u : Service). All (OwnedJob u.owner) u.tasks) (sym e)
            (connecting_is_owner first t empty r)
      | inr (_, free, e) ↦
          subst (λ (u : Service). All (OwnedJob u.owner) u.tasks) (sym e)
            (begin-OwnedJob key action id now t free (connecting_is_owner first t empty r))
    ]
