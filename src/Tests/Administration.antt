-- ===== src/Tests/Administration.antt =====
-- The administrative service (src/pitblu_core/service.py).
use pitblu_core.Prelude.{
  ==_iff, All, Bool-cases, List, String, [], adapter_error, arith, err, false, inl, inr, insert,
  is_some, lookup, nat_eq, none, ok, option_eq, refl, some, string_eq, subst, true, ◌==◌, ◌∷◌, ◌≡◌,
  ◌≢◌,
}
use pitblu_core.Models.{DiscoveredDevice, physical, utc}
use pitblu_core.Telemetry.{new_telemetry}
use pitblu_core.Storage.{DeviceRow, OperationRow, new_store}
use pitblu_core.Storage.DeviceTable.{device, find_device, patch_row, update_device}
use pitblu_core.Service.Attempts.{Attempt}
use pitblu_core.Service.Silence.{silent_device_recovers}
use pitblu_core.Service.Identities.Requests.{
  Administration, administer_all, administer_all-HasUniqueIdentities, registers, scans,
}
use pitblu_core.Service.Ownership.Requests.{
  IsFresh, OwnedJob, begins, connecting_is_owner, requests,
}
use pitblu_core.Storage.OperationTable.{save_operation}
use pitblu_core.Service.{Service, executes_connection, queued_operation, save_object, set_columns}
use pitblu_core.Service.Operations.{begin, connects, reconnects, start_connection_operation}
use pitblu_core.Service.Connecting.{execute_connection}
use pitblu_core.Service.Polling.{Poll, PollRound, PollSettings, poll_round}
use pitblu_core.Service.Identities.{HasUniqueIdentities}
use pitblu_core.Service.Outcomes.{HasEnded, execute_connection-HasEnded}

abbrev grill : String → String → DeviceRow
grill key identity = record {
  device_id = key;
  discovery_id = "d";
  name = "iGrill";
  friendly_name = none;
  model = "igrill-v202";
  auto_reconnect = true;
  desired_state = "connected";
  observed_state = "polling";
  created_at = 1;
  identity = some identity;
}

abbrev pub serving : Service
serving = record {
  store = record new_store { devices = grill "a" "x" ∷ grill "b" "y" ∷ [] };
  telemetry = new_telemetry 15 15;
  candidates = [];
  scan_results = [];
  connected_device = some "a";
  owner = some "a";
  closing = false;
  active = [];
  objects = [];
  recoveries = [];
  polling_tasks = [];
  discovering = true;
  tasks = [];
  last_error = none;
  last_failure_stage = none;
  last_failure = none;
}

nothing_active : (id : String) → IsFresh id serving
unfolding lookup
nothing_active id k j e = cc

-- The owner is to be connected, and then another device, which is refused.
abbrev asked_once : Service
asked_once = (start_connection_operation "a" connects "op1" 5 serving).1

abbrev asked : Service
asked = (start_connection_operation "b" connects "op2" 6 asked_once).1

op1_differs : ◌≢◌ {A = String} "op1" "op2"
op1_differs e =
    let same : ◌==◌ {T = String} "op1" "op2" ≡ true = (==_iff "op1" "op2").1 e in absurd (cc same)

one_is_active : asked_once.active ≡ ("a", "op1") ∷ []
unfolding start_connection_operation begin lookup insert set_columns save_object device
one_is_active = refl

only_op1 : (k j : String) → lookup {V = String} k (("a", "op1") ∷ []) ≡ some j → j ≢ "op2"
unfolding lookup
only_op1 k j f g = elim (Bool-cases ("a" == k)) [
  | inl here ↦ op1_differs (cc (rw here at f, g))
  | inr other ↦ absurd (cc (rw other at f))
]

op2-IsFresh : IsFresh "op2" asked_once
op2-IsFresh k j e = only_op1 k j (subst (λ d. lookup k d ≡ some j) one_is_active e)

one_is_to_connect : asked.tasks ≡ executes_connection "op1" "a" "connect" ∷ []
unfolding start_connection_operation begin lookup insert set_columns save_object device
    save_operation update_device patch_row
one_is_to_connect = refl

connecting_is_owner_example : All (OwnedJob asked.owner) asked.tasks
connecting_is_owner_example = connecting_is_owner serving asked refl (
    requests (requests begins "a" connects "op1" 5 (nothing_active "op1")) "b" connects "op2" 6
      op2-IsFresh)

abbrev waiting_row : OperationRow
waiting_row = queued_operation "reconnect" (some "a") "op1" 4

abbrev waiting : Service
waiting = record serving { active = ("a", "op1") ∷ []; objects = ("op1", waiting_row) ∷ [] }

abbrev pub silent : Attempt
silent = record {
  is_connected = false;
  detached = ok tt;
  released_early = ok true;
  found = ok [];
  released = ok false;
  found_again = ok [];
  initialised_at = ok none;
  snapshot = err (adapter_error "read");
  source = physical;
  ref = 1;
  started = 5;
  ended = 6;
  now = utc 5;
}

execute_connection-HasEnded_example :
    HasEnded "op1" (execute_connection waiting_row "a" reconnects false silent waiting)
execute_connection-HasEnded_example =
    execute_connection-HasEnded waiting_row "a" reconnects false silent waiting

abbrev settings : PollSettings
settings = record { degraded_after = 3; reconnect_after = 30; stable_after = 60 }

abbrev silence : PollRound
silence = record {
  snapshot = err (adapter_error "read");
  ref = 1;
  now = utc 40;
  clock = 40;
  is_connected = true;
}

abbrev long_ago : Poll
long_ago = record { failures = 2; last_valid = 10; stable_since = 10; last_observed = none }

silent_device_recovers_example :
    let (result, t) = poll_round settings "a" silence long_ago serving in
    (result ≡ ok (none, false)) × (is_some (lookup "a" t.recoveries) ≡ true)
silent_device_recovers_example =
    silent_device_recovers settings "a" silence long_ago serving (adapter_error "read") refl refl
      (omega arith) (unfold device in unfold find_device in refl)

abbrev found_grill : DiscoveredDevice
found_grill = record {
  discovery_id = "d2";
  name = "iGrill";
  model = "igrill-v202";
  rssi = none;
  identity = some "x";
}

abbrev changes : List Administration
changes =
    scans (queued_operation "scan" none "s" 1) (ok (found_grill ∷ [])) 2 3
    ∷ registers "d2" none true 4
    ∷ []

none_yet : HasUniqueIdentities new_store
unfolding device find_device
none_yet j k r q i d₁ d₂ h₁ h₂ = cc

abbrev fresh_service : Service
fresh_service = record serving { store = new_store; connected_device = none; owner = none }

administer_all-HasUniqueIdentities_example :
    HasUniqueIdentities (administer_all (λ c. c.name) physical fresh_service changes).store
administer_all-HasUniqueIdentities_example =
    administer_all-HasUniqueIdentities (λ c. c.name) physical fresh_service changes none_yet
