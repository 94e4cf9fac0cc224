-- ===== src/Tests/Interface.antt =====
-- The interface (src/pitblu_core/api.py).
use pitblu_core.Prelude.{
  List, [], arith, false, insert, is_some, lookup, none, ok, option_eq, refl, some, string_eq, true,
  ℕ, ◌∷◌, ◌≡◌, ◌⊎◌,
}
use pitblu_core.Models.{physical, utc}
use pitblu_core.Events.{EventBus}
use pitblu_core.Auth
use pitblu_core.Storage.{auth_record, new_store, replace_config, set_auth_record}
use pitblu_core.Security.{body_part, bounded_call, rate_limit, read_body, refilled, retry_after}
use pitblu_core.Auth.{bootstrap, has_form, replace, rotate, verify}
use pitblu_core.Configuration.{
  Settings, adopt, has_unknown, is_exposed, model_validate, token_mode, update, update_all,
  validate_patch,
}
use pitblu_core.Api.{
  App, Request, authenticate, check_token, end_verification, intake, is_bearer,
  limit_authentication, limit_mutations, lower_matches, partition_space, protected,
  start_verification, within_bounds,
}
use pitblu_core.Api.Routes.{
  Call, Given, config_response, configuration_event, patch_values, rotate_token, start_scan_of,
  version,
}
use pitblu_core.Api.Dispatch.{first_token, handle_call, patch_config, respond, try_update}
use pitblu_core.Api.Access.{CountsOnly, IsRefusedAt, has_token, refused_without_token}
use pitblu_core.Api.Lockout.{respond_all, token_is_configured}
use pitblu_core.Api.Running.{
  Happening, IsCounted, Observed, begins, happen, happen_all, happen_all-IsCounted, hash_ends,
}
use pitblu_core.Api.Changes.{IsChanged, IsUnchanged, MayChange, patch_config_all_or_nothing}
use pitblu_core.Tests.Administration.{serving}
use pitblu_core.Tests.Settings.{a_token, all_valid, codes, manager}

abbrev quiet_bus : EventBus
quiet_bus = record {
  history_size = 9;
  subscriber_queue_size = 9;
  session_id = "s";
  history = [];
  subscribers = [];
  has_persist = true;
  persisted = [];
  latest = [];
  streams_closed = false;
}

abbrev guarded_app : App
guarded_app = record {
  store = new_store;
  service = serving;
  manager = manager;
  bus = quiet_bus;
  source = physical;
  scan_duration = 5;
  asks_for_token = true;
  maximum_sse_clients = 1;
  maximum_bytes = 8192;
  authentication_limit = rate_limit 60 0;
  mutation_limit = rate_limit 30 0;
  authentication_jobs = 0;
  sse_clients = 0;
  mqtt = none;
}

abbrev some_given : Given
some_given = record {
  now = 7;
  id = "o";
  device_id = λ d. d.name;
  released = ok tt;
  at₀ = utc 7;
  at₁ = utc 7;
  at₂ = utc 7;
  at₃ = utc 7;
  token = a_token;
  salt = [];
}

abbrev nameless : Request
nameless = record {
  method = "POST";
  messages = body_part [] false ∷ [];
  is_json = true;
  authorization = "Bearer nobody";
  now = 9;
  is_valid = true;
}

nameless_has_no_token : has_token codes nameless guarded_app ≡ false
unfolding is_bearer lower_matches partition_space verify has_form
nameless_has_no_token = refl

refused_without_token_example :
    (let x = respond all_valid codes nameless (start_scan_of none) some_given guarded_app in
      IsRefusedAt (intake nameless guarded_app) true x.0 × CountsOnly guarded_app x.1)
refused_without_token_example =
    refused_without_token all_valid codes nameless (start_scan_of none) some_given guarded_app
      (λ e. absurd (cc e)) refl nameless_has_no_token

abbrev open_app : App
open_app = record guarded_app { asks_for_token = false }

abbrev asks_for_mode : List (Request × Call × Given)
asks_for_mode =
    (nameless, patch_values (("auth.mode", token_mode) ∷ []) (version 1), some_given)
    ∷ (nameless, rotate_token, some_given)
    ∷ (nameless, patch_values (("auth.mode", token_mode) ∷ []) (version 1), some_given)
    ∷ []

abbrev asked_app : App
asked_app = respond_all all_valid codes asks_for_mode (first_token codes some_given open_app).1

asked_app_mode : lookup "auth.mode" asked_app.manager.values ≡ some token_mode
unfolding respond_all respond within_bounds bounded_call read_body protected authenticate
    limit_mutations handle_call patch_config try_update update validate_patch model_validate
    is_exposed has_unknown update_all lookup insert replace_config adopt first_token bootstrap
    replace set_auth_record auth_record rotate configuration_event config_response retry_after
    refilled rate_limit check_token Auth.status
asked_app_mode = refl

token_is_configured_example : is_some asked_app.store.administrator_auth ≡ true
token_is_configured_example =
    token_is_configured all_valid codes some_given open_app asks_for_mode asked_app_mode

abbrev rush : List (Happening all_valid codes)
rush = begins "Bearer a" 1 ∷ begins "Bearer b" 2 ∷ begins "Bearer c" 3 ∷ hash_ends ∷ []

abbrev watched : Observed
watched = record { app = guarded_app; hashes = 0; streams = 0 }

one_hash_left : (happen_all all_valid codes rush watched).hashes ≡ 1
unfolding happen_all happen start_verification limit_authentication is_bearer lower_matches
    partition_space end_verification retry_after refilled rate_limit
one_hash_left = refl

watched-IsCounted : IsCounted watched
watched-IsCounted = record {
  jobs = refl;
  clients = refl;
  two_hashes = omega arith;
  few_streams = omega arith;
}

happen_all-IsCounted_example : IsCounted (happen_all all_valid codes rush watched)
happen_all-IsCounted_example = happen_all-IsCounted all_valid codes rush watched watched-IsCounted

abbrev quality : Settings
quality = ("mqtt.qos", "1") ∷ []

patch_config_all_or_nothing_example :
    (let x = patch_config all_valid codes quality (version 1) some_given guarded_app in
      (IsUnchanged guarded_app x
        × ¬ (
            (expected : ℕ) × (version 1 ≡ version expected)
            × MayChange all_valid codes quality expected guarded_app))
      ⊎ ((expected : ℕ) × (version 1 ≡ version expected)
          × MayChange all_valid codes quality expected guarded_app
          × IsChanged guarded_app quality expected (utc 7) x))
patch_config_all_or_nothing_example =
    patch_config_all_or_nothing all_valid codes quality (version 1) some_given guarded_app refl
