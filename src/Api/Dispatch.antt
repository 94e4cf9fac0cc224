-- ===== src/Api/Dispatch.antt =====
-- What each route of the interface does, and the answer to a request (src/pitblu_core/api.py).
use pitblu_core.Prelude.{
  Bool, List, Option, String, err, false, if◌then◌else◌, lookup, none, not, ok, option_eq, some,
  state_conflict, string_eq, true, values, ℕ, ◌&&◌, ◌==◌, ◌>>=◌,
}
use pitblu_core.Events.{recent}
use pitblu_core.Storage.{delete_secret, put_secret}
use pitblu_core.Storage.OperationTable.{operations, recent_events}
use pitblu_core.Auth
use pitblu_core.Auth.{bootstrap, rotate}
use pitblu_core.Configuration.{Settings, token_mode, update, validate_patch}
use pitblu_core.Service.Operations.{start_connection_operation, start_scan}
use pitblu_core.Service.Registration.{delete_registered, patch_device}
use pitblu_core.Service.Views.{
  device_view, devices, scan_result, shown_battery, shown_device, shown_operation, shown_probes,
}
use pitblu_core.Api.{
  App, Handler, Request, answered, chain, failed, on_manager, on_service, on_store, protected,
  raised, refuse, reply_with, within_bounds,
}
use pitblu_core.Api.Routes.{
  Call, Given, IfMatch, Reply, absent, admit_stream, as_conflict, battery_reply, config_response,
  configuration_event, delete_of, delete_password, device_reply, devices_reply, events_reply,
  finish_with, get_battery, get_config, get_device, get_devices, get_health, get_operation,
  get_operations, get_probes, get_ready, get_recent_events, get_scan, get_stored_events, healthy,
  is_ready, no_content, open_stream, operate, operation_reply, operations_reply, password_deleted,
  password_name, password_set, patch_as, patch_values, probes_reply, put_password, readiness,
  register_as, register_device, rotate_token, scan_reply, settings_are_valid, start_scan_of,
  stored_events_reply, token_reply, unreadable, validate_values, version,
}

-- All routes but `health` depend on `authenticate`.
abbrev pub is_open : Call → Bool
is_open get_health = true
is_open _ = false

module _ (fields_are_valid : Settings → Bool) (digest : String → List ℕ → List ℕ) where
  -- The statements of `patch_config` within the `try`
  unfoldable pub try_update : Settings → ℕ → Handler Settings
  try_update values expected app =
      if lookup "auth.mode" values == some token_mode && not (Auth.status app.store).0
      then (
        failed (raised (state_conflict "rotate an administrator token before enabling token mode")),
        app,
      )
      else on_manager (update fields_are_valid values expected) app

  unfoldable pub patch_config : Settings → IfMatch → Given → Handler Reply
  unfolding try_update configuration_event
  patch_config values absent g = refuse (raised (state_conflict "If-Match header required"))
  patch_config values unreadable g =
      refuse (raised (state_conflict "configuration version is invalid"))
  patch_config values (version expected) g =
      chain (λ app. let (r, after) = try_update values expected app in (as_conflict r, after))
        λ _. chain (configuration_event values g.at₀) λ _. config_response

  unfoldable pub handle_call : Call → Given → Handler Reply
  unfolding patch_config register_device admit_stream
  handle_call get_health g app = (reply_with healthy) app
  handle_call get_ready g app = (answered (readiness (is_ready app.mqtt)), app)
  handle_call (start_scan_of duration) g app =
      finish_with operation_reply
        (on_service
          (start_scan (elim duration [ none ↦ app.scan_duration | some d ↦ d ]) g.id g.now))
        app
  handle_call (get_scan id) g app =
      (finish_with scan_reply (on_service (λ s. (scan_result id s, s)))) app
  handle_call get_devices g app = finish_with devices_reply (on_service (devices app.source)) app
  handle_call (register_as discovery name connect reconnect) g app =
      (register_device discovery name connect reconnect g) app
  handle_call (get_device key) g app =
      finish_with device_reply (on_service (shown_device app.source key)) app
  handle_call (patch_as key name reconnect discovery) g app =
      finish_with device_reply
        (on_service
          (patch_device key name reconnect discovery >>= λ row. device_view app.source row))
        app
  handle_call (delete_of key) g app =
      finish_with (λ _. no_content)
        (on_service (
          shown_device app.source key >>= λ _.
          delete_registered key g.released g.at₀ g.at₁ g.at₂ g.at₃))
        app
  handle_call (operate key action) g app =
      (finish_with operation_reply (on_service (start_connection_operation key action g.id g.now)))
        app
  handle_call (get_probes key) g app =
      finish_with probes_reply (on_service (shown_probes app.source key)) app
  handle_call (get_battery key) g app =
      finish_with battery_reply (on_service (shown_battery app.source key)) app
  handle_call get_operations g app = (answered (operations_reply (operations app.store)), app)
  handle_call (get_operation id) g app =
      (finish_with operation_reply (on_service (λ s. (shown_operation id s, s)))) app
  handle_call get_recent_events g app = (answered (events_reply (recent app.bus)), app)
  handle_call get_stored_events g app =
      (answered (stored_events_reply (recent_events app.store)), app)
  handle_call open_stream g app = (admit_stream) app
  handle_call get_config g app = (config_response) app
  handle_call (validate_values values) g app =
      (finish_with (λ _. settings_are_valid)
          (on_manager (λ m. (validate_patch fields_are_valid values m, m))))
        app
  handle_call (patch_values values if_match) g app = (patch_config values if_match g) app
  handle_call (put_password value) g app =
      (finish_with (λ _. password_set g.now)
          (on_store (λ t. (tt, put_secret password_name value g.now t))))
        app
  handle_call delete_password g app =
      (finish_with (λ _. password_deleted) (on_store (delete_secret password_name))) app
  handle_call rotate_token g app =
      (finish_with token_reply (on_store (rotate digest g.token g.salt g.now))) app

  unfoldable pub respond : Request → Call → Given → Handler Reply
  unfolding handle_call within_bounds
  respond request call g =
      within_bounds request
        (if is_open call then handle_call call g else protected digest request (handle_call call g))

-- `create_app`'s first token, for settings that ask for one when none is configured
unfoldable pub first_token : (String → List ℕ → List ℕ) → Given → App → Option String × App
first_token digest g app =
    if lookup "auth.mode" app.manager.values == some token_mode && not (Auth.status app.store).0
    then (let (issued, t) = bootstrap digest g.token g.salt g.now app.store in
        (elim issued [ ok token ↦ some token | err e ↦ none ], record app { store = t }))
    else (none, app)
