-- ===== src/Api/Lockout.antt =====
-- The interface never asks for a token that nobody has (src/pitblu_core/api.py).
use pitblu_core.Prelude.{
  ==_iff, Bool, Bool-cases, Exec, List, Result, String, [], ap, arith, err, false, gets, inl, inr,
  is_some, leb, lookup, nat_eq, none, not, ok, option_eq, refl, some, string_eq, subst, sym, true,
  values, ℕ, ◌&&◌, ◌+◌, ◌==◌, ◌>>=◌, ◌∙◌, ◌∷◌, ◌≡◌,
}
use pitblu_core.Storage.{
  Store, auth_record, delete_secret, put_secret, replace_config, set_auth_record,
}
use pitblu_core.Storage.DeviceTable.{list_devices}
use pitblu_core.Telemetry.Views.{battery_view, probes}
use pitblu_core.Api.Access.{admitted, authenticate-Access, taken-keeps}
use pitblu_core.Auth
use pitblu_core.Auth.{bootstrap, replace, rotate}
use pitblu_core.Configuration.{
  ConfigurationManager, Settings, adopt, token_mode, update, update_all, validate_patch,
}
use pitblu_core.Service.{Service}
use pitblu_core.Service.Operations.{start_connection_operation, start_scan}
use pitblu_core.Service.Registration.{delete_registered, patch_device}
use pitblu_core.Service.Views.{
  device_view, devices, scan_result, shown_battery, shown_device, shown_operation, shown_probes,
}
use pitblu_core.Api.{
  App, Handler, Outcome, Request, and_then, answered, authenticate, chain, failed, intake,
  on_manager, on_service, outcome, protected, reply_with, within_bounds,
}
use pitblu_core.Api.Routes.{
  Call, Given, IfMatch, Reply, absent, admit_stream, as_conflict, battery_reply, config_response,
  configuration_event, delete_of, delete_password, device_reply, devices_reply, finish_with,
  get_battery, get_config, get_device, get_devices, get_health, get_operation, get_operations,
  get_probes, get_ready, get_recent_events, get_scan, get_stored_events, no_content, open_stream,
  operate, operation_reply, patch_as, patch_values, probes_reply, put_password, register_as,
  register_device, rotate_token, scan_reply, settings_are_valid, start_scan_of, unreadable,
  validate_values, version,
}
use pitblu_core.Api.Dispatch.{first_token, handle_call, is_open, patch_config, respond, try_update}
use pitblu_core.Service.Secrecy.{
  SparesToken, bind-SparesToken, delete-SparesToken, patch-SparesToken, shown-SparesToken,
  start-SparesToken, start_scan-SparesToken, view-SparesToken, views-SparesToken,
}
use pitblu_core.Configuration.Layers.{lookup-update_all}
use pitblu_core.Configuration.Exposure.{update-cases}
use pitblu_core.Api.SameAccess.{
  StillKnown, chain-KeepsAccess, event-KeepsAccess, finish-KeepsAccess, register_device-KeepsAccess,
  response-KeepsAccess, service-KeepsAccess,
}

-- A token is configured if the settings ask for one.
abbrev pub CanSignIn : App → Type 0
CanSignIn app =
    lookup "auth.mode" app.manager.values ≡ some token_mode
    → is_some app.store.administrator_auth ≡ true

StillKnown-CanSignIn : (a b : App) → StillKnown a b → CanSignIn a → CanSignIn b
StillKnown-CanSignIn a b k h mode =
    k.token (h (sym (ap (λ (v : Settings). lookup "auth.mode" v) k.settings) ∙ mode))

replaced-auth :
    (overrides : Settings) (expected n : ℕ) (s t : Store)
    → replace_config overrides expected s ≡ (ok n, t)
    → t.administrator_auth ≡ s.administrator_auth
unfolding replace_config
replaced-auth overrides expected n s t h = ground (arith, h)

mode_after :
    (values old : Settings)
    → (lookup "auth.mode" values == some token_mode) ≡ false
    → lookup "auth.mode" (update_all values old) ≡ some token_mode
    → lookup "auth.mode" old ≡ some token_mode
mode_after values old h e = ground (
  arith,
  h,
  e,
  lookup-update_all "auth.mode" values old,
  ==_iff (lookup "auth.mode" values) (some token_mode),
)

module _ (fields_are_valid : Settings → Bool) (digest : String → List ℕ → List ℕ) where
  adopted-CanSignIn :
      (values : Settings) (expected : ℕ) (app : App)
      → (lookup "auth.mode" values ≡ some token_mode → is_some app.store.administrator_auth ≡ true)
      → CanSignIn app
      → CanSignIn (on_manager (update fields_are_valid values expected) app).1
  unfolding adopt
  adopted-CanSignIn values expected app known h =
      elim (update-cases fields_are_valid values expected
        (record app.manager { store = app.store })) [
          | inl (e, refused) ↦ subst after (sym refused) h
          | inr (store, _, _, written, _, done) ↦
              (let same = ap is_some (
                  replaced-auth (update_all values app.manager.persisted) expected (expected + 1)
                    app.store store written) in
                subst after (sym done) (λ mode.
                  elim (Bool-cases (lookup "auth.mode" values == some token_mode)) [
                    | inl asked ↦
                        same
                        ∙ known ((==_iff (lookup "auth.mode" values) (some token_mode)).0 asked)
                    | inr old ↦ same ∙ h (mode_after values app.manager.values old mode)
                  ]))
        ]
    where
      after : Result Settings × ConfigurationManager → Type 0
      after x = CanSignIn (record app { manager = x.1; store = x.1.store })

  try_update-CanSignIn :
      (values : Settings) (expected : ℕ) (app : App)
      → CanSignIn app
      → CanSignIn (try_update fields_are_valid digest values expected app).1
  unfolding try_update Auth.status auth_record
  try_update-CanSignIn values expected app h =
      elim (Bool-cases
        (lookup "auth.mode" values == some token_mode && not (Auth.status app.store).0)) [
          | inl refused ↦ rw refused h
          | inr free ↦ rw free (
              adopted-CanSignIn values expected app
                (λ mode.
                  ground (arith, free, mode, ==_iff (lookup "auth.mode" values) (some token_mode)))
                h)
        ]

  patch_config-CanSignIn :
      (values : Settings) (if_match : IfMatch) (g : Given) (app : App)
      → CanSignIn app
      → CanSignIn (patch_config fields_are_valid digest values if_match g app).1
  unfolding patch_config
  patch_config-CanSignIn values absent g app h = h
  patch_config-CanSignIn values unreadable g app h = h
  patch_config-CanSignIn values (version expected) g app h =
      behind (as_conflict (try_update fields_are_valid digest values expected app).0)
    where
      mid : App
      mid = (try_update fields_are_valid digest values expected app).1

      end : Handler Reply
      end = chain (configuration_event values g.at₀) (λ u. config_response)

      behind : (r : Outcome Settings) → CanSignIn (and_then r (λ u. end) mid).1
      behind (failed e) = try_update-CanSignIn values expected app h
      behind (answered v) =
          StillKnown-CanSignIn mid (end mid).1
            (chain-KeepsAccess (configuration_event values g.at₀) (λ u. config_response)
              (event-KeepsAccess values g.at₀) (λ u. response-KeepsAccess) mid)
            (try_update-CanSignIn values expected app h)

  serves :
      {A : Type 0} (f : A → Reply) (m : Exec Service A) (app : App)
      → SparesToken m
      → CanSignIn app
      → CanSignIn (finish_with f (on_service m) app).1
  serves f m app spares h =
      StillKnown-CanSignIn app (finish_with f (on_service m) app).1
        (finish-KeepsAccess f (on_service m) (service-KeepsAccess m spares) app) h

  handle_call-CanSignIn :
      (call : Call) (g : Given) (app : App)
      → CanSignIn app
      → CanSignIn (handle_call fields_are_valid digest call g app).1
  unfolding handle_call admit_stream config_response rotate replace put_secret delete_secret
      set_auth_record shown_probes shown_battery devices
  handle_call-CanSignIn (patch_values values if_match) g app h =
      patch_config-CanSignIn values if_match g app h
  handle_call-CanSignIn get_health g app h = h
  handle_call-CanSignIn get_ready g app h = h
  handle_call-CanSignIn (start_scan_of duration) g app h =
      let d : ℕ = elim duration [ none ↦ app.scan_duration | some t ↦ t ] in
      serves operation_reply (start_scan d g.id g.now) app (start_scan-SparesToken d g.id g.now) h
  handle_call-CanSignIn (get_scan id) g app h =
      serves scan_reply (λ s. (scan_result id s, s)) app (λ s. refl) h
  handle_call-CanSignIn get_devices g app h =
      serves devices_reply (devices app.source) app
        (λ s. views-SparesToken app.source (list_devices s.store) s) h
  handle_call-CanSignIn (register_as discovery name connect reconnect) g app h =
      StillKnown-CanSignIn app (register_device discovery name connect reconnect g app).1
        (register_device-KeepsAccess discovery name connect reconnect g app) h
  handle_call-CanSignIn (get_device key) g app h =
      serves device_reply (shown_device app.source key) app (shown-SparesToken app.source key) h
  handle_call-CanSignIn (patch_as key name reconnect discovery) g app h =
      serves device_reply
        (patch_device key name reconnect discovery >>= λ row. device_view app.source row) app
        (bind-SparesToken (patch_device key name reconnect discovery) (device_view app.source)
          (patch-SparesToken key name reconnect discovery) (view-SparesToken app.source))
        h
  handle_call-CanSignIn (delete_of key) g app h =
      serves (λ u. no_content)
        (shown_device app.source key >>= λ v.
          delete_registered key g.released g.at₀ g.at₁ g.at₂ g.at₃)
        app
        (bind-SparesToken (shown_device app.source key)
          (λ v. delete_registered key g.released g.at₀ g.at₁ g.at₂ g.at₃)
          (shown-SparesToken app.source key)
          (λ v. delete-SparesToken key g.released g.at₀ g.at₁ g.at₂ g.at₃))
        h
  handle_call-CanSignIn (operate key action) g app h =
      serves operation_reply (start_connection_operation key action g.id g.now) app
        (start-SparesToken key action g.id g.now) h
  handle_call-CanSignIn (get_probes key) g app h =
      serves probes_reply (shown_probes app.source key) app
        (bind-SparesToken (shown_device app.source key) (λ v. gets (λ s. probes key s.telemetry))
          (shown-SparesToken app.source key) (λ v s. refl))
        h
  handle_call-CanSignIn (get_battery key) g app h =
      serves battery_reply (shown_battery app.source key) app
        (bind-SparesToken (shown_device app.source key)
          (λ v. gets (λ s. battery_view key s.telemetry)) (shown-SparesToken app.source key)
          (λ v s. refl))
        h
  handle_call-CanSignIn get_operations g app h = h
  handle_call-CanSignIn (get_operation id) g app h =
      serves operation_reply (λ s. (shown_operation id s, s)) app (λ s. refl) h
  handle_call-CanSignIn get_recent_events g app h = h
  handle_call-CanSignIn get_stored_events g app h = h
  handle_call-CanSignIn open_stream g app h =
      elim (Bool-cases (leb app.maximum_sse_clients app.sse_clients)) [
        | inl full ↦ rw full h
        | inr room ↦ rw room h
      ]
  handle_call-CanSignIn get_config g app h = h
  handle_call-CanSignIn (validate_values values) g app h =
      elim (validate_patch fields_are_valid values (record app.manager { store = app.store }))
        as (λ r.
          CanSignIn
            (and_then (outcome r) (λ u. reply_with settings_are_valid)
              (record app { manager = record app.manager { store = app.store } })).1) [
                | ok v ↦ h
                | err e ↦ h
              ]
  handle_call-CanSignIn (put_password value) g app h = h
  handle_call-CanSignIn delete_password g app h = h
  handle_call-CanSignIn rotate_token g app h = λ mode. refl

  respond-CanSignIn :
      (request : Request) (call : Call) (g : Given) (app : App)
      → CanSignIn app
      → CanSignIn (respond fields_are_valid digest request call g app).1
  unfolding respond protected within_bounds
  respond-CanSignIn request call g app h =
      let x = authenticate digest request app in
      let counts = (authenticate-Access digest request app).counts in
      let mid : CanSignIn x.1 = λ mode.
        ap (λ (t : Store). is_some t.administrator_auth) counts.store
        ∙ h (
            sym (ap (λ (c : ConfigurationManager). lookup "auth.mode" c.values) counts.manager)
            ∙ mode) in
      elim (Bool-cases (is_open call)) [
        | inl free ↦ rw free (
            taken-keeps CanSignIn (intake request app) request.is_json
              (handle_call fields_are_valid digest call g) app h
              (handle_call-CanSignIn call g app h))
        | inr guarded ↦ rw guarded (
            taken-keeps CanSignIn (intake request app) request.is_json
              (protected digest request (handle_call fields_are_valid digest call g)) app h
              (admitted CanSignIn request (handle_call fields_are_valid digest call g) x.0 x.1 mid
                (handle_call-CanSignIn call g x.1)))
      ]

  -- Any requests, one behind the other
  unfoldable pub respond_all : List (Request × Call × Given) → App → App
  respond_all [] app = app
  respond_all ((request, call, g) ∷ more) app =
      respond_all more (respond fields_are_valid digest request call g app).1

  respond_all-CanSignIn :
      (requests : List (Request × Call × Given)) (app : App)
      → CanSignIn app
      → CanSignIn (respond_all requests app)
  unfolding respond_all
  respond_all-CanSignIn [] app h = h
  respond_all-CanSignIn ((request, call, g) ∷ more) app h =
      respond_all-CanSignIn more (respond fields_are_valid digest request call g app).1
        (respond-CanSignIn request call g app h)

  first_token-CanSignIn : (g : Given) (app : App) → CanSignIn (first_token digest g app).1
  unfolding first_token bootstrap replace set_auth_record auth_record Auth.status
  first_token-CanSignIn g app mode =
      ground (arith, mode, ==_iff (lookup "auth.mode" app.manager.values) (some token_mode))

  -- Whatever was stored and configured before the start, and whatever requests came since, valid or
  -- not, in any order: while the settings ask for a token, one is configured. So a change of the
  -- settings never shuts everybody out.
  pub token_is_configured :
      (g : Given) (app : App) (requests : List (Request × Call × Given))
      → lookup "auth.mode" (respond_all requests (first_token digest g app).1).manager.values
        ≡ some token_mode
      → is_some (respond_all requests (first_token digest g app).1).store.administrator_auth ≡ true
  token_is_configured g app requests =
      respond_all-CanSignIn requests (first_token digest g app).1 (first_token-CanSignIn g app)
