-- ===== src/Api/Limits.antt =====
-- What the calls of the interface count (src/pitblu_core/api.py).
use pitblu_core.Prelude.{
  Bool, Bool-cases, Exec, List, Option, String, arith, false, if◌then◌else◌, inl, inr, leb, lookup,
  nat_eq, none, not, option_eq, refl, some, string_eq, true, values, ℕ, ◌&&◌, ◌+◌, ◌==◌, ◌>>=◌, ◌∙◌,
  ◌≡◌, ◌≤◌,
}
use pitblu_core.Auth
use pitblu_core.Configuration.{Settings, token_mode, validate_patch}
use pitblu_core.Service.{Service}
use pitblu_core.Service.Operations.{connects, start_connection_operation, start_scan}
use pitblu_core.Service.Registration.{delete_registered, patch_device, register}
use pitblu_core.Service.Views.{
  device_view, devices, scan_result, shown_battery, shown_device, shown_operation, shown_probes,
}
use pitblu_core.Security.{Intake, abandoned, delivered, rejected, untouched}
use pitblu_core.Api.{
  App, Handler, Outcome, Request, and_then, answered, authenticate, chain, failed, intake,
  invalid_request, on_manager, on_service, protected, refuse, reply_with, taken_in, throttled_error,
  within_bounds,
}
use pitblu_core.Api.Routes.{
  Call, Given, IfMatch, Reply, absent, admit_stream, as_conflict, battery_reply, config_response,
  configuration_event, delete_of, delete_password, device_and_operation, device_reply,
  devices_reply, finish_with, get_battery, get_config, get_device, get_devices, get_health,
  get_operation, get_operations, get_probes, get_ready, get_recent_events, get_scan,
  get_stored_events, healthy, no_content, open_stream, operate, operation_reply, patch_as,
  patch_values, probes_reply, put_password, register_as, register_device, rotate_token, scan_reply,
  settings_are_valid, start_scan_of, stream_opened, unreadable, validate_values, version,
}
use pitblu_core.Api.Dispatch.{handle_call, is_open, patch_config, respond, try_update}
use pitblu_core.Api.Access.{authenticate-Access}
use pitblu_core.Api.Counts.{
  KeepsCounts, SameCounts, chain-KeepsCounts, event-KeepsCounts, finish-KeepsCounts,
  register_device-KeepsCounts, response-KeepsCounts, same, serves-SameCounts,
}

-- How many streams an answer opens
abbrev pub opened_by : Reply → ℕ
opened_by stream_opened = 1
opened_by _ = 0

abbrev pub opened : Outcome Reply → ℕ
opened (answered reply) = opened_by reply
opened (failed e) = 0

-- How many hashes an answer has begun
abbrev pub begun : Outcome String → ℕ
begun (answered token) = 1
begun (failed e) = 0

-- A call has counted the streams that it opens, within their bound, and leaves the hashes.
pub record Opens (app : App) (x : Outcome Reply × App) : Type 0 where
  pub jobs : x.1.authentication_jobs ≡ app.authentication_jobs
  pub maximum : x.1.maximum_sse_clients ≡ app.maximum_sse_clients
  pub streams : x.1.sse_clients ≡ app.sse_clients + opened x.0
  pub fits : app.sse_clients ≤ app.maximum_sse_clients → x.1.sse_clients ≤ x.1.maximum_sse_clients

closed-Opens :
    (app : App) (x : Outcome Reply × App) → SameCounts app x.1 → opened x.0 ≡ 0 → Opens app x
closed-Opens app x s h = record {
  jobs = s.jobs;
  maximum = s.maximum;
  streams = omega (arith, s.streams, h);
  fits = λ f. omega (arith, s.streams, s.maximum, f);
}

-- A handler that opens no stream
abbrev IsClosed : Handler Reply → Type 0
IsClosed m = (app : App) → opened (m app).0 ≡ 0

chain-IsClosed :
    {A : Type 0} (m : Handler A) (f : A → Handler Reply)
    → ((a : A) → IsClosed (f a))
    → IsClosed (chain m f)
chain-IsClosed {A} m f h app = behind (m app).0 (m app).1
  where
    behind : (r : Outcome A) (mid : App) → opened (and_then r f mid).0 ≡ 0
    behind (answered a) mid = h a mid
    behind (failed e) mid = refl

finish-IsClosed :
    {A : Type 0} (f : A → Reply) (m : Handler A)
    → ((a : A) → opened_by (f a) ≡ 0)
    → IsClosed (finish_with f m)
finish-IsClosed f m h = chain-IsClosed m (λ a. reply_with (f a)) (λ a app. h a)

serves-Opens :
    {A : Type 0} (f : A → Reply) (m : Exec Service A) (app : App)
    → ((a : A) → opened_by (f a) ≡ 0)
    → Opens app (finish_with f (on_service m) app)
serves-Opens f m app h =
    closed-Opens app (finish_with f (on_service m) app) (serves-SameCounts f m app)
      (finish-IsClosed f (on_service m) h app)

response-IsClosed : IsClosed config_response
unfolding config_response
response-IsClosed app = refl

register_device-IsClosed :
    (discovery : String) (name : Option String) (connect reconnect : Bool) (g : Given)
    → IsClosed (register_device discovery name connect reconnect g)
unfolding register_device
register_device-IsClosed discovery name true reconnect g app =
    chain-IsClosed
      (on_service (
        register discovery name reconnect g.device_id app.source g.now >>= λ row.
        device_view app.source row))
      (λ view.
        chain (on_service (start_connection_operation view.row.device_id connects g.id g.now))
          (λ operation.
            finish_with (λ v. device_and_operation v operation)
              (on_service (shown_device app.source view.row.device_id))))
      (λ view.
        chain-IsClosed
          (on_service (start_connection_operation view.row.device_id connects g.id g.now))
          (λ operation.
            finish_with (λ v. device_and_operation v operation)
              (on_service (shown_device app.source view.row.device_id)))
          (λ operation.
            finish-IsClosed (λ v. device_and_operation v operation)
              (on_service (shown_device app.source view.row.device_id)) (λ v. refl)))
      app
register_device-IsClosed discovery name false reconnect g app =
    finish-IsClosed device_reply
      (on_service (
        register discovery name reconnect g.device_id app.source g.now >>= λ row.
        device_view app.source row))
      (λ view. refl) app

same-Opens : (app : App) → Opens app (answered healthy, app)
same-Opens app = closed-Opens app (answered healthy, app) (same app) refl

taken-Opens :
    (i : Intake) (is_json : Bool) (m : Handler Reply) (app : App)
    → Opens app (m app)
    → Opens app (taken_in i is_json m app)
taken-Opens (rejected status code) is_json m app h = closed-Opens app _ (same app) refl
taken-Opens abandoned is_json m app h = closed-Opens app _ (same app) refl
taken-Opens untouched true m app h = h
taken-Opens untouched false m app h = closed-Opens app _ (same app) refl
taken-Opens (delivered body) true m app h = h
taken-Opens (delivered body) false m app h = closed-Opens app _ (same app) refl

admitted-Opens :
    (request : Request) (m : Handler Reply) (app : App) (r : Outcome (Unit {0})) (mid : App)
    → SameCounts app mid
    → Opens mid (m mid)
    → Opens app (and_then r (λ u. if request.is_valid then m else refuse invalid_request) mid)
admitted-Opens request m app (failed e) mid s h = closed-Opens app (failed e, mid) s refl
admitted-Opens request m app (answered tt) mid s h = elim (Bool-cases request.is_valid) [
  | inl valid ↦ rw valid (record {
    jobs = h.jobs ∙ s.jobs;
    maximum = h.maximum ∙ s.maximum;
    streams = omega (arith, h.streams, s.streams);
    fits = λ f. h.fits (omega (arith, s.streams, s.maximum, f));
  })
  | inr bad ↦ rw bad (closed-Opens app (failed invalid_request, mid) s refl)
]

module _ (fields_are_valid : Settings → Bool) (digest : String → List ℕ → List ℕ) where
  try_update-KeepsCounts :
      (values : Settings) (expected : ℕ)
      → KeepsCounts (try_update fields_are_valid digest values expected)
  unfolding try_update
  try_update-KeepsCounts values expected app =
      elim (Bool-cases
        (lookup "auth.mode" values == some token_mode && not (Auth.status app.store).0)) [
          | inl refused ↦ rw refused (same app)
          | inr free ↦ rw free (record { jobs = refl; streams = refl; maximum = refl })
        ]

  patch_config-KeepsCounts :
      (values : Settings) (if_match : IfMatch) (g : Given)
      → KeepsCounts (patch_config fields_are_valid digest values if_match g)
  unfolding patch_config
  patch_config-KeepsCounts values absent g app = same app
  patch_config-KeepsCounts values unreadable g app = same app
  patch_config-KeepsCounts values (version expected) g app =
      chain-KeepsCounts
        (λ a.
          let (r, after) = try_update fields_are_valid digest values expected a in
          (as_conflict r, after))
        (λ u. chain (configuration_event values g.at₀) (λ v. config_response))
        (try_update-KeepsCounts values expected)
        (λ u.
          chain-KeepsCounts (configuration_event values g.at₀) (λ v. config_response)
            (event-KeepsCounts values g.at₀) (λ v. response-KeepsCounts))
        app

  patch_config-IsClosed :
      (values : Settings) (if_match : IfMatch) (g : Given)
      → IsClosed (patch_config fields_are_valid digest values if_match g)
  unfolding patch_config
  patch_config-IsClosed values absent g app = refl
  patch_config-IsClosed values unreadable g app = refl
  patch_config-IsClosed values (version expected) g app =
      chain-IsClosed
        (λ a.
          let (r, after) = try_update fields_are_valid digest values expected a in
          (as_conflict r, after))
        (λ u. chain (configuration_event values g.at₀) (λ v. config_response))
        (λ u.
          chain-IsClosed (configuration_event values g.at₀) (λ v. config_response)
            (λ v. response-IsClosed))
        app

  handle_call-Opens :
      (call : Call) (g : Given) (app : App)
      → Opens app (handle_call fields_are_valid digest call g app)
  unfolding handle_call admit_stream config_response
  handle_call-Opens open_stream g app =
      elim (Bool-cases (leb app.maximum_sse_clients app.sse_clients)) [
        | inl full ↦ rw full (closed-Opens app (failed (throttled_error 5), app) (same app) refl)
        | inr room ↦ rw room (record {
          jobs = refl;
          maximum = refl;
          streams = refl;
          fits = λ f. ground (arith, room);
        })
      ]
  handle_call-Opens get_health g app = same-Opens app
  handle_call-Opens get_ready g app = closed-Opens app _ (same app) refl
  handle_call-Opens (start_scan_of duration) g app =
      let d : ℕ = elim duration [ none ↦ app.scan_duration | some t ↦ t ] in
      serves-Opens operation_reply (start_scan d g.id g.now) app (λ a. refl)
  handle_call-Opens (get_scan id) g app =
      serves-Opens scan_reply (λ s. (scan_result id s, s)) app (λ a. refl)
  handle_call-Opens get_devices g app =
      serves-Opens devices_reply (devices app.source) app (λ a. refl)
  handle_call-Opens (register_as discovery name connect reconnect) g app =
      closed-Opens app (register_device discovery name connect reconnect g app)
        (register_device-KeepsCounts discovery name connect reconnect g app)
        (register_device-IsClosed discovery name connect reconnect g app)
  handle_call-Opens (get_device key) g app =
      serves-Opens device_reply (shown_device app.source key) app (λ a. refl)
  handle_call-Opens (patch_as key name reconnect discovery) g app =
      serves-Opens device_reply
        (patch_device key name reconnect discovery >>= λ row. device_view app.source row) app
        (λ a. refl)
  handle_call-Opens (delete_of key) g app =
      serves-Opens (λ u. no_content)
        (shown_device app.source key >>= λ v.
          delete_registered key g.released g.at₀ g.at₁ g.at₂ g.at₃)
        app (λ a. refl)
  handle_call-Opens (operate key action) g app =
      serves-Opens operation_reply (start_connection_operation key action g.id g.now) app
        (λ a. refl)
  handle_call-Opens (get_probes key) g app =
      serves-Opens probes_reply (shown_probes app.source key) app (λ a. refl)
  handle_call-Opens (get_battery key) g app =
      serves-Opens battery_reply (shown_battery app.source key) app (λ a. refl)
  handle_call-Opens get_operations g app = closed-Opens app _ (same app) refl
  handle_call-Opens (get_operation id) g app =
      serves-Opens operation_reply (λ s. (shown_operation id s, s)) app (λ a. refl)
  handle_call-Opens get_recent_events g app = closed-Opens app _ (same app) refl
  handle_call-Opens get_stored_events g app = closed-Opens app _ (same app) refl
  handle_call-Opens get_config g app = closed-Opens app _ (same app) refl
  handle_call-Opens (validate_values changes) g app =
      let m = on_manager (λ c. (validate_patch fields_are_valid changes c, c)) in
      closed-Opens app (finish_with (λ u. settings_are_valid) m app)
        (finish-KeepsCounts (λ u. settings_are_valid) m
          (λ a. record { jobs = refl; streams = refl; maximum = refl }) app)
        (finish-IsClosed (λ u. settings_are_valid) m (λ u. refl) app)
  handle_call-Opens (patch_values changes if_match) g app =
      closed-Opens app (patch_config fields_are_valid digest changes if_match g app)
        (patch_config-KeepsCounts changes if_match g app)
        (patch_config-IsClosed changes if_match g app)
  handle_call-Opens (put_password value) g app =
      closed-Opens app _ (record { jobs = refl; streams = refl; maximum = refl }) refl
  handle_call-Opens delete_password g app =
      closed-Opens app _ (record { jobs = refl; streams = refl; maximum = refl }) refl
  handle_call-Opens rotate_token g app =
      closed-Opens app _ (record { jobs = refl; streams = refl; maximum = refl }) refl

  pub respond-Opens :
      (request : Request) (call : Call) (g : Given) (app : App)
      → Opens app (respond fields_are_valid digest request call g app)
  unfolding respond protected within_bounds
  respond-Opens request call g app =
      let x = authenticate digest request app in
      let counts = (authenticate-Access digest request app).counts in
      let m = handle_call fields_are_valid digest call g in
      elim (Bool-cases (is_open call)) [
        | inl free ↦
            rw free (
              taken-Opens (intake request app) request.is_json m app (handle_call-Opens call g app))
        | inr guarded ↦ rw guarded (
            taken-Opens (intake request app) request.is_json (protected digest request m) app (
              admitted-Opens request m app x.0 x.1
                (record { jobs = counts.jobs; streams = counts.streams; maximum = counts.maximum })
                (handle_call-Opens call g x.1)))
      ]
