-- ===== src/Api.antt =====
-- src/pitblu_core/api.py: who may call, and what the interface answers to an error. Routing, the
-- checks of what a request's body holds (whose outcome comes with the request) and the JSON of answers are
-- FastAPI's. The module Routes has the calls.
pub mod Routes
pub mod Dispatch
pub mod Access
pub mod SameAccess
pub mod Lockout
pub mod Counts
pub mod Limits
pub mod Running
pub mod Changes
use Prim.Native.Char.{code}
use Prim.Native.String.{[] as ε, ◌∷◌ as ◌▹◌}
use pitblu_core.Prelude.{
  Bool, Exception, Exec, List, Option, Result, String, [], configuration_value, err, false,
  if◌then◌else◌, leb, nat_eq, none, not, ok, resource_not_found, some, state_conflict, string_eq,
  true, value_error, ℕ, ◌&&◌, ◌+◌, ◌-◌, ◌==◌, ◌∷◌,
}
use pitblu_core.Security.{
  Intake, Message, RateLimit, abandoned, bounded_call, changes_state, delivered, rejected,
  retry_after, token, untouched,
}
use pitblu_core.Auth.{status, verify}
use pitblu_core.Service.{Service}
use pitblu_core.Configuration.{ConfigurationManager}
use pitblu_core.Events.{EventBus}
use pitblu_core.Models.{TelemetrySource}
use pitblu_core.Storage.{Store}
use pitblu_core.Mqtt.Publisher.{MqttPublisher}

-- What a call raises. A `value_error` that reaches an exception handler is pydantic's
-- `ValidationError` of the settings.
pub data ApiError : Type 0 where
  raised : Exception → ApiError
  invalid_request : ApiError
  authentication_error : ApiError
  throttled_error : ℕ → ApiError
  body_rejected : ℕ → String → ApiError
  client_disconnected : ApiError

-- A JSON error: the status, the code, and `Retry-After` if it is set
pub record ErrorReply : Type 0 where
  pub http_status : ℕ
  pub error_code : String
  pub retry : Option ℕ

abbrev pub error_reply : ℕ → String → ErrorReply
error_reply http_status code = record { http_status = http_status; error_code = code; retry = none }

-- The exception handlers and `_reject`; a client that is gone gets no answer.
unfoldable pub answer : ApiError → Option ErrorReply
answer invalid_request = some (error_reply 422 "validation_error")
answer authentication_error = some (error_reply 401 "authentication_required")
answer (throttled_error seconds) =
    some (record (error_reply 429 "rate_limited") { retry = some seconds })
answer (body_rejected status code) = some (error_reply status code)
answer client_disconnected = none
answer (raised (resource_not_found m)) = some (error_reply 404 "not_found")
answer (raised (state_conflict m)) = some (error_reply 409 "state_conflict")
answer (raised (value_error m)) = some (error_reply 422 "validation_error")
answer (raised (configuration_value m)) = some (error_reply 422 "validation_error")
answer (raised _) = some (error_reply 500 "internal_error")

-- The objects that `create_app` makes. The service and the manager hold the one store: a call of
-- either is given the application's, and the application takes back what it leaves.
pub record App : Type 0 where
  pub store : Store
  pub service : Service
  pub manager : ConfigurationManager
  pub bus : EventBus
  pub source : TelemetrySource
  -- `startup.bluetooth.scan_duration`
  pub scan_duration : ℕ
  -- `startup.auth.mode` is not "disabled"
  pub asks_for_token : Bool
  pub maximum_sse_clients : ℕ
  -- `RequestBounds.maximum_bytes`
  pub maximum_bytes : ℕ
  pub authentication_limit : RateLimit
  pub mutation_limit : RateLimit
  pub authentication_jobs : ℕ
  pub sse_clients : ℕ
  pub mqtt : Option MqttPublisher

pub data Outcome (A : Type 0) : Type 0 where
  answered : A → Outcome A
  failed : ApiError → Outcome A

-- A call of the interface: what it comes to, and the application as it leaves it
abbrev pub Handler : Type 0 → Type 0
Handler A = App → Outcome A × App

module _ {A B : Type 0} where
  abbrev pub and_then : Outcome A → (A → Handler B) → Handler B
  and_then (answered a) f app = f a app
  and_then (failed e) f app = (failed e, app)

  abbrev pub chain : Handler A → (A → Handler B) → Handler B
  chain m f app = let (r, app') = m app in and_then r f app'

module _ {A : Type 0} where
  abbrev pub reply_with : A → Handler A
  reply_with a app = (answered a, app)

  abbrev pub refuse : ApiError → Handler A
  refuse e app = (failed e, app)

  abbrev pub outcome : Result A → Outcome A
  outcome (ok a) = answered a
  outcome (err e) = failed (raised e)

  -- A call of the service
  abbrev pub on_service : Exec Service A → Handler A
  on_service m app =
      let (r, s) = m (record app.service { store = app.store }) in
      (outcome r, record app { service = s; store = s.store })

  -- A call of the configuration manager
  abbrev pub on_manager : Exec ConfigurationManager A → Handler A
  on_manager m app =
      let (r, c) = m (record app.manager { store = app.store }) in
      (outcome r, record app { manager = c; store = c.store })

-- A call of the store
abbrev pub on_store : {A : Type 0} → (Store → A × Store) → Handler A
on_store f app = let (a, t) = f app.store in (answered a, record app { store = t })

-- `authorization.partition(" ")`, without the separator
unfoldable pub partition_space : String → String × String
partition_space ε = ("", "")
partition_space (c ▹ rest) =
    let (scheme, token) = partition_space rest in
    if code c == 32 then ("", rest) else (c ▹ scheme, token)

-- `scheme.lower() == "bearer"`, by the code points that are left to match: no character beyond ASCII
-- has a letter of the word as its lower case
abbrev pub lower : ℕ → ℕ
lower c = if leb 65 c && leb c 90 then c + 32 else c

unfoldable pub lower_matches : List ℕ → String → Bool
lower_matches [] ε = true
lower_matches [] (c ▹ rest) = false
lower_matches (x ∷ xs) ε = false
lower_matches (x ∷ xs) (c ▹ rest) = lower (code c) == x && lower_matches xs rest

unfoldable pub is_bearer : String → Bool
unfolding lower_matches
is_bearer scheme = lower_matches (98 ∷ 101 ∷ 97 ∷ 114 ∷ 101 ∷ 114 ∷ []) scheme

-- `if retry := limit.retry_after(): raise ThrottledError(retry)`
abbrev pub throttle : ℕ → Handler (Unit {0})
throttle seconds = if seconds == 0 then reply_with tt else refuse (throttled_error seconds)

unfoldable pub limit_authentication : ℕ → Handler (Unit {0})
limit_authentication now app =
    let (wait, limit) = retry_after now app.authentication_limit in
    throttle wait (record app { authentication_limit = limit })

unfoldable pub limit_mutations : ℕ → Handler (Unit {0})
limit_mutations now app =
    let (wait, limit) = retry_after now app.mutation_limit in
    throttle wait (record app { mutation_limit = limit })

-- `authenticate` up to the await: the token whose verification has been started
unfoldable pub start_verification : String → ℕ → Handler String
unfolding limit_authentication partition_space is_bearer
start_verification authorization now = chain (limit_authentication now) λ _ app.
    let (scheme, token) = partition_space authorization in
    if not (is_bearer scheme)
    then (failed authentication_error, app)
    else if leb 2 app.authentication_jobs
    then (failed (throttled_error 1), app)
    else (answered token, record app { authentication_jobs = app.authentication_jobs + 1 })

-- `finished`, when the thread is done
unfoldable pub end_verification : App → App
end_verification app = record app { authentication_jobs = app.authentication_jobs - 1 }

-- What a request brings: its method, the messages of its body, whether that is JSON where the route
-- takes one, the header, the clock in microseconds, and whether FastAPI accepts its parameters and what its body holds
pub record Request : Type 0 where
  pub method : String
  pub messages : List Message
  pub is_json : Bool
  pub authorization : String
  pub now : ℕ
  pub is_valid : Bool

-- What the intake of the body leaves to do; FastAPI parses the body before it runs a dependency.
abbrev pub taken_in : {A : Type 0} → Intake → Bool → Handler A → Handler A
taken_in (rejected status code) is_json m = refuse (body_rejected status code)
taken_in abandoned is_json m = refuse client_disconnected
taken_in untouched is_json m = if is_json then m else refuse invalid_request
taken_in (delivered body) is_json m = if is_json then m else refuse invalid_request

-- `RequestBounds` around the routes
abbrev pub intake : Request → App → Intake
intake request app = bounded_call app.maximum_bytes "http" request.method request.messages

unfoldable pub within_bounds : {A : Type 0} → Request → Handler A → Handler A
within_bounds request m app = taken_in (intake request app) request.is_json m app

module _ (digest : String → List ℕ → List ℕ) where
  -- The rest of `authenticate`, for a token that is verified
  unfoldable pub check_token : Handler String → Handler (Unit {0})
  unfolding end_verification
  check_token begun = chain begun λ token app.
      let valid = verify digest token app.store in
      let done = end_verification app in
      if valid then (answered tt, done) else (failed authentication_error, done)

  unfoldable pub authenticate : Request → Handler (Unit {0})
  unfolding check_token start_verification limit_mutations
  authenticate request =
      chain
        (λ app.
          if app.asks_for_token
          then check_token (start_verification request.authorization request.now) app
          else (answered tt, app))
        λ _. if changes_state request.method then limit_mutations request.now else reply_with tt

  -- A route that depends on `authenticate`; what the request brings is checked behind it.
  unfoldable pub protected : {A : Type 0} → Request → Handler A → Handler A
  unfolding authenticate
  protected request handler =
      chain (authenticate request) λ _. if request.is_valid then handler else refuse invalid_request
