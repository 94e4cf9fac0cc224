-- ===== src/Api/Access.antt =====
-- Who may call (src/pitblu_core/api.py).
use pitblu_core.Prelude.{
  Bool, Bool-cases, List, Option, String, [], arith, false, if◌then◌else◌, inl, inr, length, ltb,
  nat_eq, none, not, refl, some, string_eq, subst, true, ℕ, ◌&&◌, ◌++◌, ◌+◌, ◌||◌, ◌∙◌, ◌∷◌, ◌≡◌,
  ◌≢◌, ◌⊎◌,
}
use pitblu_core.Security.{
  Intake, Message, abandoned, body_part, bounded_call, changes_state, delivered, disconnect,
  read_body, rejected, untouched,
}
use pitblu_core.Auth.{status, verify}
use pitblu_core.Configuration.{Settings}
use pitblu_core.Api.{
  ApiError, App, Handler, Outcome, Request, and_then, answer, answered, authenticate,
  authentication_error, body_rejected, check_token, client_disconnected, end_verification, failed,
  intake, invalid_request, is_bearer, limit_authentication, limit_mutations, partition_space,
  protected, raised, refuse, reply_with, start_verification, taken_in, throttled_error,
  within_bounds,
}
use pitblu_core.Api.Routes.{Call, Given, Reply, get_health}
use pitblu_core.Api.Dispatch.{handle_call, is_open, respond}

-- The two applications differ in what the limits have counted only.
pub record CountsOnly (a b : App) : Type 0 where
  pub store : b.store ≡ a.store
  pub service : b.service ≡ a.service
  pub manager : b.manager ≡ a.manager
  pub bus : b.bus ≡ a.bus
  pub jobs : b.authentication_jobs ≡ a.authentication_jobs
  pub streams : b.sse_clients ≡ a.sse_clients
  pub maximum : b.maximum_sse_clients ≡ a.maximum_sse_clients

-- A header with the scheme and a token that is accepted
abbrev pub has_token : (String → List ℕ → List ℕ) → Request → App → Bool
has_token digest request app =
    is_bearer (partition_space request.authorization).0
    && verify digest (partition_space request.authorization).1 app.store

abbrev pub is_access_error : ApiError → Bool
is_access_error authentication_error = true
is_access_error (throttled_error seconds) = true
is_access_error _ = false

-- A refusal of access, or an access with a token that is accepted
abbrev pub Checked : {A : Type 0} → Bool → Outcome A → Type 0
Checked holds (answered a) = holds ≡ true
Checked holds (failed e) = is_access_error e ≡ true

start-Checked :
    (digest : String → List ℕ → List ℕ) (header : String) (now : ℕ) (app : App)
    → Checked
        (is_bearer (partition_space header).0 && verify digest (partition_space header).1 app.store)
        (check_token digest (start_verification header now) app).0
unfolding check_token start_verification limit_authentication end_verification
start-Checked digest header now app = ground arith

start-CountsOnly :
    (digest : String → List ℕ → List ℕ) (header : String) (now : ℕ) (app : App)
    → CountsOnly app (check_token digest (start_verification header now) app).1
unfolding check_token start_verification limit_authentication end_verification
start-CountsOnly digest header now app = ground arith

-- `authenticate` as the interface runs it
abbrev pub may_call : (String → List ℕ → List ℕ) → Request → App → Bool
may_call digest request app = not app.asks_for_token || has_token digest request app

mutations-CountsOnly : (now : ℕ) (app : App) → CountsOnly app (limit_mutations now app).1
unfolding limit_mutations
mutations-CountsOnly now app = ground arith

mutations-Checked :
    (holds : Bool) (now : ℕ) (app : App) → holds ≡ true → Checked holds (limit_mutations now app).0
unfolding limit_mutations
mutations-Checked holds now app h = ground (arith, h)

CountsOnly-trans : (a b c : App) → CountsOnly a b → CountsOnly b c → CountsOnly a c
CountsOnly-trans a b c x y = record {
  store = y.store ∙ x.store;
  service = y.service ∙ x.service;
  manager = y.manager ∙ x.manager;
  bus = y.bus ∙ x.bus;
  jobs = y.jobs ∙ x.jobs;
  streams = y.streams ∙ x.streams;
  maximum = y.maximum ∙ x.maximum;
}

CountsOnly-refl : (a : App) → CountsOnly a a
CountsOnly-refl a = record {
  store = refl;
  service = refl;
  manager = refl;
  bus = refl;
  jobs = refl;
  streams = refl;
  maximum = refl;
}

-- An access that was checked, and what it leaves
pub record Access (holds : Bool) (app : App) (r : Outcome (Unit {0})) (after : App) : Type 0 where
  pub checked : Checked holds r
  pub counts : CountsOnly app after

limited :
    (holds mutates : Bool) (now : ℕ) (app : App) (r : Outcome (Unit {0})) (mid : App)
    → Access holds app r mid
    → (let x = and_then r (λ u. if mutates then limit_mutations now else reply_with tt) mid in
        Access holds app x.0 x.1)
limited holds true now app (answered tt) mid a = record {
  checked = mutations-Checked holds now mid a.checked;
  counts =
      CountsOnly-trans app mid (limit_mutations now mid).1 a.counts (mutations-CountsOnly now mid);
}
limited holds false now app (answered tt) mid a = a
limited holds mutates now app (failed e) mid a = a

pub authenticate-Access :
    (digest : String → List ℕ → List ℕ) (request : Request) (app : App)
    → (let x = authenticate digest request app in Access (may_call digest request app) app x.0 x.1)
unfolding authenticate
authenticate-Access digest request app = asked app.asks_for_token
  where
    begun : Outcome (Unit {0}) × App
    begun = check_token digest (start_verification request.authorization request.now) app

    asked :
        (b : Bool)
        → (let y : Outcome (Unit {0}) × App = if b then begun else (answered tt, app) in
            let x =
              and_then y.0
                (λ u.
                  if changes_state request.method
                  then limit_mutations request.now
                  else reply_with tt)
                y.1 in
            Access (not b || has_token digest request app) app x.0 x.1)
    asked true =
        limited (has_token digest request app) (changes_state request.method) request.now app
          begun.0 begun.1
          (record {
            checked = start-Checked digest request.authorization request.now app;
            counts = start-CountsOnly digest request.authorization request.now app;
          })
    asked false =
        limited true (changes_state request.method) request.now app (answered tt) app
          (record { checked = refl; counts = CountsOnly-refl app })

-- What a checked request leaves, for a property that its handler keeps
pub admitted :
    (P : App → Type 0) (request : Request) (m : Handler Reply) (r : Outcome (Unit {0})) (mid : App)
    → P mid
    → (P mid → P (m mid).1)
    → P (and_then r (λ u. if request.is_valid then m else refuse invalid_request) mid).1
admitted P request m (failed e) mid h next = h
admitted P request m (answered tt) mid h next = elim (Bool-cases request.is_valid) [
  | inl valid ↦ rw valid (next h)
  | inr bad ↦ rw bad h
]

-- The status of an answer to an error
abbrev pub refusal_status : Outcome Reply → Option ℕ
refusal_status (answered reply) = none
refusal_status (failed e) = elim (answer e) [ none ↦ none | some r ↦ some r.http_status ]

-- The answer says that a token is wanted, or to come again later.
abbrev pub IsRefusal : Outcome Reply → Type 0
IsRefusal x = (refusal_status x ≡ some 401) ⊎ (refusal_status x ≡ some 429)

access_error-status : (e : ApiError) → is_access_error e ≡ true → IsRefusal (failed e)
unfolding answer
access_error-status authentication_error h = inl refl
access_error-status (throttled_error seconds) h = inr refl
access_error-status invalid_request h = absurd (cc)
access_error-status (body_rejected status code) h = absurd (cc)
access_error-status client_disconnected h = absurd (cc)
access_error-status (raised x) h = absurd (cc)

-- What a request is told that has no accepted token, by the intake of its body and whether that is
-- JSON
abbrev pub IsRefusedAt : Intake → Bool → Outcome Reply → Type 0
IsRefusedAt (rejected status code) is_json x =
    (refusal_status x ≡ some status) × ((status ≡ 413) ⊎ (status ≡ 408))
IsRefusedAt abandoned is_json x = x ≡ failed client_disconnected
IsRefusedAt untouched true x = IsRefusal x
IsRefusedAt untouched false x = refusal_status x ≡ some 422
IsRefusedAt (delivered body) true x = IsRefusal x
IsRefusedAt (delivered body) false x = refusal_status x ≡ some 422

-- A body is rejected as too large or as too late.
abbrev IsRejection : Intake → Type 0
IsRejection (rejected status code) = (status ≡ 413) ⊎ (status ≡ 408)
IsRejection abandoned = Unit
IsRejection untouched = Unit
IsRejection (delivered body) = Unit

read_body-IsRejection :
    (maximum : ℕ) (chunks : List ℕ) (messages : List Message)
    → IsRejection (read_body maximum chunks messages)
unfolding read_body
read_body-IsRejection maximum chunks [] = inr refl
read_body-IsRejection maximum chunks (disconnect ∷ messages) = tt
read_body-IsRejection maximum chunks (body_part chunk more ∷ messages) =
    elim (Bool-cases (ltb maximum (length chunks + length chunk))) [
      | inl large ↦ rw large (inl refl)
      | inr small ↦ rw small (ends more (read_body-IsRejection maximum (chunks ++ chunk) messages))
    ]
  where
    ends :
        (b : Bool)
        → IsRejection (read_body maximum (chunks ++ chunk) messages)
        → IsRejection (
            if b then read_body maximum (chunks ++ chunk) messages else delivered (chunks ++ chunk))
    ends true h = h
    ends false h = tt

intake-IsRejection : (request : Request) (app : App) → IsRejection (intake request app)
unfolding bounded_call
intake-IsRejection request app = elim (Bool-cases (not (changes_state request.method))) [
  | inl reads ↦ rw reads tt
  | inr changes ↦ rw changes (read_body-IsRejection app.maximum_bytes [] request.messages)
]

-- What the intake of a request leaves, for a property that the routes keep
pub taken-keeps :
    (P : App → Type 0) (i : Intake) (is_json : Bool) (m : Handler Reply) (app : App)
    → P app
    → P (m app).1
    → P (taken_in i is_json m app).1
taken-keeps P (rejected status code) is_json m app h next = h
taken-keeps P abandoned is_json m app h next = h
taken-keeps P untouched true m app h next = next
taken-keeps P untouched false m app h next = h
taken-keeps P (delivered body) true m app h next = next
taken-keeps P (delivered body) false m app h next = h

taken-IsRefusedAt :
    (i : Intake) (is_json : Bool) (m : Handler Reply) (app : App)
    → IsRejection i
    → IsRefusal (m app).0
    → IsRefusedAt i is_json (taken_in i is_json m app).0
unfolding answer
taken-IsRefusedAt (rejected status code) is_json m app r h = (refl, r)
taken-IsRefusedAt abandoned is_json m app r h = refl
taken-IsRefusedAt untouched true m app r h = h
taken-IsRefusedAt untouched false m app r h = refl
taken-IsRefusedAt (delivered body) true m app r h = h
taken-IsRefusedAt (delivered body) false m app r h = refl

stopped :
    (request : Request) (m : Handler Reply) (app mid : App) (r : Outcome (Unit {0}))
    → Access false app r mid
    → (let x = and_then r (λ u. if request.is_valid then m else refuse invalid_request) mid in
        IsRefusal x.0 × CountsOnly app x.1)
stopped request m app mid (answered tt) a = absurd (cc a.checked)
stopped request m app mid (failed e) a = (access_error-status e a.checked, a.counts)

protected-refuses :
    (digest : String → List ℕ → List ℕ) (request : Request) (m : Handler Reply) (app : App)
    → app.asks_for_token ≡ true
    → has_token digest request app ≡ false
    → (let x = protected digest request m app in IsRefusal x.0 × CountsOnly app x.1)
unfolding protected
protected-refuses digest request m app asks without =
    stopped request m app (authenticate digest request app).1 (authenticate digest request app).0 (
      subst
        (λ b. Access b app (authenticate digest request app).0 (authenticate digest request app).1)
        (ground (arith, asks, without)) (authenticate-Access digest request app))

others_are_guarded : (call : Call) → call ≢ get_health → is_open call ≡ false
others_are_guarded get_health h = absurd (h refl)
others_are_guarded _ h = refl

-- Where a token is asked for, a request without an accepted one in an `Authorization: Bearer` header
-- is refused on every route but `/health`, and nothing but the limits' own counts has changed: not the
-- store, the service and its tasks, the configuration, the events or the streams. The answer is 401 or
-- 429, unless the body is refused before: 413 for one that is too large, 408 for one that does not
-- come in time, 422 for one that is not JSON, and none for a client that has gone.
pub refused_without_token :
    (fields_are_valid : Settings → Bool) (digest : String → List ℕ → List ℕ) (request : Request)
    (call : Call) (g : Given) (app : App)
    → call ≢ get_health
    → app.asks_for_token ≡ true
    → has_token digest request app ≡ false
    → (let x = respond fields_are_valid digest request call g app in
        IsRefusedAt (intake request app) request.is_json x.0 × CountsOnly app x.1)
unfolding respond within_bounds
refused_without_token valid digest request call g app other asks without =
    let m = handle_call valid digest call g in
    let (refused, counts) = protected-refuses digest request m app asks without in
    rw (others_are_guarded call other) (
      taken-IsRefusedAt (intake request app) request.is_json (protected digest request m) app
          (intake-IsRejection request app) refused,
      taken-keeps (CountsOnly app) (intake request app) request.is_json (protected digest request m)
          app (CountsOnly-refl app) counts,
    )
