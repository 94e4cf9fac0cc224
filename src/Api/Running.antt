-- ===== src/Api/Running.antt =====
-- How many hashes and streams the interface runs at once (src/pitblu_core/api.py).
use pitblu_core.Prelude.{Bool, List, String, [], arith, refl, suc, zero, ℕ, ◌+◌, ◌∙◌, ◌∷◌, ◌≡◌, ◌≤◌}
use pitblu_core.Configuration.{Settings}
use pitblu_core.Api.{
  App, Outcome, Request, answer, end_verification, limit_authentication, start_verification,
}
use pitblu_core.Api.Routes.{Call, Given, end_stream}
use pitblu_core.Api.Dispatch.{respond}
use pitblu_core.Api.Limits.{begun, opened, respond-Opens}

-- The application, with the hashes that have begun and not ended, and the streams that have been
-- opened and not ended, as an observer counts them by the answers
pub record Observed : Type 0 where
  pub app : App
  pub hashes : ℕ
  pub streams : ℕ

-- The application's own counts are right, and within their bounds.
pub record IsCounted (o : Observed) : Type 0 where
  pub jobs : o.app.authentication_jobs ≡ o.hashes
  pub clients : o.app.sse_clients ≡ o.streams
  pub two_hashes : o.hashes ≤ 2
  pub few_streams : o.streams ≤ o.app.maximum_sse_clients

-- A verification that is begun counts itself.
record Begins (app : App) (x : Outcome String × App) : Type 0 where
  jobs : x.1.authentication_jobs ≡ app.authentication_jobs + begun x.0
  fits : app.authentication_jobs ≤ 2 → x.1.authentication_jobs ≤ 2
  streams : x.1.sse_clients ≡ app.sse_clients
  maximum : x.1.maximum_sse_clients ≡ app.maximum_sse_clients

start_verification-Begins :
    (header : String) (now : ℕ) (app : App) → Begins app (start_verification header now app)
unfolding start_verification limit_authentication
start_verification-Begins header now app = ground arith

module _ (fields_are_valid : Settings → Bool) (digest : String → List ℕ → List ℕ) where
  -- What happens to the application: a request that runs whole, with its own hash within it, one
  -- whose hash is still computed, whoever waits for it, the end of a hash that runs, and the end of a
  -- stream that is open
  pub data Happening : Type 0 where
    asks : Request → Call → Given → Happening
    begins : String → ℕ → Happening
    hash_ends stream_ends : Happening

  hash_ended : ℕ → Observed → Observed
  hash_ended zero o = o
  hash_ended (suc n) o = record o { app = end_verification o.app; hashes = n }

  stream_ended : ℕ → Observed → Observed
  stream_ended zero o = o
  stream_ended (suc n) o = record o { app = end_stream o.app; streams = n }

  unfoldable pub happen : Happening → Observed → Observed
  unfolding hash_ended stream_ended
  happen (asks request call g) o =
      let (answer, app) = respond fields_are_valid digest request call g o.app in
      record o { app = app; streams = o.streams + opened answer }
  happen (begins header now) o =
      let (answer, app) = start_verification header now o.app in
      record o { app = app; hashes = o.hashes + begun answer }
  happen hash_ends o = hash_ended o.hashes o
  happen stream_ends o = stream_ended o.streams o

  unfoldable pub happen_all : List Happening → Observed → Observed
  unfolding happen
  happen_all [] o = o
  happen_all (x ∷ xs) o = happen_all xs (happen x o)

  hash_ended-IsCounted :
      (n : ℕ) (o : Observed) → o.hashes ≡ n → IsCounted o → IsCounted (hash_ended n o)
  unfolding hash_ended end_verification
  hash_ended-IsCounted zero o e h = h
  hash_ended-IsCounted (suc n) o e h = record {
    jobs = omega (arith, h.jobs, e);
    clients = h.clients;
    two_hashes = omega (arith, h.two_hashes, e);
    few_streams = h.few_streams;
  }

  stream_ended-IsCounted :
      (n : ℕ) (o : Observed) → o.streams ≡ n → IsCounted o → IsCounted (stream_ended n o)
  unfolding stream_ended end_stream
  stream_ended-IsCounted zero o e h = h
  stream_ended-IsCounted (suc n) o e h = record {
    jobs = h.jobs;
    clients = omega (arith, h.clients, e);
    two_hashes = h.two_hashes;
    few_streams = omega (arith, h.few_streams, e);
  }

  happen-IsCounted : (x : Happening) (o : Observed) → IsCounted o → IsCounted (happen x o)
  unfolding happen
  happen-IsCounted (asks request call g) o h =
      let s = respond-Opens fields_are_valid digest request call g o.app in
      let fits = s.fits (omega (arith, h.clients, h.few_streams)) in
      record {
        jobs = s.jobs ∙ h.jobs;
        clients = omega (arith, s.streams, h.clients);
        two_hashes = h.two_hashes;
        few_streams = omega (arith, s.streams, h.clients, fits);
      }
  happen-IsCounted (begins header now) o h =
      let s = start_verification-Begins header now o.app in
      let fits = s.fits (omega (arith, h.jobs, h.two_hashes)) in
      record {
        jobs = omega (arith, s.jobs, h.jobs);
        clients = s.streams ∙ h.clients;
        two_hashes = omega (arith, s.jobs, h.jobs, fits);
        few_streams = omega (arith, s.maximum, h.few_streams);
      }
  happen-IsCounted hash_ends o h = hash_ended-IsCounted o.hashes o refl h
  happen-IsCounted stream_ends o h = stream_ended-IsCounted o.streams o refl h

  -- In any interleaving of requests, of hashes that outlast their callers and of streams that end, the
  -- application's counts are exactly the hashes that have begun and not ended and the streams that
  -- have been opened and not ended, and so there are at most two of the former at once and at most as
  -- many of the latter as are set: from an application of which this is true, such as one that has
  -- just started.
  pub happen_all-IsCounted :
      (xs : List Happening) (o : Observed) → IsCounted o → IsCounted (happen_all xs o)
  unfolding happen_all
  happen_all-IsCounted [] o h = h
  happen_all-IsCounted (x ∷ xs) o h = happen_all-IsCounted xs (happen x o) (happen-IsCounted x o h)
