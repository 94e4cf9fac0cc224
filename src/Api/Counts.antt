-- ===== src/Api/Counts.antt =====
-- Which calls of the interface leave its counts (src/pitblu_core/api.py).
use pitblu_core.Prelude.{
  Bool, Exec, Option, String, false, nat_eq, option_eq, refl, string_eq, true, values, ◌>>=◌, ◌∙◌,
  ◌≡◌,
}
use pitblu_core.Models.{Datetime}
use pitblu_core.Configuration.{Settings}
use pitblu_core.Service.{Service}
use pitblu_core.Service.Operations.{connects, start_connection_operation}
use pitblu_core.Service.Registration.{register}
use pitblu_core.Service.Views.{device_view, shown_device}
use pitblu_core.Api.{
  App, Handler, Outcome, and_then, answered, chain, failed, on_service, reply_with,
}
use pitblu_core.Api.Routes.{
  Given, Reply, config_response, configuration_event, device_and_operation, device_reply,
  finish_with, register_device,
}

-- The counts of hashes and streams, and the bound of the latter, are the same.
pub record SameCounts (a b : App) : Type 0 where
  pub jobs : b.authentication_jobs ≡ a.authentication_jobs
  pub streams : b.sse_clients ≡ a.sse_clients
  pub maximum : b.maximum_sse_clients ≡ a.maximum_sse_clients

pub same : (a : App) → SameCounts a a
same a = record { jobs = refl; streams = refl; maximum = refl }

abbrev pub KeepsCounts : {A : Type 0} → Handler A → Type 0
KeepsCounts m = (app : App) → SameCounts app (m app).1

module _ {A B : Type 0} where
  pub chain-KeepsCounts :
      (m : Handler A) (f : A → Handler B)
      → KeepsCounts m
      → ((a : A) → KeepsCounts (f a))
      → KeepsCounts (chain m f)
  chain-KeepsCounts m f h k app = behind (m app).0 (m app).1 (h app)
    where
      behind :
          (r : Outcome A) (mid : App) → SameCounts app mid → SameCounts app (and_then r f mid).1
      behind (answered a) mid e =
          let k' = k a mid in
          record {
            jobs = k'.jobs ∙ e.jobs;
            streams = k'.streams ∙ e.streams;
            maximum = k'.maximum ∙ e.maximum;
          }
      behind (failed x) mid e = e

pub finish-KeepsCounts :
    {A : Type 0} (f : A → Reply) (m : Handler A) → KeepsCounts m → KeepsCounts (finish_with f m)
finish-KeepsCounts f m h = chain-KeepsCounts m (λ a. reply_with (f a)) h (λ a app. same app)

service-KeepsCounts : {A : Type 0} (m : Exec Service A) → KeepsCounts (on_service m)
service-KeepsCounts m app = record { jobs = refl; streams = refl; maximum = refl }

pub serves-SameCounts :
    {A : Type 0} (f : A → Reply) (m : Exec Service A) → KeepsCounts (finish_with f (on_service m))
serves-SameCounts f m = finish-KeepsCounts f (on_service m) (service-KeepsCounts m)

pub response-KeepsCounts : KeepsCounts config_response
unfolding config_response
response-KeepsCounts app = same app

pub event-KeepsCounts :
    (values : Settings) (now : Datetime) → KeepsCounts (configuration_event values now)
unfolding configuration_event
event-KeepsCounts values now app = record { jobs = refl; streams = refl; maximum = refl }

pub register_device-KeepsCounts :
    (discovery : String) (name : Option String) (connect reconnect : Bool) (g : Given)
    → KeepsCounts (register_device discovery name connect reconnect g)
unfolding register_device
register_device-KeepsCounts discovery name true reconnect g app =
    chain-KeepsCounts
      (on_service (
        register discovery name reconnect g.device_id app.source g.now >>= λ row.
        device_view app.source row))
      (λ view.
        chain (on_service (start_connection_operation view.row.device_id connects g.id g.now))
          (λ operation.
            finish_with (λ v. device_and_operation v operation)
              (on_service (shown_device app.source view.row.device_id))))
      (service-KeepsCounts (
        register discovery name reconnect g.device_id app.source g.now >>= λ row.
        device_view app.source row))
      (λ view.
        chain-KeepsCounts
          (on_service (start_connection_operation view.row.device_id connects g.id g.now))
          (λ operation.
            finish_with (λ v. device_and_operation v operation)
              (on_service (shown_device app.source view.row.device_id)))
          (service-KeepsCounts (start_connection_operation view.row.device_id connects g.id g.now))
          (λ operation.
            serves-SameCounts (λ v. device_and_operation v operation)
              (shown_device app.source view.row.device_id)))
      app
register_device-KeepsCounts discovery name false reconnect g app =
    serves-SameCounts device_reply
      (register discovery name reconnect g.device_id app.source g.now >>= λ row.
        device_view app.source row)
      app
