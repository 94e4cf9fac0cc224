-- ===== src/Api/SameAccess.antt =====
-- Which calls of the interface leave the settings and the token (src/pitblu_core/api.py).
use pitblu_core.Prelude.{
  Bool, Exec, Option, String, ap, false, if◌then◌else◌, is_some, nat_eq, option_eq, refl, string_eq,
  true, values, ◌>>=◌, ◌∙◌, ◌≡◌,
}
use pitblu_core.Models.{Datetime}
use pitblu_core.Configuration.{Settings}
use pitblu_core.Service.{Service}
use pitblu_core.Service.Operations.{connects, start_connection_operation}
use pitblu_core.Service.Registration.{register}
use pitblu_core.Service.Views.{DeviceView, device_view, shown_device}
use pitblu_core.Api.{
  App, Handler, Outcome, and_then, answered, chain, failed, on_service, reply_with,
}
use pitblu_core.Api.Routes.{
  Given, Reply, config_response, configuration_event, device_and_operation, device_reply,
  finish_with, register_device,
}
use pitblu_core.Service.Secrecy.{
  SparesToken, bind-SparesToken, register-SparesToken, shown-SparesToken, start-SparesToken,
  view-SparesToken,
}

-- Whoever could sign in still can, and no new demand is made.
pub record StillKnown (a b : App) : Type 0 where
  pub settings : b.manager.values ≡ a.manager.values
  pub token : is_some a.store.administrator_auth ≡ true → is_some b.store.administrator_auth ≡ true

abbrev KeepsAccess : {A : Type 0} → Handler A → Type 0
KeepsAccess m = (app : App) → StillKnown app (m app).1

StillKnown-refl : (a : App) → StillKnown a a
StillKnown-refl a = record { settings = refl; token = λ h. h }

module _ {A B : Type 0} where
  pub chain-KeepsAccess :
      (m : Handler A) (f : A → Handler B)
      → KeepsAccess m
      → ((a : A) → KeepsAccess (f a))
      → KeepsAccess (chain m f)
  chain-KeepsAccess m f h k app = behind (m app).0 (m app).1 (h app)
    where
      behind :
          (r : Outcome A) (mid : App) → StillKnown app mid → StillKnown app (and_then r f mid).1
      behind (answered a) mid e = record {
        settings = (k a mid).settings ∙ e.settings;
        token = λ x. (k a mid).token (e.token x);
      }
      behind (failed x) mid e = e

pub service-KeepsAccess :
    {A : Type 0} (m : Exec Service A) → SparesToken m → KeepsAccess (on_service m)
service-KeepsAccess m h app = record {
  settings = refl;
  token = λ x. ap is_some (h (record app.service { store = app.store })) ∙ x;
}

pub finish-KeepsAccess :
    {A : Type 0} (f : A → Reply) (m : Handler A) → KeepsAccess m → KeepsAccess (finish_with f m)
finish-KeepsAccess f m h =
    chain-KeepsAccess m (λ a. reply_with (f a)) h (λ a app. StillKnown-refl app)

pub response-KeepsAccess : KeepsAccess config_response
unfolding config_response
response-KeepsAccess app = StillKnown-refl app

pub event-KeepsAccess :
    (values : Settings) (now : Datetime) → KeepsAccess (configuration_event values now)
unfolding configuration_event
event-KeepsAccess values now app = record { settings = refl; token = λ h. h }

pub register_device-KeepsAccess :
    (discovery : String) (name : Option String) (connect reconnect : Bool) (g : Given)
    → KeepsAccess (register_device discovery name connect reconnect g)
unfolding register_device
register_device-KeepsAccess discovery name connect reconnect g app =
    chain-KeepsAccess
      (on_service (
        register discovery name reconnect g.device_id app.source g.now >>= λ row.
        device_view app.source row))
      (λ view. continue connect view)
      (service-KeepsAccess
        (register discovery name reconnect g.device_id app.source g.now >>= λ row.
          device_view app.source row)
        (bind-SparesToken (register discovery name reconnect g.device_id app.source g.now)
          (device_view app.source)
          (register-SparesToken discovery name reconnect g.device_id app.source g.now)
          (view-SparesToken app.source)))
      (λ view. continued connect view) app
  where
    continue : Bool → DeviceView → Handler Reply
    continue connect view =
        if connect
        then chain (on_service (start_connection_operation view.row.device_id connects g.id g.now))
            (λ operation.
              finish_with (λ v. device_and_operation v operation)
                (on_service (shown_device app.source view.row.device_id)))
        else reply_with (device_reply view)

    continued : (b : Bool) (view : DeviceView) → KeepsAccess (continue b view)
    continued true view app' =
        chain-KeepsAccess
          (on_service (start_connection_operation view.row.device_id connects g.id g.now))
          (λ operation.
            finish_with (λ v. device_and_operation v operation)
              (on_service (shown_device app.source view.row.device_id)))
          (service-KeepsAccess (start_connection_operation view.row.device_id connects g.id g.now)
            (start-SparesToken view.row.device_id connects g.id g.now))
          (λ operation.
            finish-KeepsAccess (λ v. device_and_operation v operation)
              (on_service (shown_device app.source view.row.device_id))
              (service-KeepsAccess (shown_device app.source view.row.device_id)
                (shown-SparesToken app.source view.row.device_id)))
          app'
    continued false view app' = StillKnown-refl app'
