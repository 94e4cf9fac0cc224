-- ===== src/Api/Routes.antt =====
-- The calls of the interface (src/pitblu_core/api.py) and the application behind them. What a call
-- needs from outside is given with it: times, identifiers, random bytes, and what the adapter does.
-- A call runs whole: its awaits are those of the bus, which has none within, and of the adapter.
use Prim.Native.Nat.{Ordering}
use Prim.Native.String.{compare}
use pitblu_core.Prelude.{
  Bool, Dict, List, Option, Result, String, [], if◌then◌else◌, leb, none, option_eq, some,
  state_conflict, string_eq, true, version_conflict, ℕ, ◌+◌, ◌-◌, ◌==◌, ◌>>=◌, ◌∷◌,
}
use pitblu_core.Models.{Datetime, DiscoveredDevice}
use pitblu_core.Telemetry.Views.{BatteryView, ProbeView}
use pitblu_core.Events.{TelemetryEvent, configuration, configuration_version, publish}
use pitblu_core.Storage.{OperationRow, secret_status}
use pitblu_core.Configuration.{Settings}
use pitblu_core.Service.Operations.{Action, connects, start_connection_operation}
use pitblu_core.Service.Registration.{register}
use pitblu_core.Service.Views.{DeviceView, device_view, shown_device}
use pitblu_core.Mqtt.Publisher.{MqttPublisher}
use pitblu_core.Api.{
  ApiError, App, Handler, Outcome, answered, chain, failed, on_service, raised, reply_with,
  throttled_error,
}

-- The header `If-Match` as `int` reads it; a negative number, which is no version, is left out.
pub data IfMatch : Type 0 where
  absent unreadable : IfMatch
  version : ℕ → IfMatch

pub data Call : Type 0 where
  get_health get_ready : Call
  start_scan_of : Option ℕ → Call
  get_scan : String → Call
  get_devices : Call
  -- discovery identifier, friendly name, whether to connect, automatic reconnection
  register_as : String → Option String → Bool → Bool → Call
  get_device : String → Call
  -- device, friendly name if it is set, automatic reconnection, discovery identifier
  patch_as : String → Option (Option String) → Option Bool → Option String → Call
  delete_of : String → Call
  operate : String → Action → Call
  get_probes get_battery : String → Call
  get_operations : Call
  get_operation : String → Call
  get_recent_events get_stored_events open_stream : Call
  get_config : Call
  validate_values : Settings → Call
  patch_values : Settings → IfMatch → Call
  put_password : String → Call
  delete_password : Call
  rotate_token : Call

-- What is given to a call
pub record Given : Type 0 where
  pub now : ℕ
  pub id : String
  pub device_id : DiscoveredDevice → String
  pub released : Result (Unit {0})
  pub at₀ : Datetime
  pub at₁ : Datetime
  pub at₂ : Datetime
  pub at₃ : Datetime
  pub token : String
  pub salt : List ℕ

-- `config_response`: the version, the settings with their sources, and whether the password is set
pub record ConfigView : Type 0 where
  pub number : ℕ
  pub values : Settings
  pub sources : Dict String String
  pub password : Bool × Option ℕ

pub data Reply : Type 0 where
  healthy : Reply
  -- whether the service is ready, and so 200 or 503
  readiness : Bool → Reply
  operation_reply : OperationRow → Reply
  scan_reply : OperationRow × List DiscoveredDevice → Reply
  devices_reply : List DeviceView → Reply
  device_reply : DeviceView → Reply
  device_and_operation : DeviceView → OperationRow → Reply
  no_content : Reply
  probes_reply : List ProbeView → Reply
  battery_reply : Option BatteryView → Reply
  operations_reply : List OperationRow → Reply
  events_reply : List TelemetryEvent → Reply
  stored_events_reply : List String → Reply
  stream_opened : Reply
  config_reply : ConfigView → Reply
  settings_are_valid : Reply
  password_set : ℕ → Reply
  password_deleted : Reply
  token_reply : String → Reply

abbrev pub password_name : String
password_name = "mqtt.password"

abbrev pub finish_with : {A : Type 0} → (A → Reply) → Handler A → Handler Reply
finish_with f m = chain m λ a. reply_with (f a)

unfoldable pub config_response : Handler Reply
config_response app = (
  answered (
      config_reply (record {
        number = app.manager.version;
        values = app.manager.values;
        sources = app.manager.sources;
        password = secret_status password_name app.store;
      })),
  app,
)

-- `ready`
unfoldable pub is_ready : Option MqttPublisher → Bool
is_ready none = true
is_ready (some p) = p.state == "connected"

-- `event_stream`, and the end of a stream
unfoldable pub admit_stream : Handler Reply
admit_stream app =
    if leb app.maximum_sse_clients app.sse_clients
    then (failed (throttled_error 5), app)
    else (answered stream_opened, record app { sse_clients = app.sse_clients + 1 })

unfoldable pub end_stream : App → App
end_stream app = record app { sse_clients = app.sse_clients - 1 }

-- `register_device`
unfoldable pub register_device : String → Option String → Bool → Bool → Given → Handler Reply
register_device discovery name connect reconnect g app =
    chain
      (on_service (
        register discovery name reconnect g.device_id app.source g.now >>= λ row.
        device_view app.source row))
      (λ view.
        if connect
        then chain (on_service (start_connection_operation view.row.device_id connects g.id g.now))
            (λ operation.
              finish_with (λ v. device_and_operation v operation)
                (on_service (shown_device app.source view.row.device_id)))
        else reply_with (device_reply view))
      app

-- `sorted(body.values)`
unfoldable pub insert_sorted : String → List String → List String
insert_sorted x [] = x ∷ []
insert_sorted x (y ∷ ys) = elim (compare x y) [
  | Ordering.gt ↦ y ∷ insert_sorted x ys
  | _ ↦ x ∷ y ∷ ys
]

unfoldable pub sorted_names : Settings → List String
unfolding insert_sorted
sorted_names [] = []
sorted_names ((key, value) ∷ values) = insert_sorted key (sorted_names values)

unfoldable pub configuration_event : Settings → Datetime → Handler (Unit {0})
unfolding sorted_names
configuration_event values now app = (
  answered tt,
  record app {
    bus =
        publish
          (record {
            session_id = "";
            type = configuration;
            observed_at = now;
            sequence = app.manager.version;
            source = app.source;
            device_id = none;
            probe = none;
            payload = configuration_version app.manager.version (sorted_names values);
          })
          app.bus;
  },
)

-- `except VersionConflictError`
abbrev pub conflict_of : ApiError → ApiError
conflict_of (raised (version_conflict current)) =
    raised (state_conflict "configuration version conflict")
conflict_of e = e

abbrev pub as_conflict : {A : Type 0} → Outcome A → Outcome A
as_conflict (answered a) = answered a
as_conflict (failed e) = failed (conflict_of e)
