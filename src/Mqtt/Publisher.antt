-- ===== src/Mqtt/Publisher.antt =====
-- `MqttPublisher` of src/pitblu_core/mqtt.py as explicit state. The network answers each call of
-- `publish` by a test of its number; what comes of a session's awaits is a list of turns, in which
-- other tasks publish on the bus or forget a device. A loop over `retained_state()` works on a copy
-- that it took at its start, so what others publish meanwhile is a turn behind it. Times are in
-- microseconds of the monotonic clock, and a `Datetime` is what `utc_now` returns.
use pitblu_core.Prelude.{
  Bool, Exec, List, Option, Result, String, [], err, foreign_error, if◌then◌else◌, length, nat_eq,
  none, not, ok, pure, string_eq, true, when, ℕ, ◌++◌, ◌==◌, ◌>>◌, ◌∷◌,
}
use pitblu_core.Models.{Datetime}
use pitblu_core.Connection.{BackoffPolicy}
use pitblu_core.Events.{
  EventBus, TelemetryEvent, is_administrative, retained_state, service_availability, type_eq,
}
use pitblu_core.Mqtt.{
  Fields, MqttSettings, availability_topic, mqtt_payload, retained, service_payload, topic_for,
}

-- The arguments of `client.publish`
pub record Sent : Type 0 where
  pub topic : String
  pub payload : Fields
  pub qos : ℕ
  pub retain : Bool

-- The client and what is behind it: the messages that it was given, and those that came through.
pub record Network : Type 0 where
  pub accepts : ℕ → Bool
  pub attempts : List Sent
  pub sent : List Sent
  pub will : Option Sent

pub record MqttPublisher : Type 0 where
  pub settings : MqttSettings
  pub state : String
  pub failures : ℕ
  pub error_code : Option String
  pub retry_in : Option ℕ
  pub session_id : String
  pub connected_at : Option ℕ
  pub policy : BackoffPolicy

-- `MqttPublisher.__init__`
unfoldable pub mqtt_publisher : MqttSettings → BackoffPolicy → MqttPublisher
mqtt_publisher settings policy = record {
  settings = settings;
  state = "starting";
  failures = 0;
  error_code = none;
  retry_in = none;
  session_id = "";
  connected_at = none;
  policy = policy;
}

-- The publisher with what it works on; `number` names its queue on the bus.
pub record World : Type 0 where
  pub publisher : MqttPublisher
  pub events : EventBus
  pub network : Network
  pub number : ℕ

-- `status`
pub record MqttStatus : Type 0 where
  pub state : String
  pub failures : ℕ
  pub error_code : Option String
  pub retry_in : Option ℕ

unfoldable pub status : MqttPublisher → MqttStatus
status p = record {
  state = p.state;
  failures = p.failures;
  error_code = p.error_code;
  retry_in = p.retry_in;
}

-- `client.publish`
unfoldable pub client_publish : Sent → Exec World (Unit {0})
client_publish message w =
    let n = w.network in
    let tried : Network = record n { attempts = n.attempts ++ message ∷ [] } in
    if n.accepts (length n.attempts)
    then (ok tt, record w { network = record tried { sent = n.sent ++ message ∷ [] } })
    else (err (foreign_error "MqttError"), record w { network = tried })

abbrev pub message_of : MqttSettings → TelemetryEvent → String → Sent
message_of settings event topic = record {
  topic = topic;
  payload = mqtt_payload event;
  qos = settings.qos;
  retain = retained event.type;
}

abbrev pub publish_to : TelemetryEvent → Result String → Exec World (Unit {0})
publish_to event (ok topic) w = client_publish (message_of w.publisher.settings event topic) w
publish_to event (err e) w = (err e, w)

-- `publish_event`
unfoldable pub publish_event : TelemetryEvent → Exec World (Unit {0})
unfolding client_publish
publish_event event w =
    if is_administrative event.type
    then (ok tt, w)
    else publish_to event (topic_for w.publisher.settings.base_topic event) w

-- The message of `_service_payload`
abbrev pub service_message : MqttPublisher → Bool → ℕ → Datetime → Sent
service_message p available sequence now = record {
  topic = availability_topic p.settings.base_topic;
  payload = service_payload p.settings p.session_id available sequence now;
  qos = p.settings.qos;
  retain = true;
}

unfoldable pub publish_service : Bool → ℕ → Datetime → Exec World (Unit {0})
unfolding client_publish
publish_service available sequence now w =
    client_publish (service_message w.publisher available sequence now) w

-- `for event in events.retained_state(): …`, for the events that are left
unfoldable pub publish_states : List TelemetryEvent → Exec World (Unit {0})
unfolding publish_event
publish_states [] = pure tt
publish_states (event ∷ rest) = do
  when (not (event.type == service_availability)) (publish_event event)
  publish_states rest

abbrev pub publish_retained : Exec World (Unit {0})
publish_retained w = publish_states (retained_state w.events) w
