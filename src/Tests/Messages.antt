-- ===== src/Tests/Messages.antt =====
-- The MQTT publisher (src/pitblu_core/mqtt.py).
use pitblu_core.Prelude.{
  All, List, Option, String, [], arith, false, inr, insert, lookup, nat_eq, none, ok, refl, some,
  string_eq, true, values, ℕ, ◌∷◌, ◌≡◌,
}
use pitblu_core.Models.{physical, utc}
use pitblu_core.Connection.{default_backoff, next_delay}
use pitblu_core.Events.{
  EventBus, EventType, Payload, TelemetryEvent, append_bounded, availability, battery,
  battery_level, keep_event, key_eq, key_of, offer, probe_availability, probe_state, publish,
  retained_state, service_availability, subscribe, unsubscribe,
}
use pitblu_core.Mqtt.{
  MqttSettings, availability_topic, decimal, decimal_digits, device_topic, mqtt_payload,
  service_payload, strip, strip_left, strip_right, topic_for, topic_part,
}
use pitblu_core.Mqtt.Publisher.{
  World, client_publish, mqtt_publisher, publish_event, publish_service, publish_states,
}
use pitblu_core.Mqtt.Session.{
  Pass, connected_run, enter, get_event, greet, leave, pop, published, received, serve, turn,
}
use pitblu_core.Mqtt.Loop.{
  back_off, count_failure, passes, plan_retry, run, set_publisher, was_stable,
}
use pitblu_core.Mqtt.Envelope.{Describes, mqtt_payload-Describes}
use pitblu_core.Mqtt.Topics.{topic_for-injective}
use pitblu_core.Mqtt.Addresses.{IsAddressed, of_device, of_probe, of_service, slash_free}
use pitblu_core.Mqtt.Offline.{SaidGoodbye, connected_run-SaidGoodbye}
use pitblu_core.Mqtt.Contents.{IsOurs, run-IsOurs}
use pitblu_core.Mqtt.Retry.{Course, NextTry, back_off_plans, run-Course}
use pitblu_core.Mqtt.Mirror.Broker.{held}
use pitblu_core.Mqtt.Mirror.Sessions.{IsHealthy, IsOrderly}
use pitblu_core.Tests.Device.{default_is_valid}
use pitblu_core.Mqtt.Mirror.Shutdown.{connected_run_mirrors}

abbrev settings : MqttSettings
settings = record {
  host = "127.0.0.1";
  port = 1883;
  username = none;
  password = none;
  tls = false;
  base_topic = "/home/pitblu/";
  qos = 1;
  source = physical;
  heartbeat = 60000000;
  stable_after = 60000000;
  timeout = 10000000;
}

abbrev said : EventType → Option String → Option ℕ → Payload → TelemetryEvent
said kind device probe payload = record {
  session_id = "s";
  type = kind;
  observed_at = utc 5;
  sequence = 3;
  source = physical;
  device_id = device;
  probe = probe;
  payload = payload;
}

abbrev battery_event : TelemetryEvent
battery_event = said battery (some "grill") none (battery_level true (some 80) none)

abbrev probe_event : TelemetryEvent
probe_event = said probe_availability (some "grill") (some 2) (probe_state true true none)

abbrev shutdown_event : TelemetryEvent
shutdown_event = said service_availability none none (availability false none)

battery_topic : topic_for "/home/pitblu/" battery_event ≡ ok "home/pitblu/v1/devices/grill/battery"
unfolding topic_for device_topic topic_part strip strip_left strip_right
battery_topic = refl

probe_topic :
    topic_for "home/pitblu" probe_event ≡ ok "home/pitblu/v1/devices/grill/probes/2/availability"
unfolding topic_for device_topic topic_part strip strip_left strip_right decimal decimal_digits
probe_topic = refl

mqtt_payload-Describes_example : Describes (mqtt_payload battery_event) battery_event
mqtt_payload-Describes_example = mqtt_payload-Describes battery_event

battery_event-IsAddressed : IsAddressed battery_event
unfolding topic_part slash_free
battery_event-IsAddressed = of_device "grill" refl refl

probe_event-IsAddressed : IsAddressed probe_event
unfolding slash_free
probe_event-IsAddressed = of_probe "grill" 2 refl refl (omega arith) (omega arith)

abbrev later_event : TelemetryEvent
later_event = said battery (some "grill") none (battery_level false none (some "stale"))

later_event-IsAddressed : IsAddressed later_event
unfolding topic_part slash_free
later_event-IsAddressed = of_device "grill" refl refl

one_topic : topic_for "pitblu" battery_event ≡ topic_for "pitblu" later_event
unfolding topic_for
one_topic = refl

topic_for-injective_example :
    ((t : String) × (topic_for "pitblu" battery_event ≡ ok t))
    × (key_of battery_event ≡ key_of later_event)
topic_for-injective_example =
    topic_for-injective "pitblu" battery_event later_event battery_event-IsAddressed
      later_event-IsAddressed one_topic

abbrev bus : EventBus
bus = record {
  history_size = 9;
  subscriber_queue_size = 1;
  session_id = "s";
  history = [];
  subscribers = [];
  has_persist = false;
  persisted = [];
  latest = [];
  streams_closed = false;
}

abbrev world : World
world = record {
  publisher = mqtt_publisher settings default_backoff;
  events = bus;
  network = record { accepts = λ k. true; attempts = []; sent = []; will = none };
  number = 7;
}

-- The queue has room for one event, so the battery's is lost from it.
abbrev session : Pass
session = record {
  connects = some 100;
  turns =
      published battery_event
      ∷ published probe_event
      ∷ received
      ∷ published shutdown_event
      ∷ received
      ∷ [];
  begins = utc 10;
  ends = utc 20;
  failed_at = 200;
  random = 0;
  cancelled_in_sleep = false;
}

world-IsHealthy : IsHealthy world
world-IsHealthy = record { live = λ k. refl; keyed = tt }

session-IsOrderly : All IsOrderly session.turns
session-IsOrderly =
    (inr battery_event-IsAddressed, (inr probe_event-IsAddressed, (tt, (inr of_service, (tt, tt)))))

session_returns : (connected_run session world).0 ≡ ok true
unfolding connected_run greet client_publish publish_service publish_states publish_event serve turn
    get_event pop mqtt_publisher enter topic_for device_topic topic_part strip strip_left
    strip_right decimal decimal_digits publish keep_event append_bounded offer insert retained_state
    values subscribe
session_returns = refl

abbrev after_session : World
after_session = (connected_run session world).1

battery_retained : lookup (key_of battery_event) after_session.events.latest ≡ some battery_event
unfolding connected_run greet client_publish publish_service publish_states publish_event serve turn
    get_event pop mqtt_publisher enter topic_for device_topic topic_part strip strip_left
    strip_right decimal decimal_digits publish keep_event append_bounded offer insert retained_state
    values subscribe unsubscribe leave lookup
battery_retained = refl

connected_run_mirrors_example :
    ((topic : String) × (topic_for after_session.publisher.settings.base_topic battery_event
        ≡ ok topic)
      × (held topic after_session.network.sent ≡ some (mqtt_payload battery_event)))
    × (held
          (availability_topic after_session.publisher.settings.base_topic)
          after_session.network.sent
        ≡ some (
            service_payload after_session.publisher.settings after_session.publisher.session_id
              false 2
              (utc 20)))
connected_run_mirrors_example =
    connected_run_mirrors session world (key_of battery_event) battery_event world-IsHealthy
      session-IsOrderly session_returns battery_retained refl

connected_run-SaidGoodbye_example :
    SaidGoodbye session.begins session.ends world.publisher (connected_run session world).1
connected_run-SaidGoodbye_example =
    connected_run-SaidGoodbye session world 100 refl
      (λ e. absurd (ground (arith, session_returns, e)))

-- Two attempts: the broker is not there, and then it refuses the first message.
abbrev lost : Pass
lost = record session { connects = none }

abbrev refusing : World
refusing = record world { network = record world.network { accepts = λ k. false } }

abbrev tries : List Pass
tries = lost ∷ session ∷ []

two_failures : (run tries refusing).1.publisher.failures ≡ 2
unfolding run passes connected_run greet leave client_publish publish_service enter unsubscribe
    subscribe back_off plan_retry count_failure was_stable next_delay mqtt_publisher
two_failures = refl

back_off_plans_example : (n base delay : ℕ) × NextTry lost world n base delay
unfolding mqtt_publisher
back_off_plans_example = back_off_plans lost world default_is_valid (omega arith)

run-Course_example :
    Course tries
      (set_publisher (λ p. record p { session_id = "s" }) refusing)
      (run tries refusing).0
      (run tries refusing).1
run-Course_example =
    run-Course tries refusing (unfold mqtt_publisher in default_is_valid)
      (omega arith, (omega arith, tt))

run-IsOurs_example :
    All (IsOurs refusing.publisher.settings "s") (run tries refusing).1.network.attempts
run-IsOurs_example = run-IsOurs tries refusing refl
