-- ===== src/Mqtt/Announcements.antt =====
-- What the messages of the service itself say (src/pitblu_core/mqtt.py), described without the code.
use Prim.Native.String.{◌++◌ as ◌⧺◌}
use pitblu_core.Prelude.{Bool, String, [], refl, true, ℕ, ◌∷◌, ◌≡◌}
use pitblu_core.Models.{Datetime}
use pitblu_core.Mqtt.{MqttSettings, number, service_payload, source_value, strip, text, time, truth}
use pitblu_core.Mqtt.Publisher.{MqttPublisher, Sent, service_message}

-- A message that says whether the service is available: its topic, all fields of its payload, and
-- that it is retained
pub record Announces (settings : MqttSettings) (session_id : String) (available : Bool)
    (sequence : ℕ) (now : Datetime) (m : Sent) : Type 0 where
  pub under : m.topic ≡ strip settings.base_topic ⧺ "/v1/service/availability"
  pub says :
      m.payload
      ≡ ("schemaVersion", number 1)
        ∷ ("available", truth available)
        ∷ ("observedAt", time now)
        ∷ ("sequence", number sequence)
        ∷ ("source", text (source_value settings.source))
        ∷ ("sessionId", text session_id)
        ∷ []
  pub quality : m.qos ≡ settings.qos
  pub retained : m.retain ≡ true

pub service_message-Announces :
    (p : MqttPublisher) (available : Bool) (sequence : ℕ) (now : Datetime)
    → Announces p.settings p.session_id available sequence now
        (service_message p available sequence now)
unfolding service_payload
service_message-Announces p available sequence now = record {
  under = refl;
  says = refl;
  quality = refl;
  retained = refl;
}
