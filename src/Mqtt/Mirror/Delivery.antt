-- ===== src/Mqtt/Mirror/Delivery.antt =====
-- What the publisher of src/pitblu_core/mqtt.py gives the client, and what it leaves alone.
use mathlib.Core.List.{append-nil, append_assoc}
use pitblu_core.Prelude.{
  All, Bool-cases, List, Option, Result, String, [], after_result, ap, arith, err, false, inl, inr,
  length, ok, refl, sym, true, ℕ, ◌++◌, ◌==◌, ◌∙◌, ◌∷◌, ◌≡◌,
}
use pitblu_core.Events.{EventType, TelemetryEvent, is_administrative, service_availability, type_eq}
use pitblu_core.Mqtt.{topic_for, topic_part}
use pitblu_core.Mqtt.Publisher.{
  Sent, World, client_publish, message_of, publish_event, publish_states, publish_to,
}
use pitblu_core.Mqtt.Addresses.{
  Addressed, IsAddressed, address, of_device, of_probe, of_service, topic-address,
}
use pitblu_core.Mqtt.Mirror.Broker.{state_messages, topic_of}

-- The two differ in the messages of the network only.
pub record SendsOnly (w v : World) : Type 0 where
  pub publisher : v.publisher ≡ w.publisher
  pub events : v.events ≡ w.events
  pub number : v.number ≡ w.number
  pub accepts : v.network.accepts ≡ w.network.accepts
  pub will : v.network.will ≡ w.network.will

pub SendsOnly-refl : (w : World) → SendsOnly w w
SendsOnly-refl w = record {
  publisher = refl;
  events = refl;
  number = refl;
  accepts = refl;
  will = refl;
}

pub SendsOnly-trans : (u v w : World) → SendsOnly u v → SendsOnly v w → SendsOnly u w
SendsOnly-trans u v w a b = record {
  publisher = b.publisher ∙ a.publisher;
  events = b.events ∙ a.events;
  number = b.number ∙ a.number;
  accepts = b.accepts ∙ a.accepts;
  will = b.will ∙ a.will;
}

pub client_publish-SendsOnly : (m : Sent) (w : World) → SendsOnly w (client_publish m w).1
unfolding client_publish
client_publish-SendsOnly m w = ground arith

pub attempts-client_publish :
    (m : Sent) (w : World) → (client_publish m w).1.network.attempts ≡ w.network.attempts ++ m ∷ []
unfolding client_publish
attempts-client_publish m w = ground arith

pub publish_event-SendsOnly : (e : TelemetryEvent) (w : World) → SendsOnly w (publish_event e w).1
unfolding publish_event
publish_event-SendsOnly e w = elim (Bool-cases (is_administrative e.type)) [
  | inl a ↦ rw a (SendsOnly-refl w)
  | inr a ↦ rw a (to (topic_for w.publisher.settings.base_topic e))
]
  where
    to : (r : Result String) → SendsOnly w (publish_to e r w).1
    to (ok topic) = client_publish-SendsOnly (message_of w.publisher.settings e topic) w
    to (err x) = SendsOnly-refl w

unfoldable pub delivered : List Sent → World → World
delivered ms w = record w {
  network = record w.network { attempts = w.network.attempts ++ ms; sent = w.network.sent ++ ms };
}

pub delivered-nil : (w : World) → delivered [] w ≡ w
unfolding delivered
delivered-nil w i = record w {
  network = record w.network {
    attempts = append-nil w.network.attempts i;
    sent = append-nil w.network.sent i;
  };
}

pub delivered-delivered :
    (ms ns : List Sent) (w : World) → delivered ns (delivered ms w) ≡ delivered (ms ++ ns) w
unfolding delivered
delivered-delivered ms ns w i = record w {
  network = record w.network {
    attempts = append_assoc w.network.attempts ms ns i;
    sent = append_assoc w.network.sent ms ns i;
  };
}

-- The network takes every message.
abbrev pub IsLive : World → Type 0
IsLive w = (k : ℕ) → w.network.accepts k ≡ true

pub delivered-IsLive : (ms : List Sent) (w : World) → IsLive w → IsLive (delivered ms w)
unfolding delivered
delivered-IsLive ms w h = h

pub client_publish-live :
    (m : Sent) (w : World) → IsLive w → client_publish m w ≡ (ok tt, delivered (m ∷ []) w)
unfolding client_publish delivered
client_publish-live m w h = rw (h (length w.network.attempts), client_publish) refl

Addressed-is_administrative :
    {kind : EventType} {device : Option String} {probe : Option ℕ}
    → Addressed kind device probe
    → is_administrative kind ≡ false
unfolding topic_part
Addressed-is_administrative of_service = refl
Addressed-is_administrative {kind} (of_device device h free) = ground arith
Addressed-is_administrative {kind} (of_probe device n h free lo hi) = ground arith

abbrev pub message : World → TelemetryEvent → Sent
message w e = message_of w.publisher.settings e (topic_of w.publisher.settings.base_topic e)

pub publish_event-live :
    (e : TelemetryEvent) (w : World)
    → IsLive w
    → IsAddressed e
    → publish_event e w ≡ (ok tt, delivered (message w e ∷ []) w)
unfolding publish_event topic_of
publish_event-live e w h address =
    rw (Addressed-is_administrative address, publish_event)
      (rw (topic-address w.publisher.settings.base_topic e address refl refl refl)
        (client_publish-live _ w h))

-- A pass over addressed events gives the network their messages, in order.
pub publish_states-live :
    (es : List TelemetryEvent) (w : World)
    → IsLive w
    → All IsAddressed es
    → publish_states es w ≡ (ok tt, delivered (state_messages w.publisher.settings es) w)
unfolding publish_states delivered
publish_states-live [] w h a = ap (λ (v : World). (ok tt, v)) (sym (delivered-nil w))
publish_states-live (e ∷ es) w h (a, others) = elim (Bool-cases (e.type == service_availability)) [
  | inl s ↦ rw s (publish_states-live es w h others)
  | inr s ↦ rw s (
      ap (λ (x : Result (Unit {0}) × World). after_result x.0 (λ u. publish_states es) x.1)
        (publish_event-live e w h a)
      ∙ publish_states-live es (delivered (message w e ∷ []) w)
          (delivered-IsLive (message w e ∷ []) w h) others
      ∙ ap (λ (v : World). (ok tt, v))
          (delivered-delivered (message w e ∷ []) (state_messages w.publisher.settings es) w))
]
