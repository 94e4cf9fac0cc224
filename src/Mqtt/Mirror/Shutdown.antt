-- ===== src/Mqtt/Mirror/Shutdown.antt =====
-- How a session of the publisher of src/pitblu_core/mqtt.py ends at the shutdown of the service.
use text.Mathlib.TextLemmas.{append_cancel_left}
use pitblu_core.Prelude.{
  ==_iff, All, Bool, Option, Result, String, [], ap, arith, err, false, foreign_error, lookup, none,
  ok, ok-injective, refl, some, string_eq, subst, sym, true, ℕ, ◌==◌, ◌∙◌, ◌∷◌, ◌≡◌, ◌≢◌,
}
use pitblu_core.Models.{Datetime}
use pitblu_core.Events.{
  EventKey, TelemetryEvent, key_eq, service_availability, subscribe, type_code, type_eq,
  unsubscribe,
}
use pitblu_core.Mqtt.{availability_topic, mqtt_payload, service_payload, strip, topic_for}
use pitblu_core.Mqtt.Publisher.{Sent, World, publish_service, service_message}
use pitblu_core.Mqtt.Session.{Pass, connected_run, enter, greet, leave, set_will}
use pitblu_core.Mqtt.Topics.{address-injective}
use pitblu_core.Mqtt.Addresses.{IsAddressed, address, of_service, topic-address}
use pitblu_core.Mqtt.Mirror.Broker.{held, held-append, lookup-IsKeyed}
use pitblu_core.Mqtt.Mirror.Delivery.{client_publish-live, delivered}
use pitblu_core.Mqtt.Mirror.Sessions.{IsHealthy, IsOrderly, Mirrors, Outcome, greet-Outcome}

own_topic :
    (base topic : String) (e : TelemetryEvent)
    → IsAddressed e
    → (e.type == service_availability) ≡ false
    → topic_for base e ≡ ok topic
    → availability_topic base ≢ topic
unfolding address
own_topic base topic e a n t same =
    let there = topic-address base e a refl refl refl in
    let (k, d, p) =
      address-injective of_service a
        (append_cancel_left (strip base) _ _ (same ∙ ok-injective (sym t ∙ there))) in
    ground (arith, n, ap type_code k)

-- The last message, which is for the service's own topic, leaves the broker's view of the states.
said_last :
    (m : Sent) (w : World)
    → m.topic ≡ availability_topic w.publisher.settings.base_topic
    → IsHealthy w
    → Mirrors w
    → Mirrors (delivered (m ∷ []) w)
unfolding delivered held
said_last m w t h a = record {
  state = λ k e l n.
      let (topic, named, view) = a.state k e l n in
      let known = lookup-IsKeyed k e w.events.latest h.keyed l in
      (
        topic,
        named,
        held-append topic w.network.sent (m ∷ [])
            ∙ ground (
              arith,
              view,
              ==_iff m.topic topic,
              λ (x : m.topic ≡ topic).
                  own_topic w.publisher.settings.base_topic topic e known.addressed n named
                    (sym t ∙ x),
            ),
      );
}

-- The topic of the service itself, behind the last message
service_held :
    (m : Sent) (topic : String) (w : World)
    → m.topic ≡ topic
    → m.retain ≡ true
    → held topic (delivered (m ∷ []) w).network.sent ≡ some m.payload
unfolding delivered held
service_held m topic w t r =
    held-append topic w.network.sent (m ∷ []) ∙ ground (arith, r, t, ==_iff m.topic topic)

-- What is said of the service's topic, and the view of the states, where a session ends.
abbrev pub Ended : Datetime → World → Type 0
Ended now w =
    Mirrors w
    × (held (availability_topic w.publisher.settings.base_topic) w.network.sent
        ≡ some (service_payload w.publisher.settings w.publisher.session_id false 2 now))

leave-Ended :
    (now : Datetime) (w : World) → IsHealthy w → Mirrors w → Ended now (leave now (ok true) w)
unfolding leave publish_service unsubscribe delivered
leave-Ended now w h a =
    let v : World = record w { events = unsubscribe w.number w.events } in
    let hv : IsHealthy v = record { live = h.live; keyed = h.keyed } in
    let m = service_message v.publisher false 2 now in
    subst (λ (x : Result (Unit {0}) × World). Ended now x.1) (sym (client_publish-live m v h.live))
      (said_last m v refl hv (record { state = a.state }), service_held m m.topic v refl refl)

connected_run-Ended :
    (a : Pass) (w : World)
    → IsHealthy w
    → All IsOrderly a.turns
    → (connected_run a w).0 ≡ ok true
    → Ended a.ends (connected_run a w).1
unfolding connected_run enter subscribe
connected_run-Ended a w h o e = begun a.connects e
  where
    finished :
        (r : Result Bool) (v : World) → Outcome r v → r ≡ ok true → Ended a.ends (leave a.ends r v)
    finished (ok true) v out d = leave-Ended a.ends v out.healthy (out.mirrors refl)
    finished (ok false) v out d = absurd (cc)
    finished (err x) v out d = absurd (cc)

    begun :
        (since : Option ℕ)
        → (let x : Result Bool × World = elim since [
          | none ↦ (err (foreign_error "MqttError"), w)
          | some now ↦
              (let (r, w') = greet a.begins a.turns (enter now (set_will a.begins w)) in
                (r, leave a.ends r w'))
        ] in
            x.0 ≡ ok true → Ended a.ends x.1)
    begun none d = absurd (cc)
    begun (some now) d =
        let v = enter now (set_will a.begins w) in
        let out = greet-Outcome a.begins a.turns v (record { live = h.live; keyed = h.keyed }) o in
        finished (greet a.begins a.turns v).0 (greet a.begins a.turns v).1 out d

-- A session whose network takes every message, and that ends by the shutdown of the service, leaves
-- the broker with what the bus retains: of each device, kind and probe, the payload of the retained
-- event under its topic; and the service's own topic with the payload that it is unavailable. This
-- holds whatever came through the publisher's queue or was lost from it, and whatever was said
-- before, if the bus kept addressed events and the other tasks publish such, or administrative ones.
pub connected_run_mirrors :
    (a : Pass) (w : World) (k : EventKey) (e : TelemetryEvent)
    → IsHealthy w
    → All IsOrderly a.turns
    → (connected_run a w).0 ≡ ok true
    → lookup k (connected_run a w).1.events.latest ≡ some e
    → (e.type == service_availability) ≡ false
    → (let after = (connected_run a w).1 in
        let settings = after.publisher.settings in
        ((topic : String) × (topic_for settings.base_topic e ≡ ok topic)
          × (held topic after.network.sent ≡ some (mqtt_payload e)))
        × (held (availability_topic settings.base_topic) after.network.sent
            ≡ some (service_payload settings after.publisher.session_id false 2 a.ends)))
connected_run_mirrors a w k e h o r l n =
    let (mirrors, own) = connected_run-Ended a w h o r in (mirrors.state k e l n, own)
