-- ===== src/Mqtt/Mirror/Sessions.antt =====
-- A session of the publisher of src/pitblu_core/mqtt.py, from its first message to the shutdown.
use pitblu_core.Prelude.{
  All, Bool, Bool-cases, Dict, Exception, List, Option, Result, String, [], after_result, ap, err,
  false, if◌then◌else◌, inl, inr, lookup, none, ok, option_eq, pure, refl, some, string_eq, subst,
  sym, true, values, ◌==◌, ◌>>=◌, ◌>>◌, ◌∙◌, ◌∷◌, ◌≡◌,
}
use pitblu_core.Models.{Datetime}
use pitblu_core.Events.{
  EventKey, TelemetryEvent, key_eq, retained_state, service_availability, type_eq,
}
use pitblu_core.Mqtt.{Fields, mqtt_payload, topic_for}
use pitblu_core.Mqtt.Publisher.{
  Sent, World, client_publish, publish_event, publish_retained, publish_service, service_message,
}
use pitblu_core.Mqtt.Session.{
  Turn, cancelled, forgotten, get_event, greet, handle, heartbeat_passed, is_shutdown, pop,
  published, received, serve, turn,
}
use pitblu_core.Mqtt.Addresses.{IsAddressed, address, topic-address}
use pitblu_core.Mqtt.Mirror.Broker.{
  IsKeyed, first_of, held, held-append, held-own, lookup-IsKeyed, state_messages, topic_of,
}
use pitblu_core.Mqtt.Mirror.Bus.{IsSendable, forget_device-IsKeyed, publish-IsKeyed}
use pitblu_core.Mqtt.Mirror.Delivery.{
  IsLive, SendsOnly, client_publish-SendsOnly, client_publish-live, delivered,
  publish_event-SendsOnly, publish_states-live,
}

-- For each state that the bus retains, but the service's own, the broker holds its payload under its
-- topic.
pub record Mirrors (w : World) : Type 0 where
  pub state :
      (k : EventKey) (e : TelemetryEvent)
      → lookup k w.events.latest ≡ some e
      → (e.type == service_availability) ≡ false
      → (topic : String) × (topic_for w.publisher.settings.base_topic e ≡ ok topic)
        × (held topic w.network.sent ≡ some (mqtt_payload e))

-- What other tasks publish is sendable.
abbrev pub IsOrderly : Turn → Type 0
IsOrderly (published e) = IsSendable e
IsOrderly _ = Unit

pub record IsHealthy (w : World) : Type 0 where
  pub live : IsLive w
  pub keyed : IsKeyed w.events.latest

SendsOnly-IsHealthy : (w v : World) → SendsOnly w v → IsHealthy w → IsHealthy v
SendsOnly-IsHealthy w v same h = record {
  live = λ k. ap (λ f. f k) same.accepts ∙ h.live k;
  keyed = subst (λ b. IsKeyed b.latest) (sym same.events) h.keyed;
}

values-IsAddressed : (d : Dict EventKey TelemetryEvent) → IsKeyed d → All IsAddressed (values d)
unfolding values
values-IsAddressed [] g = tt
values-IsAddressed ((k, e) ∷ d) (ke, address, s, de, g) = (address, values-IsAddressed d g)

publish_retained-live :
    (w : World)
    → IsHealthy w
    → publish_retained w
      ≡ (ok tt, delivered (state_messages w.publisher.settings (values w.events.latest)) w)
unfolding retained_state
publish_retained-live w h =
    publish_states-live (values w.events.latest) w h.live
      (values-IsAddressed w.events.latest h.keyed)

-- A pass over the retained events makes the broker's view the bus's.
delivered-Mirrors :
    (w : World)
    → IsHealthy w
    → Mirrors (delivered (state_messages w.publisher.settings (values w.events.latest)) w)
unfolding delivered topic_of
delivered-Mirrors w h = record {
  state = λ k e l n.
      let known = lookup-IsKeyed k e w.events.latest h.keyed l in
      (
        topic_of w.publisher.settings.base_topic e,
        topic-address w.publisher.settings.base_topic e known.addressed refl refl refl,
        held-append _ w.network.sent _
            ∙ ap
                (λ (o : Option Fields).
                  first_of o (held (topic_of w.publisher.settings.base_topic e) w.network.sent))
                (held-own w.publisher.settings k e w.events.latest h.keyed l n),
      );
}

-- What a part of a session leaves behind, if it began with a live network and an orderly bus
pub record Outcome (r : Result Bool) (w : World) : Type 0 where
  pub healthy : IsHealthy w
  pub mirrors : r ≡ ok true → Mirrors w

unended : (w : World) → IsHealthy w → Outcome (ok false) w
unended w h = record { healthy = h; mirrors = λ e. absurd (cc) }

raised : (x : Exception) (w : World) → IsHealthy w → Outcome (err x) w
raised x w h = record { healthy = h; mirrors = λ e. absurd (cc) }

-- A message and the wait behind it
sends :
    (r : Result (Unit {0})) (v : World)
    → IsHealthy v
    → (let x = after_result r (λ u. pure false) v in Outcome x.0 x.1)
sends (ok u) v h = unended v h
sends (err x) v h = raised x v h

delivered-IsHealthy : (ms : List Sent) (w : World) → IsHealthy w → IsHealthy (delivered ms w)
unfolding delivered
delivered-IsHealthy ms w h = record { live = h.live; keyed = h.keyed }

-- The last pass, over what is retained at the shutdown
last_pass :
    (w : World) → IsHealthy w → (let x = (publish_retained >> pure true) w in Outcome x.0 x.1)
last_pass w h =
    let ms = state_messages w.publisher.settings (values w.events.latest) in
    let done : Outcome (ok true) (delivered ms w) = record {
      healthy = delivered-IsHealthy ms w h;
      mirrors = λ e. delivered-Mirrors w h;
    } in
    subst
      (λ (x : Result (Unit {0}) × World).
        let y = after_result x.0 (λ u. pure true) x.1 in Outcome y.0 y.1)
      (sym (publish_retained-live w h)) done

handle-Outcome :
    (o : Option TelemetryEvent) (w : World) → IsHealthy w → Outcome (handle o w).0 (handle o w).1
handle-Outcome none w h = unended w h
handle-Outcome (some e) w h = elim (Bool-cases (is_shutdown e)) [
  | inl s ↦ rw s (last_pass w h)
  | inr s ↦ rw s (
      sends (publish_event e w).0 (publish_event e w).1
        (SendsOnly-IsHealthy w (publish_event e w).1 (publish_event-SendsOnly e w) h))
]

turn-Outcome :
    (t : Turn) (w : World) → IsHealthy w → IsOrderly t → Outcome (turn t w).0 (turn t w).1
unfolding turn get_event publish_service
turn-Outcome (published e) w h o =
    unended _ (record { live = h.live; keyed = publish-IsKeyed e w.events o h.keyed })
turn-Outcome (forgotten device) w h o =
    unended _ (record { live = h.live; keyed = forget_device-IsKeyed device w.events h.keyed })
turn-Outcome received w h o =
    handle-Outcome (pop w.number w.events.subscribers).0
      (record w {
        events = record w.events { subscribers = (pop w.number w.events.subscribers).1 };
      })
      (record { live = h.live; keyed = h.keyed })
turn-Outcome (heartbeat_passed now) w h o =
    let m = service_message w.publisher true 1 now in
    sends (client_publish m w).0 (client_publish m w).1
      (SendsOnly-IsHealthy w (client_publish m w).1 (client_publish-SendsOnly m w) h)
turn-Outcome cancelled w h o = raised _ w h

serve-Outcome :
    (turns : List Turn) (w : World)
    → IsHealthy w
    → All IsOrderly turns
    → Outcome (serve turns w).0 (serve turns w).1
unfolding serve
serve-Outcome [] w h o = unended w h
serve-Outcome (t ∷ turns) w h (o, others) =
    goes_on (turn t w).0 (turn t w).1 (turn-Outcome t w h o) (λ v g. serve-Outcome turns v g others)
  where
    goes_on :
        (r : Result Bool) (v : World)
        → Outcome r v
        → ((u : World) → IsHealthy u → Outcome (serve turns u).0 (serve turns u).1)
        → (let x = after_result r (λ ended. if ended then pure true else serve turns) v in
            Outcome x.0 x.1)
    goes_on (ok true) v a next = a
    goes_on (ok false) v a next = next v a.healthy
    goes_on (err x) v a next = raised x v a.healthy

pub greet-Outcome :
    (now : Datetime) (turns : List Turn) (w : World)
    → IsHealthy w
    → All IsOrderly turns
    → Outcome (greet now turns w).0 (greet now turns w).1
unfolding greet publish_service
greet-Outcome now turns w h o =
    let hello = service_message w.publisher true 1 now ∷ [] in
    let w₁ = delivered hello w in
    let h₁ = delivered-IsHealthy hello w h in
    let ms = state_messages w₁.publisher.settings (values w₁.events.latest) in
    subst
      (λ (x : Result (Unit {0}) × World).
        let y = after_result x.0 (λ u. publish_retained >>= λ v. serve turns) x.1 in
        Outcome y.0 y.1)
      (sym (client_publish-live (service_message w.publisher true 1 now) w h.live))
      (subst
        (λ (x : Result (Unit {0}) × World).
          let y = after_result x.0 (λ u. serve turns) x.1 in Outcome y.0 y.1)
        (sym (publish_retained-live w₁ h₁))
        (serve-Outcome turns (delivered ms w₁) (delivered-IsHealthy ms w₁ h₁) o))
