-- ===== src/Mqtt/Mirror/Broker.antt =====
-- What a broker keeps of the messages of src/pitblu_core/mqtt.py, and that the publisher's pass over
-- the retained events brings it up to date.
use text.Mathlib.TextLemmas.{append_cancel_left}
use Prim.Native.String.{◌++◌ as ◌⧺◌}
use pitblu_core.Prelude.{
  ==-refl, ==_iff, All, Bool, Bool-cases, Dict, List, Option, String, [], ap, arith, false,
  if◌then◌else◌, inl, inr, lookup, none, refl, some, string_eq, subst, sym, true, values, ◌&&◌,
  ◌++◌, ◌==◌, ◌∙◌, ◌∷◌, ◌≡◌, ◌≢◌,
}
use pitblu_core.Events.{EventKey, TelemetryEvent, key_eq, key_of, service_availability, type_eq}
use pitblu_core.Events.Retained.{is_state}
use pitblu_core.Mqtt.{Fields, MqttSettings, mqtt_payload, retained, strip}
use pitblu_core.Mqtt.Publisher.{Sent, message_of}
use pitblu_core.Mqtt.Topics.{address-injective}
use pitblu_core.Mqtt.Addresses.{IsAddressed, address_of}

-- The payload that a broker holds for a topic: that of the last message that is to be retained.
unfoldable pub held : String → List Sent → Option Fields
held topic [] = none
held topic (m ∷ ms) = elim (held topic ms) [
  | some payload ↦ some payload
  | none ↦ if m.retain && m.topic == topic then some m.payload else none
]

abbrev pub first_of : Option Fields → Option Fields → Option Fields
first_of none b = b
first_of (some a) b = some a

pub held-append :
    (topic : String) (ms ns : List Sent)
    → held topic (ms ++ ns) ≡ first_of (held topic ns) (held topic ms)
unfolding held
held-append topic [] ns = ground arith
held-append topic (m ∷ ms) ns = ground (arith, held-append topic ms ns)

unfoldable pub topic_of : String → TelemetryEvent → String
topic_of base e = strip base ⧺ address_of e

-- What the bus retains: addressed state events, each under its key, and one for a key.
abbrev pub IsKeyed : Dict EventKey TelemetryEvent → Type 0
IsKeyed [] = Unit
IsKeyed ((k, e) ∷ d) =
    (key_of e ≡ k) × IsAddressed e × (is_state e ≡ true) × All (λ x. x.0 ≢ k) d × IsKeyed d

module _ (settings : MqttSettings) where
  -- The messages of a pass over the events
  abbrev pub state_messages : List TelemetryEvent → List Sent
  state_messages [] = []
  state_messages (e ∷ es) =
      if e.type == service_availability
      then state_messages es
      else message_of settings e (topic_of settings.base_topic e) ∷ state_messages es

topic_of-injective :
    (base : String) (e f : TelemetryEvent)
    → IsAddressed e
    → IsAddressed f
    → topic_of base e ≡ topic_of base f
    → key_of e ≡ key_of f
unfolding topic_of
topic_of-injective base e f h g same =
    let (k, d, p) = address-injective h g (append_cancel_left (strip base) _ _ same) in
    λ i. record { device = d i; kind = k i; probe = p i }

held-others :
    (settings : MqttSettings) (e : TelemetryEvent) (d : Dict EventKey TelemetryEvent)
    → IsAddressed e
    → IsKeyed d
    → All (λ x. x.0 ≢ key_of e) d
    → held (topic_of settings.base_topic e) (state_messages settings (values d)) ≡ none
unfolding held values
held-others settings e [] h g a = refl
held-others settings e ((k, f) ∷ d) h (kf, hf, sf, df, g) (a, others) =
    let rest = held-others settings e d h g others in
    let apart = λ (same : topic_of settings.base_topic f ≡ topic_of settings.base_topic e).
      a (sym kf ∙ topic_of-injective settings.base_topic f e hf h same) in
    ground
      (arith, rest, apart, ==_iff (topic_of settings.base_topic f) (topic_of settings.base_topic e))

retained_state-kind : (e : TelemetryEvent) → is_state e ≡ true → retained e.type ≡ true
unfolding retained
retained_state-kind e h = ground arith

-- An event that the bus retains, found under a key
pub record IsRetained (k : EventKey) (e : TelemetryEvent) : Type 0 where
  pub own_key : key_of e ≡ k
  pub addressed : IsAddressed e
  pub state : is_state e ≡ true

found :
    (b : Bool) (k : EventKey) (e f : TelemetryEvent) (rest : Option TelemetryEvent)
    → b ≡ true
    → (if b then some f else rest) ≡ some e
    → f ≡ e
found b k e f rest h g = ground (arith, h, g)

pub lookup-IsKeyed :
    (k : EventKey) (e : TelemetryEvent) (d : Dict EventKey TelemetryEvent)
    → IsKeyed d
    → lookup k d ≡ some e
    → IsRetained k e
unfolding lookup
lookup-IsKeyed k e [] g l = absurd (cc)
lookup-IsKeyed k e ((j, f) ∷ d) (kf, hf, sf, df, g) l = elim (Bool-cases (j == k)) [
  | inl same ↦
      (let here : f ≡ e = found (j == k) k e f (lookup k d) same l in
        record {
          own_key = ap key_of (sym here) ∙ kf ∙ (==_iff j k).0 same;
          addressed = subst IsAddressed here hf;
          state = ap is_state (sym here) ∙ sf;
        })
  | inr other ↦ lookup-IsKeyed k e d g (ground (arith, other, l))
]

-- Behind a pass over what the bus retains, the broker holds the payload of each event found there.
pub held-own :
    (settings : MqttSettings) (k : EventKey) (e : TelemetryEvent) (d : Dict EventKey TelemetryEvent)
    → IsKeyed d
    → lookup k d ≡ some e
    → (e.type == service_availability) ≡ false
    → held (topic_of settings.base_topic e) (state_messages settings (values d))
      ≡ some (mqtt_payload e)
unfolding held values lookup
held-own settings k e [] g l n = absurd (cc)
held-own settings k e ((j, f) ∷ d) (kf, hf, sf, df, g) l n = elim (Bool-cases (j == k)) [
  | inl same ↦
      (let here : f ≡ e = found (j == k) k e f (lookup k d) same l in
        let unheld =
          held-others settings f d hf g (subst (λ i. All (λ x. x.0 ≢ i) d) (sym kf) df) in
        subst
          (λ t.
            held (topic_of settings.base_topic t) (state_messages settings (f ∷ values d))
            ≡ some (mqtt_payload t))
          here
          (ground (
            arith,
            unheld,
            retained_state-kind f sf,
            ap (λ (t : TelemetryEvent). t.type == service_availability) here,
            n,
            ==-refl (topic_of settings.base_topic f),
          )))
  | inr other ↦
      (let rest = held-own settings k e d g (ground (arith, other, l)) n in ground (arith, rest))
]
