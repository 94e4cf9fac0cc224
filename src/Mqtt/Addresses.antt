-- ===== src/Mqtt/Addresses.antt =====
-- The part of a topic that names the event (src/pitblu_core/mqtt.py).
use Prim.Native.Char.{code}
use Prim.Native.String.{[] as ε, ◌++◌ as ◌⧺◌, ◌∷◌ as ◌▹◌}
use pitblu_core.Prelude.{
  Bool, Option, String, ap, arith, false, inl, inr, is_some, nat_eq, none, not, ok, refl, some,
  string_eq, true, ℕ, ◌&&◌, ◌==◌, ◌||◌, ◌∙◌, ◌≡◌, ◌≤◌, ◌⊎◌,
}
use pitblu_core.Events.{
  EventType, TelemetryEvent, probe_availability, probe_temperature, service_availability, type_eq,
}
use pitblu_core.Mqtt.{decimal, device_topic, is_slash, leaf, strip, topic_for, topic_part}

unfoldable pub slash_free : String → Bool
slash_free ε = true
slash_free (c ▹ s) = not (is_slash (code c)) && slash_free s

-- The probe kinds of the table's remainder
abbrev pub is_of_probe : EventType → Bool
is_of_probe kind = kind == probe_availability || kind == probe_temperature

abbrev pub has_part : EventType → Bool
has_part kind = is_some (topic_part kind)

-- A device's identifier has no slash, a kind of probe comes with a number of the thermometer's four,
-- and no other kind with a probe.
pub data Addressed : EventType → Option String → Option ℕ → Type 0 where
  of_service : Addressed service_availability none none
  of_device :
      {kind : EventType} (device : String)
      → has_part kind ≡ true
      → slash_free device ≡ true
      → Addressed kind (some device) none
  of_probe :
      {kind : EventType} (device : String) (n : ℕ)
      → is_of_probe kind ≡ true
      → slash_free device ≡ true
      → 1 ≤ n
      → n ≤ 4
      → Addressed kind (some device) (some n)

abbrev pub IsAddressed : TelemetryEvent → Type 0
IsAddressed e = Addressed e.type e.device_id e.probe

abbrev pub text_of : Option String → String
text_of none = ""
text_of (some part) = part

abbrev pub part_of : EventType → String
part_of kind = text_of (topic_part kind)

-- A topic without its base
unfoldable pub address : EventType → Option String → Option ℕ → String
address kind none probe = "/v1/service/availability"
address kind (some device) none = "/v1/devices/" ⧺ (device ⧺ ("/" ⧺ part_of kind))
address kind (some device) (some n) =
    "/v1/devices/" ⧺ (device ⧺ ("/probes/" ⧺ (decimal n ⧺ ("/" ⧺ leaf kind))))

abbrev pub address_of : TelemetryEvent → String
address_of e = address e.type e.device_id e.probe

pub of_probe-cases :
    (kind : EventType)
    → is_of_probe kind ≡ true
    → (kind ≡ probe_availability) ⊎ (kind ≡ probe_temperature)
of_probe-cases kind h = ground arith

of_probe-topic_part : (kind : EventType) → is_of_probe kind ≡ true → topic_part kind ≡ none
unfolding topic_part
of_probe-topic_part kind h = elim (of_probe-cases kind h) [ inl e ↦ rw e refl | inr e ↦ rw e refl ]

some-text_of : (o : Option String) → is_some o ≡ true → o ≡ some (text_of o)
some-text_of none h = absurd (cc)
some-text_of (some part) h = refl

has_part-some : (kind : EventType) → has_part kind ≡ true → topic_part kind ≡ some (part_of kind)
has_part-some kind h = some-text_of (topic_part kind) h

is_service-device :
    (kind : EventType) → has_part kind ≡ true → (kind == service_availability) ≡ false
unfolding topic_part
is_service-device kind h = ground arith

is_service-probe :
    (kind : EventType) → is_of_probe kind ≡ true → (kind == service_availability) ≡ false
is_service-probe kind h = ground arith

pub topic-address :
    (base_topic : String) (e : TelemetryEvent) {kind : EventType} {device : Option String}
    {probe : Option ℕ}
    → Addressed kind device probe
    → e.type ≡ kind
    → e.device_id ≡ device
    → e.probe ≡ probe
    → topic_for base_topic e ≡ ok (strip base_topic ⧺ address kind device probe)
unfolding topic_for device_topic address
topic-address base_topic e of_service k d p = ground arith
topic-address base_topic e {kind} (of_device device h free) k d p =
    ground (arith, is_service-device kind h, has_part-some kind h, ap topic_part k)
topic-address base_topic e {kind} (of_probe device n h free lo hi) k d p =
    ground (arith, is_service-probe kind h, of_probe-topic_part kind h, of_probe-topic_part e.type)
    ∙ ap (λ (t : EventType). ok (strip base_topic ⧺ address t (some device) (some n))) k
