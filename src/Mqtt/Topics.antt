-- ===== src/Mqtt/Topics.antt =====
-- The topics of src/pitblu_core/mqtt.py tell the events' keys apart.
use Prim.Native.Char.{Char, code}
use mathlib.Core.Path.{ap₂}
use text.Mathlib.TextEquality.{Char-path, eq_iff}
use text.Mathlib.TextLemmas.{append_assoc, append_cancel_left, append_inj, cons-append, nil-append}
use Prim.Native.String.{[] as ε, ◌++◌ as ◌⧺◌, ◌∷◌ as ◌▹◌}
use pitblu_core.Prelude.{
  Option, String, ap, arith, if◌then◌else◌, inl, inr, nat_eq, ok, ok-injective, refl, some,
  string_eq, suc, sym, true, zero, ℕ, ◌&&◌, ◌-◌, ◌==◌, ◌∙◌, ◌≡◌, ◌≢◌, ◌≤◌,
}
use pitblu_core.Events.{
  operation, EventType, TelemetryEvent, battery, configuration, device_availability,
  device_connection, key_of, probe_availability, probe_temperature, service_availability,
  thermometer_heartbeat, type_eq,
}
use pitblu_core.Mqtt.{decimal, leaf, strip, topic_for, topic_part}
use pitblu_core.Mqtt.Addresses.{
  Addressed, IsAddressed, address, address_of, has_part, is_of_probe, of_device, of_probe,
  of_probe-cases, of_service, part_of, slash_free, topic-address,
}

head_code : String → ℕ
head_code ε = 0
head_code (c ▹ s) = code c

rest_of : String → String
rest_of ε = ε
rest_of (c ▹ s) = s

slash_apart : (c : Char) (s r t : String) → slash_free (c ▹ s) ≡ true → "/" ⧺ r ≢ (c ▹ s) ⧺ t
unfolding head_code slash_free
slash_apart c s r t h e =
    let same : code c ≡ 47 = ap head_code (sym (cons-append c s t) ∙ sym e ∙ cons-append _ "" r) in
    ground (arith, h, same)

-- A text without a slash in front of a slash is found again.
split_apart :
    (s t r u : String)
    → slash_free s ≡ true
    → slash_free t ≡ true
    → s ⧺ ("/" ⧺ r) ≡ t ⧺ ("/" ⧺ u)
    → (s ≡ t) × (r ≡ u)
unfolding rest_of head_code slash_free
split_apart ε ε r u h k e =
    (refl, append_cancel_left "/" r u (sym (nil-append _) ∙ e ∙ nil-append _))
split_apart ε (c ▹ t) r u h k e = absurd (slash_apart c t r ("/" ⧺ u) k (sym (nil-append _) ∙ e))
split_apart (c ▹ s) ε r u h k e =
    absurd (slash_apart c s u ("/" ⧺ r) h (sym (nil-append _) ∙ sym e))
split_apart (c ▹ s) (d ▹ t) r u h k e =
    let e' = sym (cons-append c s _) ∙ e ∙ cons-append d t _ in
    let (p, q) = split_apart s t r u (ground arith) (ground arith) (ap rest_of e') in
    (ap₂ ◌▹◌ (Char-path c d (ap head_code e')) p, q)

kind_of_part : String → EventType
kind_of_part part =
    if part == "availability"
    then device_availability
    else if part == "connection"
    then device_connection
    else if part == "heartbeat"
    then thermometer_heartbeat
    else battery

kind_of_part-lem :
    (kind : EventType)
    → has_part kind ≡ true
    → (kind_of_part (part_of kind) ≡ kind) × (slash_free (part_of kind) ≡ true)
unfolding topic_part kind_of_part slash_free
kind_of_part-lem device_availability h = (refl, refl)
kind_of_part-lem device_connection h = (refl, refl)
kind_of_part-lem thermometer_heartbeat h = (refl, refl)
kind_of_part-lem battery h = (refl, refl)
kind_of_part-lem service_availability h = absurd (cc)
kind_of_part-lem probe_availability h = absurd (cc)
kind_of_part-lem probe_temperature h = absurd (cc)
kind_of_part-lem operation h = absurd (cc)
kind_of_part-lem configuration h = absurd (cc)

slash_free-append : (s t : String) → slash_free (s ⧺ t) ≡ (slash_free s && slash_free t)
unfolding slash_free
slash_free-append ε t = ap slash_free (nil-append t)
slash_free-append (c ▹ s) t =
    ap slash_free (cons-append c s t) ∙ ground (arith, slash_free-append s t)

kind_of_leaf : String → EventType
kind_of_leaf s = if s == "availability" then probe_availability else probe_temperature

kind_of_leaf-lem : (kind : EventType) → is_of_probe kind ≡ true → kind_of_leaf (leaf kind) ≡ kind
unfolding kind_of_leaf
kind_of_leaf-lem kind h = elim (of_probe-cases kind h) [ inl e ↦ rw e refl | inr e ↦ rw e refl ]

digit_value : String → ℕ
digit_value s = head_code s - 48

-- The four probes' numbers, in figures
decimal_lem :
    (n : ℕ) → 1 ≤ n → n ≤ 4 → (digit_value (decimal n) ≡ n) × (slash_free (decimal n) ≡ true)
unfolding digit_value decimal slash_free head_code
decimal_lem zero h k = absurd (omega arith)
decimal_lem (suc zero) h k = (refl, refl)
decimal_lem (suc (suc zero)) h k = (refl, refl)
decimal_lem (suc (suc (suc zero))) h k = (refl, refl)
decimal_lem (suc (suc (suc (suc zero)))) h k = (refl, refl)
decimal_lem (suc (suc (suc (suc (suc n))))) h k = absurd (omega arith)

part-injective :
    (k l : EventType) → has_part k ≡ true → has_part l ≡ true → part_of k ≡ part_of l → k ≡ l
part-injective k l h g e =
    sym (kind_of_part-lem k h).0 ∙ ap kind_of_part e ∙ (kind_of_part-lem l g).0

-- What comes behind a device, for a kind of its own and for one of a probe
part-ne-probes :
    (kind : EventType) (t : String) → has_part kind ≡ true → part_of kind ≢ "probes" ⧺ ("/" ⧺ t)
unfolding slash_free
part-ne-probes kind t h e =
    let a = (kind_of_part-lem kind h).1 in
    let b = ap slash_free e ∙ slash_free-append "probes" ("/" ⧺ t) in
    let c = slash_free-append "/" t in ground (arith, a, b, c)

probes-injective :
    (k l : EventType) (m n : ℕ)
    → is_of_probe k ≡ true
    → is_of_probe l ≡ true
    → 1 ≤ m
    → m ≤ 4
    → 1 ≤ n
    → n ≤ 4
    → "probes" ⧺ ("/" ⧺ (decimal m ⧺ ("/" ⧺ leaf k)))
      ≡ "probes" ⧺ ("/" ⧺ (decimal n ⧺ ("/" ⧺ leaf l)))
    → (k ≡ l) × (m ≡ n)
probes-injective k l m n h g a b c d e =
    let (v, p) = decimal_lem m a b in
    let (w, q) = decimal_lem n c d in
    let (x, y) =
      split_apart (decimal m) (decimal n) (leaf k) (leaf l) p q
        (append_cancel_left "/" _ _ (append_cancel_left "probes" _ _ e)) in
    (
      sym (kind_of_leaf-lem k h) ∙ ap kind_of_leaf y ∙ kind_of_leaf-lem l g,
      sym v ∙ ap digit_value x ∙ w,
    )

slashes : (t : String) → "/probes/" ⧺ t ≡ "/" ⧺ ("probes" ⧺ ("/" ⧺ t))
slashes t = append_assoc "/probes" "/" t ∙ append_assoc "/" "probes" ("/" ⧺ t)

service-ne-device : (t : String) → "/v1/service/availability" ≢ "/v1/devices/" ⧺ t
service-ne-device t e =
    let (p, q) =
      append_inj {s₁ = "/v1/service/"} {s₂ = "/v1/devices/"} {t₁ = "availability"} e refl in
    ground (arith, p, eq_iff "/v1/service/" "/v1/devices/")

pub address-injective :
    {k l : EventType} {d f : Option String} {p q : Option ℕ}
    → Addressed k d p
    → Addressed l f q
    → address k d p ≡ address l f q
    → (k ≡ l) × (d ≡ f) × (p ≡ q)
unfolding address
address-injective of_service of_service e = (refl, refl, refl)
address-injective of_service (of_device device h free) e = absurd (service-ne-device _ e)
address-injective of_service (of_probe device n h free lo hi) e = absurd (service-ne-device _ e)
address-injective (of_device device h free) of_service e = absurd (service-ne-device _ (sym e))
address-injective (of_probe device n h free lo hi) of_service e =
    absurd (service-ne-device _ (sym e))
address-injective {k} {l} (of_device device h free) (of_device other g clear) e =
    let (x, y) =
      split_apart device other _ _ free clear (append_cancel_left "/v1/devices/" _ _ e) in
    (part-injective k l h g y, ap some x, refl)
address-injective {k} (of_device device h free) (of_probe other n g clear lo hi) e =
    let (x, y) =
      split_apart device other _ _ free clear
        (append_cancel_left "/v1/devices/" _ _ e ∙ ap (λ (t : String). other ⧺ t) (slashes _)) in
    absurd (part-ne-probes k _ h y)
address-injective {l = l} (of_probe device n h free lo hi) (of_device other g clear) e =
    let (x, y) = split_apart device other _ _ free clear (
      ap (λ (t : String). device ⧺ t) (sym (slashes _))
      ∙ append_cancel_left "/v1/devices/" _ _ e) in
    absurd (part-ne-probes l _ g (sym y))
address-injective {k} {l} (of_probe device m h free a b) (of_probe other n g clear c d) e =
    let (x, y) = split_apart device other _ _ free clear (
      ap (λ (t : String). device ⧺ t) (sym (slashes _))
      ∙ append_cancel_left "/v1/devices/" _ _ e
      ∙ ap (λ (t : String). other ⧺ t) (slashes _)) in
    let (u, v) = probes-injective k l m n h g a b c d y in (u, ap some x, ap some v)

-- An event that is addressed as the telemetry addresses its events has a topic, which no event of
-- another device, kind or probe shares: two such events with equal topics under one base topic have
-- equal keys.
pub topic_for-injective :
    (base_topic : String) (e f : TelemetryEvent)
    → IsAddressed e
    → IsAddressed f
    → topic_for base_topic e ≡ topic_for base_topic f
    → ((t : String) × (topic_for base_topic e ≡ ok t)) × (key_of e ≡ key_of f)
topic_for-injective base_topic e f h g same =
    let there = topic-address base_topic e h refl refl refl in
    let other = topic-address base_topic f g refl refl refl in
    let (k, d, p) =
      address-injective h g
        (append_cancel_left (strip base_topic) _ _ (ok-injective (sym there ∙ same ∙ other))) in
    (
      (strip base_topic ⧺ address_of e, there),
      λ i. record { device = d i; kind = k i; probe = p i },
    )
