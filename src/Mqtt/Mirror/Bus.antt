-- ===== src/Mqtt/Mirror/Bus.antt =====
-- The bus of src/pitblu_core/events.py keeps one addressed state event for a key.
use pitblu_core.Prelude.{
  ==_iff, All, Bool, Bool-cases, Dict, String, [], arith, if◌then◌else◌, inl, inr, insert, refl,
  restrict, sym, true, ◌==◌, ◌∷◌, ◌≡◌, ◌≢◌, ◌⊎◌,
}
use pitblu_core.Events.{
  EventBus, EventKey, TelemetryEvent, forget_device, is_administrative, keep_event, key_eq, key_of,
  publish, type_eq,
}
use pitblu_core.Events.Key.{latest-publish, stamp}
use pitblu_core.Events.Retained.{is_state}
use pitblu_core.Mqtt.Addresses.{IsAddressed, address}
use pitblu_core.Mqtt.Mirror.Broker.{IsKeyed}

keys-insert :
    (k j : EventKey) (e : TelemetryEvent) (d : Dict EventKey TelemetryEvent)
    → k ≢ j
    → All (λ x. x.0 ≢ j) d
    → All (λ x. x.0 ≢ j) (insert k e d)
unfolding insert
keys-insert k j e [] h a = (h, tt)
keys-insert k j e ((i, f) ∷ d) h (a, others) = elim (Bool-cases (i == k)) [
  | inl same ↦ rw same (a, others)
  | inr other ↦ rw other (a, keys-insert k j e d h others)
]

pub insert-IsKeyed :
    (e : TelemetryEvent) (d : Dict EventKey TelemetryEvent)
    → IsAddressed e
    → is_state e ≡ true
    → IsKeyed d
    → IsKeyed (insert (key_of e) e d)
unfolding insert
insert-IsKeyed e [] h s g = (refl, h, s, tt, tt)
insert-IsKeyed e ((i, f) ∷ d) h s (kf, hf, sf, df, g) = elim (Bool-cases (i == key_of e)) [
  | inl same ↦ rw same (sym ((==_iff i (key_of e)).0 same), h, s, df, g)
  | inr other ↦ rw other (
    kf,
    hf,
    sf,
    keys-insert (key_of e) i e d (λ same. ground (arith, other, ==_iff i (key_of e), sym same)) df,
    insert-IsKeyed e d h s g,
  )
]

keys-restrict :
    (p : EventKey → Bool) (j : EventKey) (d : Dict EventKey TelemetryEvent)
    → All (λ x. x.0 ≢ j) d
    → All (λ x. x.0 ≢ j) (restrict p d)
unfolding restrict
keys-restrict p j [] a = tt
keys-restrict p j ((i, f) ∷ d) (a, others) = elim (Bool-cases (p i)) [
  | inl kept ↦ rw kept (a, keys-restrict p j d others)
  | inr dropped ↦ rw dropped (keys-restrict p j d others)
]

pub restrict-IsKeyed :
    (p : EventKey → Bool) (d : Dict EventKey TelemetryEvent) → IsKeyed d → IsKeyed (restrict p d)
unfolding restrict
restrict-IsKeyed p [] g = tt
restrict-IsKeyed p ((i, f) ∷ d) (kf, hf, sf, df, g) = elim (Bool-cases (p i)) [
  | inl kept ↦ rw kept (kf, hf, sf, keys-restrict p i d df, restrict-IsKeyed p d g)
  | inr dropped ↦ rw dropped (restrict-IsKeyed p d g)
]

-- An event that the publisher sends or passes over
abbrev pub IsSendable : TelemetryEvent → Type 0
IsSendable e = (is_administrative e.type ≡ true) ⊎ IsAddressed e

latest_after :
    (e : TelemetryEvent) (b : EventBus)
    → (publish e b).latest
      ≡ (if is_state e then insert (key_of e) (stamp b.session_id e) b.latest else b.latest)
latest_after e b = rw (latest-publish e b) (unfold keep_event in ground arith)

pub publish-IsKeyed :
    (e : TelemetryEvent) (b : EventBus)
    → IsSendable e
    → IsKeyed b.latest
    → IsKeyed (publish e b).latest
publish-IsKeyed e b h g = elim (Bool-cases (is_state e)) [
  | inl s ↦ elim h [
    | inl a ↦ absurd (ground (arith, s, a))
    | inr address ↦
        rw (latest_after e b, s) (insert-IsKeyed (stamp b.session_id e) b.latest address s g)
  ]
  | inr s ↦ rw (latest_after e b, s) g
]

pub forget_device-IsKeyed :
    (device : String) (b : EventBus) → IsKeyed b.latest → IsKeyed (forget_device device b).latest
unfolding forget_device
forget_device-IsKeyed device b g = restrict-IsKeyed _ b.latest g
