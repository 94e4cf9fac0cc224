-- ===== src/Events/Retained.antt =====
-- What the bus keeps for a client that comes later, and what it stores
-- (src/pitblu_core/events.py).
use mathlib.Core.List.{append-nil, append_assoc}
use pitblu_core.Prelude.{
  ==-refl, ==_iff, All, Bool, Bool-cases, List, String, [], ap, arith, false, if◌then◌else◌, inl,
  inr, keep, lookup, lookup-insert, lookup-restrict, map, none, not, option_eq, refl, some,
  string_eq, sym, true, ◌&&◌, ◌++◌, ◌==◌, ◌∙◌, ◌∷◌, ◌≡◌, ◌≢◌, ◌⊎◌,
}
use pitblu_core.Events.{
  EventBus, EventKey, TelemetryEvent, forget_device, is_administrative, keep_event, key_eq, key_of,
  probe_temperature, publish, publish_all, type_eq,
}
use pitblu_core.Events.Key.{latest-publish, persisted-publish, publish-SameSettings, stamp}

-- The events that describe a state: neither administrative nor a single reading.
abbrev pub is_state : TelemetryEvent → Bool
is_state e = not (is_administrative e.type) && not (e.type == probe_temperature)

lookup-publish :
    (e : TelemetryEvent) (b : EventBus) (k : EventKey)
    → lookup k (publish e b).latest
      ≡ (if is_state e && key_of e == k then some (stamp b.session_id e) else lookup k b.latest)
lookup-publish e b k = rw (latest-publish e b) (
    unfold keep_event in ground (arith, lookup-insert k (key_of e) (stamp b.session_id e) b.latest))

-- No event of the list replaces the retained event of the key.
abbrev pub Spares : EventKey → List TelemetryEvent → Type 0
Spares k es = All (λ e. (is_state e ≡ false) ⊎ (key_of e ≢ k)) es

spared :
    (k : EventKey) (es : List TelemetryEvent) (b : EventBus)
    → Spares k es
    → lookup k (publish_all es b).latest ≡ lookup k b.latest
unfolding publish_all
spared k [] b h = refl
spared k (e ∷ es) b h =
    spared k es (publish e b) h.1 ∙ lookup-publish e b k ∙ ground (arith, h.0, ==_iff (key_of e) k)

publish_all-append :
    (es fs : List TelemetryEvent) (b : EventBus)
    → publish_all (es ++ fs) b ≡ publish_all fs (publish_all es b)
unfolding publish_all
publish_all-append [] fs b = refl
publish_all-append (e ∷ es) fs b = publish_all-append es fs (publish e b)

session-publish_all :
    (es : List TelemetryEvent) (b : EventBus) → (publish_all es b).session_id ≡ b.session_id
unfolding publish_all
session-publish_all [] b = refl
session-publish_all (e ∷ es) b =
    session-publish_all es (publish e b) ∙ (publish-SameSettings e b).session

-- The retained event of a device, a kind and a probe is the last state event published for them,
-- whatever was published before and however many readings, administrative events and events of
-- other keys came after.
pub retained_is_last :
    (before after : List TelemetryEvent) (e : TelemetryEvent) (b : EventBus)
    → is_state e ≡ true
    → Spares (key_of e) after
    → lookup (key_of e) (publish_all (before ++ e ∷ after) b).latest ≡ some (stamp b.session_id e)
unfolding publish_all
retained_is_last before after e b s h =
    ap (λ (c : EventBus). lookup (key_of e) c.latest) (publish_all-append before (e ∷ after) b)
    ∙ spared (key_of e) after (publish e (publish_all before b)) h
    ∙ lookup-publish e (publish_all before b) (key_of e)
    ∙ rw (s, ==-refl (key_of e))
        (ap (λ (n : String). some (stamp n e)) (session-publish_all before b))

-- Forgetting a device removes what is retained for it, and nothing else.
lookup-forget_device :
    (device : String) (b : EventBus) (k : EventKey)
    → lookup k (forget_device device b).latest
      ≡ (if k.device == some device then none else lookup k b.latest)
unfolding forget_device
lookup-forget_device device b k =
    lookup-restrict k (λ j. not (j.device == some device)) b.latest ∙ ground arith

abbrev pub administrative : List TelemetryEvent → List TelemetryEvent
administrative es = keep (λ e. is_administrative e.type) es

persisted_step :
    (e : TelemetryEvent) (b : EventBus)
    → b.has_persist ≡ true
    → (publish e b).persisted ≡ b.persisted ++ administrative (stamp b.session_id e ∷ [])
persisted_step e b h =
    rw (persisted-publish e b) (unfold keep_event in ground (arith, append-nil b.persisted))

administrative_cons :
    (e : TelemetryEvent) (n session : String) (es : List TelemetryEvent)
    → n ≡ session
    → administrative (stamp n e ∷ []) ++ administrative es ≡ administrative (stamp session e ∷ es)
administrative_cons e n session es q = elim (Bool-cases (is_administrative e.type)) [
  | inl a ↦ rw (a, q)
  | inr a ↦ rw a
]

persisted_all :
    (es : List TelemetryEvent) (b : EventBus) (session : String)
    → b.has_persist ≡ true
    → b.session_id ≡ session
    → (publish_all es b).persisted ≡ b.persisted ++ administrative (map (stamp session) es)
unfolding publish_all
persisted_all [] b session h q = sym (append-nil b.persisted)
persisted_all (e ∷ es) b session h q =
    let same = publish-SameSettings e b in
    persisted_all es (publish e b) session (same.persist ∙ h) (same.session ∙ q)
    ∙ ap (λ (l : List TelemetryEvent). l ++ administrative (map (stamp session) es))
        (persisted_step e b h)
    ∙ append_assoc b.persisted (administrative (stamp b.session_id e ∷ []))
        (administrative (map (stamp session) es))
    ∙ ap (λ (l : List TelemetryEvent). b.persisted ++ l)
        (administrative_cons e b.session_id session (map (stamp session) es) q)

-- With persistence, exactly the operation and configuration events are stored, in their order.
persisted-publish_all :
    (es : List TelemetryEvent) (b : EventBus)
    → b.has_persist ≡ true
    → (publish_all es b).persisted ≡ b.persisted ++ administrative (map (stamp b.session_id) es)
persisted-publish_all es b h = persisted_all es b b.session_id h refl
