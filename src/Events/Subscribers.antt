-- ===== src/Events/Subscribers.antt =====
-- What a subscriber's queue holds (src/pitblu_core/events.py).
use mathlib.Core.List.{append-nil, append_assoc}
use mathlib.Core.Path.{ap₂}
use pitblu_core.Prelude.{
  All, List, String, [], ap, arith, drop, if◌then◌else◌, leb, length, map, refl, subst, sym,
  take_last, ℕ, ◌++◌, ◌∙◌, ◌∷◌, ◌≡◌, ◌≤◌,
}
use pitblu_core.Events.{
  EventBus, Subscriber, TelemetryEvent, append_bounded, offer, publish, publish_all,
}
use pitblu_core.Events.Key.{publish-SameSettings, stamp, subscribers-publish}
use pitblu_core.Events.History.{
  append_bounded_lem, length-take_last-le, take_last-take_last, take_last_all,
}

-- A subscriber that has read nothing while the events came.
abbrev pub fill : ℕ → List TelemetryEvent → Subscriber → Subscriber
fill n es s = record s { queue = take_last n (s.queue ++ es) }

abbrev pub Fits : ℕ → List Subscriber → Type 0
Fits n ss = All (λ s. length s.queue ≤ n) ss

offer-fill :
    (n : ℕ) (e : TelemetryEvent) (s : Subscriber)
    → 1 ≤ n
    → length s.queue ≤ n
    → offer n e s ≡ fill n (e ∷ []) s
unfolding offer append_bounded
offer-fill n e s h k =
    ap (λ (q : List TelemetryEvent). record s { queue = q })
      {x = (if leb n (length s.queue) then drop 1 s.queue else s.queue) ++ e ∷ []}
      (ground arith ∙ append_bounded_lem n e s.queue h k)

map-offer :
    (n : ℕ) (e : TelemetryEvent) (ss : List Subscriber)
    → 1 ≤ n
    → Fits n ss
    → map (offer n e) ss ≡ map (fill n (e ∷ [])) ss
map-offer n e [] h k = refl
map-offer n e (s ∷ ss) h k = ap₂ ◌∷◌ (offer-fill n e s h k.0) (map-offer n e ss h k.1)

map-fill_nil : (n : ℕ) (ss : List Subscriber) → Fits n ss → map (fill n []) ss ≡ ss
map-fill_nil n [] k = refl
map-fill_nil n (s ∷ ss) k =
    ap₂ ◌∷◌
      (ap (λ (q : List TelemetryEvent). record s { queue = q })
        (ap (take_last n) (append-nil s.queue) ∙ take_last_all n s.queue k.0))
      (map-fill_nil n ss k.1)

map-fill-fill :
    (n : ℕ) (es fs : List TelemetryEvent) (ss : List Subscriber)
    → map (fill n fs) (map (fill n es) ss) ≡ map (fill n (es ++ fs)) ss
map-fill-fill n es fs [] = refl
map-fill-fill n es fs (s ∷ ss) =
    ap₂ ◌∷◌
      (ap (λ (q : List TelemetryEvent). record s { queue = q })
        (take_last-take_last n (s.queue ++ es) fs ∙ ap (take_last n) (append_assoc s.queue es fs)))
      (map-fill-fill n es fs ss)

Fits-fill : (n : ℕ) (es : List TelemetryEvent) (ss : List Subscriber) → Fits n (map (fill n es) ss)
Fits-fill n es [] = tt
Fits-fill n es (s ∷ ss) = (length-take_last-le n (s.queue ++ es), Fits-fill n es ss)

subscribers_after :
    (e : TelemetryEvent) (b : EventBus) (n : ℕ) (session : String)
    → b.subscriber_queue_size ≡ n
    → b.session_id ≡ session
    → 1 ≤ n
    → Fits n b.subscribers
    → (publish e b).subscribers ≡ map (fill n (stamp session e ∷ [])) b.subscribers
subscribers_after e b n session p q h k =
    subscribers-publish e b
    ∙ (λ i. map (offer (p i) (stamp (q i) e)) b.subscribers)
    ∙ map-offer n (stamp session e) b.subscribers h k

fill_all :
    (es : List TelemetryEvent) (b : EventBus) (n : ℕ) (session : String)
    → b.subscriber_queue_size ≡ n
    → b.session_id ≡ session
    → 1 ≤ n
    → Fits n b.subscribers
    → (publish_all es b).subscribers ≡ map (fill n (map (stamp session) es)) b.subscribers
unfolding publish_all
fill_all [] b n session p q h k = sym (map-fill_nil n b.subscribers k)
fill_all (e ∷ es) b n session p q h k =
    let same = publish-SameSettings e b in
    let after = subscribers_after e b n session p q h k in
    fill_all es (publish e b) n session (same.queue_size ∙ p) (same.session ∙ q) h
      (subst (Fits n) (sym after) (Fits-fill n (stamp session e ∷ []) b.subscribers))
    ∙ ap (map (fill n (map (stamp session) es))) after
    ∙ map-fill-fill n (stamp session e ∷ []) (map (stamp session) es) b.subscribers

-- After any events the queue of each subscriber, who has read nothing meanwhile, holds the last
-- `subscriber_queue_size` of what it held and what was published, in order: a slow reader loses the
-- oldest events, and no other reader loses one by it. The queues had room for one event and held no
-- more than their size.
pub subscribers-publish_all :
    (es : List TelemetryEvent) (b : EventBus)
    → 1 ≤ b.subscriber_queue_size
    → Fits b.subscriber_queue_size b.subscribers
    → (publish_all es b).subscribers
      ≡ map (fill b.subscriber_queue_size (map (stamp b.session_id) es)) b.subscribers
subscribers-publish_all es b h k = fill_all es b b.subscriber_queue_size b.session_id refl refl h k
