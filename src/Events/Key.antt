-- ===== src/Events/Key.antt =====
-- What `publish` of src/pitblu_core/events.py leaves alone, field by field.
use pitblu_core.Prelude.{String, arith, map, refl, ◌≡◌}
use pitblu_core.Events.{EventBus, TelemetryEvent, append_bounded, keep_event, offer, publish}

-- The event as a bus of the session sends it.
abbrev pub stamp : String → TelemetryEvent → TelemetryEvent
stamp session e = record e { session_id = session }

pub record SameSettings (b c : EventBus) : Type 0 where
  pub history_size : c.history_size ≡ b.history_size
  pub queue_size : c.subscriber_queue_size ≡ b.subscriber_queue_size
  pub session : c.session_id ≡ b.session_id
  pub persist : c.has_persist ≡ b.has_persist

pub publish-SameSettings : (e : TelemetryEvent) (b : EventBus) → SameSettings b (publish e b)
unfolding publish
publish-SameSettings e b = ground arith

pub history-publish :
    (e : TelemetryEvent) (b : EventBus)
    → (publish e b).history ≡ append_bounded b.history_size (stamp b.session_id e) b.history
unfolding publish
history-publish e b = refl

pub subscribers-publish :
    (e : TelemetryEvent) (b : EventBus)
    → (publish e b).subscribers
      ≡ map (offer b.subscriber_queue_size (stamp b.session_id e)) b.subscribers
unfolding publish
subscribers-publish e b = refl

pub latest-publish :
    (e : TelemetryEvent) (b : EventBus)
    → (publish e b).latest ≡ (keep_event (stamp b.session_id e) b).latest
unfolding publish
latest-publish e b = refl

pub persisted-publish :
    (e : TelemetryEvent) (b : EventBus)
    → (publish e b).persisted ≡ (keep_event (stamp b.session_id e) b).persisted
unfolding publish
persisted-publish e b = refl

pub ruleset publish_laws = (history-publish, subscribers-publish, latest-publish, persisted-publish)
