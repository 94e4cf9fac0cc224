-- ===== src/Tests/Bus.antt =====
-- The event bus (src/pitblu_core/events.py).
use pitblu_core.Prelude.{
  List, [], false, inl, lookup, nat_eq, none, option_eq, refl, some, string_eq, true, ℕ, ◌++◌, ◌∷◌,
  ◌≡◌,
}
use pitblu_core.Models.{physical, utc}
use pitblu_core.Events.{
  operation, EventBus, EventType, TelemetryEvent, battery, connection_state, key_eq, key_of,
  publish, publish_all, recent, type_eq,
}
use pitblu_core.Events.Key.{stamp}
use pitblu_core.Events.Retained.{retained_is_last}

abbrev small_bus : EventBus
small_bus = record {
  history_size = 2;
  subscriber_queue_size = 1;
  session_id = "s";
  history = [];
  subscribers = record { id = 1; queue = [] } ∷ [];
  has_persist = true;
  persisted = [];
  latest = [];
  streams_closed = false;
}

abbrev event : EventType → ℕ → TelemetryEvent
event kind sequence = record {
  session_id = "";
  type = kind;
  observed_at = utc 5;
  sequence = sequence;
  source = physical;
  device_id = some "grill";
  probe = none;
  payload = connection_state "polling";
}

abbrev three_events : List TelemetryEvent
three_events = event battery 1 ∷ event operation 1 ∷ event battery 2 ∷ []

newest_two :
    recent (publish_all three_events small_bus)
    ≡ stamp "s" (event operation 1) ∷ stamp "s" (event battery 2) ∷ []
unfolding recent publish_all publish
newest_two = refl

retained_is_last_example :
    lookup
      (key_of (event battery 1))
      (publish_all ([] ++ event battery 1 ∷ event operation 1 ∷ []) small_bus).latest
    ≡ some (stamp "s" (event battery 1))
retained_is_last_example =
    retained_is_last [] (event operation 1 ∷ []) (event battery 1) small_bus refl (inl refl, tt)
