-- ===== src/Mqtt/Session.antt =====
-- A session of the publisher, `_connected_run` of src/pitblu_core/mqtt.py.
use pitblu_core.Prelude.{
  Bool, Exec, List, Option, Result, String, [], err, false, foreign_error, if◌then◌else◌, nat_eq,
  none, not, ok, pure, raise, some, string_eq, true, ℕ, ◌&&◌, ◌==◌, ◌>>=◌, ◌>>◌, ◌∷◌,
}
use pitblu_core.Models.{Datetime}
use pitblu_core.Events.{
  EventBus, Payload, Subscriber, TelemetryEvent, availability, battery_level, configuration_version,
  connection_state, forget_device, heartbeat_state, operation_state, probe_state, publish,
  service_availability, subscribe, temperature, type_eq, unsubscribe,
}
use pitblu_core.Mqtt.Publisher.{
  World, publish_event, publish_retained, publish_service, publish_states, service_message,
}

pub data Turn : Type 0 where
  -- another task publishes, or forgets a device
  published : TelemetryEvent → Turn
  forgotten : String → Turn
  -- `queue.get` returns
  received : Turn
  -- the heartbeat's time passes with nothing in the queue
  heartbeat_passed : Datetime → Turn
  -- the task is cancelled
  cancelled : Turn

-- `queue.get_nowait()`: the oldest event of the publisher's queue
unfoldable pub pop : ℕ → List Subscriber → Option TelemetryEvent × List Subscriber
pop number [] = (none, [])
pop number (s ∷ rest) =
    let (found, others) = pop number rest in
    if s.id == number
    then elim s.queue [
      | [] ↦ (none, s ∷ rest)
      | event ∷ queue ↦ (some event, record s { queue = queue } ∷ rest)
    ]
    else (found, s ∷ others)

unfoldable pub get_event : Exec World (Option TelemetryEvent)
unfolding pop
get_event w =
    let (event, subscribers) = pop w.number w.events.subscribers in
    (ok event, record w { events = record w.events { subscribers = subscribers } })

-- `event.data.get("available") is False`
abbrev pub says_unavailable : Payload → Bool
says_unavailable (availability available reason) = not available
says_unavailable (battery_level available percent reason) = not available
says_unavailable (probe_state available present reason) = not available
says_unavailable (temperature t) = false
says_unavailable (connection_state state) = false
says_unavailable (heartbeat_state state last fresh threshold) = false
says_unavailable (operation_state id kind state error) = false
says_unavailable (configuration_version version settings) = false

abbrev pub is_shutdown : TelemetryEvent → Bool
is_shutdown event = event.type == service_availability && says_unavailable event.payload

-- What is done with an event, and whether the session ends; with none, the wait goes on.
abbrev pub handle : Option TelemetryEvent → Exec World Bool
handle none = pure false
handle (some event) =
    if is_shutdown event then publish_retained >> pure true else publish_event event >> pure false

-- What another task does while the publisher waits
abbrev pub on_bus : (EventBus → EventBus) → Exec World Bool
on_bus act w = (ok false, record w { events = act w.events })

unfoldable pub turn : Turn → Exec World Bool
unfolding publish_event publish_states get_event publish_service
turn (published event) = on_bus (publish event)
turn (forgotten device) = on_bus (forget_device device)
turn received = get_event >>= handle
turn (heartbeat_passed now) = publish_service true 1 now >> pure false
turn cancelled = raise (foreign_error "CancelledError")

-- `while True: …` of a session: whether it ended, or the turns did
unfoldable pub serve : List Turn → Exec World Bool
unfolding turn
serve [] = pure false
serve (t ∷ turns) = turn t >>= λ ended. if ended then pure true else serve turns

-- One attempt of the loop of `run`, by what the outside makes of it
pub record Pass : Type 0 where
  -- the clock when the client is connected, if it is
  pub connects : Option ℕ
  pub turns : List Turn
  -- what `utc_now` returns for the will, at the start of the session, and at its end
  pub begins : Datetime
  pub ends : Datetime
  -- the clock when the failure is handled, and the random number of the delay
  pub failed_at : ℕ
  pub random : ℕ
  pub cancelled_in_sleep : Bool

-- `async with client`, entered at a time of the clock
unfoldable pub enter : ℕ → World → World
enter now w = record w {
  publisher = record w.publisher {
    connected_at = some now;
    state = "connected";
    error_code = none;
    retry_in = none;
  };
  events = subscribe w.number w.events;
}

abbrev pub set_will : Datetime → World → World
set_will now w = record w {
  network = record w.network { will = some (service_message w.publisher false 2 now) };
}

unfoldable pub greet : Datetime → List Turn → Exec World Bool
unfolding publish_service publish_states serve
greet now turns = do publish_service true 1 now; publish_retained; serve turns

-- The two exits around the loop: the queue is discarded, and the service is said to be
-- unavailable, whatever comes of that. A session that goes on is left as it is.
unfoldable pub leave : Datetime → Result Bool → World → World
unfolding publish_service unsubscribe
leave now (ok false) w = w
leave now (ok true) w =
    (publish_service false 2 now (record w { events = unsubscribe w.number w.events })).1
leave now (err e) w =
    (publish_service false 2 now (record w { events = unsubscribe w.number w.events })).1

-- `_connected_run`
unfoldable pub connected_run : Pass → Exec World Bool
unfolding enter greet leave
connected_run a w = elim a.connects [
  | none ↦ (err (foreign_error "MqttError"), w)
  | some now ↦
      (let (r, w') = greet a.begins a.turns (enter now (set_will a.begins w)) in
        (r, leave a.ends r w'))
]
