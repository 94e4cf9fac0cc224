-- ===== src/Events.antt =====
-- src/pitblu_core/events.py: the canonical events and the bus that fans them out. Event identifiers
-- are random and nothing reads them, so they are left out, and the session's identifier is given at
-- construction. The payload is data of its own type in place of a dictionary. `publish` has no
-- point at which another task can run.
pub mod Key
pub mod History
pub mod Retained
pub mod Subscribers
use pitblu_core.Prelude.{
  ==_iff, Bool, Dict, Eq, List, Option, Result, String, [], arith, drop, false, if◌then◌else◌,
  insert, keep, leb, length, ltb, map, min, nat_eq, not, ok, option_eq, reject_if, restrict, some,
  string_eq, true, value_error, values, ℕ, ◌&&◌, ◌++◌, ◌==◌, ◌↔◌, ◌∷◌, ◌≡◌,
}
use pitblu_core.Protocol.{Celsius}
use pitblu_core.Models.{Datetime, TelemetrySource}

pub data EventType : Type 0 where
  service_availability device_availability device_connection thermometer_heartbeat : EventType
  battery probe_availability probe_temperature operation configuration : EventType

abbrev pub type_code : EventType → ℕ
type_code service_availability = 0
type_code device_availability = 1
type_code device_connection = 2
type_code thermometer_heartbeat = 3
type_code battery = 4
type_code probe_availability = 5
type_code probe_temperature = 6
type_code operation = 7
type_code configuration = 8

abbrev pub type_beq : EventType → EventType → Bool
type_beq a b = type_code a == type_code b

pub type_beq_iff : (a b : EventType) → (type_beq a b ≡ true) ↔ (a ≡ b)
type_beq_iff a b = ground arith

instance abbrev pub type_eq : Eq EventType
type_eq = record { beq = type_beq; beq_iff = type_beq_iff }

-- The `data` of an event, by the call that makes it.
pub data Payload : Type 0 where
  -- available, and the reason if one is given
  availability : Bool → Option String → Payload
  -- available, percentage, reason
  battery_level : Bool → Option ℕ → Option String → Payload
  -- available, present, reason
  probe_state : Bool → Bool → Option String → Payload
  temperature : Celsius → Payload
  connection_state : String → Payload
  -- status, time of the last success, whether it is fresh, threshold in microseconds
  heartbeat_state : String → Option Datetime → Bool → ℕ → Payload
  -- operation, kind, status, error
  operation_state : String → String → String → Option String → Payload
  -- version, names of the settings, sorted
  configuration_version : ℕ → List String → Payload

pub record TelemetryEvent : Type 0 where
  pub session_id : String
  pub type : EventType
  pub observed_at : Datetime
  pub sequence : ℕ
  pub source : TelemetrySource
  pub device_id : Option String
  pub probe : Option ℕ
  pub payload : Payload

-- The key of `_latest`.
pub record EventKey : Type 0 where
  pub device : Option String
  pub kind : EventType
  pub probe : Option ℕ

abbrev pub key_beq : EventKey → EventKey → Bool
key_beq a b = a.device == b.device && a.kind == b.kind && a.probe == b.probe

pub key_beq_iff : (a b : EventKey) → (key_beq a b ≡ true) ↔ (a ≡ b)
key_beq_iff a b =
    ground (arith, ==_iff a.device b.device, ==_iff a.kind b.kind, ==_iff a.probe b.probe)

instance abbrev pub key_eq : Eq EventKey
key_eq = record { beq = key_beq; beq_iff = key_beq_iff }

abbrev pub key_of : TelemetryEvent → EventKey
key_of e = record { device = e.device_id; kind = e.type; probe = e.probe }

-- A subscriber's `asyncio.Queue`, named by a number, with what waits in it, oldest first.
pub record Subscriber : Type 0 where
  pub id : ℕ
  pub queue : List TelemetryEvent

pub record EventBus : Type 0 where
  pub history_size : ℕ
  pub subscriber_queue_size : ℕ
  pub session_id : String
  pub history : List TelemetryEvent
  pub subscribers : List Subscriber
  -- whether `persist` was given, and the events that it was called with
  pub has_persist : Bool
  pub persisted : List TelemetryEvent
  pub latest : Dict EventKey TelemetryEvent
  pub streams_closed : Bool

-- `EventBus.__init__`
unfoldable pub event_bus : ℕ → ℕ → Bool → String → Result EventBus
event_bus history_size queue_size persist session =
    reject_if (ltb (min history_size queue_size) 1)
      (value_error "event buffer sizes must be positive")
      (ok (record {
        history_size = history_size;
        subscriber_queue_size = queue_size;
        session_id = session;
        history = [];
        subscribers = [];
        has_persist = persist;
        persisted = [];
        latest = [];
        streams_closed = false;
      }))

-- `deque.append` with `maxlen`: the oldest entry goes if there is no room.
unfoldable pub append_bounded : {A : Type 0} → ℕ → A → List A → List A
append_bounded size x xs = if ltb (length xs) size then xs ++ x ∷ [] else drop 1 xs ++ x ∷ []

-- The body of the loop over the subscribers: a full queue loses its oldest event first.
unfoldable pub offer : ℕ → TelemetryEvent → Subscriber → Subscriber
offer size event s =
    let room = if leb size (length s.queue) then drop 1 s.queue else s.queue in
    record s { queue = room ++ event ∷ [] }

abbrev pub is_administrative : EventType → Bool
is_administrative operation = true
is_administrative configuration = true
is_administrative _ = false

-- What is kept for a client that comes later, and what is stored, before the event is fanned out.
unfoldable pub keep_event : TelemetryEvent → EventBus → EventBus
keep_event event b =
    if is_administrative event.type
    then (if b.has_persist then record b { persisted = b.persisted ++ event ∷ [] } else b)
    else if not (event.type == probe_temperature)
    then record b { latest = insert (key_of event) event b.latest }
    else b

-- `publish`
unfoldable pub publish : TelemetryEvent → EventBus → EventBus
unfolding keep_event append_bounded
publish event b =
    let stamped : TelemetryEvent = record event { session_id = b.session_id } in
    let kept = keep_event stamped b in
    record kept {
      history = append_bounded b.history_size stamped b.history;
      subscribers = map (offer b.subscriber_queue_size stamped) b.subscribers;
    }

unfoldable pub recent : EventBus → List TelemetryEvent
recent b = b.history

unfoldable pub retained_state : EventBus → List TelemetryEvent
retained_state b = values b.latest

unfoldable pub forget_device : String → EventBus → EventBus
forget_device device b = record b {
  latest = restrict (λ k. not (k.device == some device)) b.latest;
}

-- The two ends of `subscribe`: the queue of a new subscriber is empty, and it is discarded at the
-- end. `number` names the new queue.
unfoldable pub subscribe : ℕ → EventBus → EventBus
subscribe number b = record b { subscribers = record { id = number; queue = [] } ∷ b.subscribers }

unfoldable pub unsubscribe : ℕ → EventBus → EventBus
unsubscribe number b = record b { subscribers = keep (λ s. not (s.id == number)) b.subscribers }

unfoldable pub close_streams : EventBus → EventBus
close_streams b = record b { streams_closed = true }

-- Events published one after the other.
unfoldable pub publish_all : List TelemetryEvent → EventBus → EventBus
publish_all [] b = b
publish_all (e ∷ es) b = publish_all es (publish e b)
