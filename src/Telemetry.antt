-- ===== src/Telemetry.antt =====
-- src/pitblu_core/telemetry.py: the state of `TelemetryState`, its sequence numbers and its events.
-- Every method runs to its end with no point at which another task can run, but for the timers,
-- which are steps of their own. `utc_now()` enters as an argument for each reading of the clock.
-- The event bus is only called, so the state holds the calls, newest first; `bus` is what they make
-- of it. Thresholds are in microseconds. All times that the methods compare have a zone, as the
-- models check, so they are compared by their instants.
pub mod Heartbeats
pub mod Snapshots
pub mod Lifecycle
pub mod Views
pub mod Runs
pub mod Sequences
pub mod Staleness
pub mod Freshness
pub mod Liveness
use pitblu_core.Prelude.{
  Bool, Dict, List, Option, Result, String, [], false, insert, leb, lookup, max, min, nat_eq, none,
  ok, option_eq, reject_if, some, string_eq, true, value_error, ℕ, ◌+◌, ◌∷◌,
}
use pitblu_core.Models.{Datetime, DeviceSnapshot, TelemetrySource}
use pitblu_core.Events.{
  EventBus, EventKey, EventType, Payload, TelemetryEvent, forget_device, key_eq, publish, type_eq,
}

-- `_CurrentSnapshot`; `ref` is the identity of the snapshot's object, which a timer compares
pub record CurrentSnapshot : Type 0 where
  pub snapshot : DeviceSnapshot
  pub ref : ℕ
  pub stale : Bool

pub data HeartbeatStatus : Type 0 where
  unknown healthy stale disconnected : HeartbeatStatus

abbrev pub status_text : HeartbeatStatus → String
status_text unknown = "unknown"
status_text healthy = "healthy"
status_text stale = "stale"
status_text disconnected = "disconnected"

abbrev pub is_healthy : HeartbeatStatus → Bool
is_healthy healthy = true
is_healthy _ = false

abbrev pub is_disconnected : HeartbeatStatus → Bool
is_disconnected disconnected = true
is_disconnected _ = false

pub record HeartbeatState : Type 0 where
  pub adapter_source : TelemetrySource
  pub status : HeartbeatStatus
  pub last_success : Option Datetime
  pub successful_source : Option TelemetrySource
  pub sequence : ℕ

-- What the telemetry asks of the bus.
pub data BusCall : Type 0 where
  publishes : TelemetryEvent → BusCall
  forgets : String → BusCall

pub record TelemetryState : Type 0 where
  pub calls : List BusCall
  pub stale_after : ℕ
  pub heartbeat_stale_after : ℕ
  pub current : Dict String CurrentSnapshot
  -- for each device, the snapshot whose deadline the task waits for
  pub stale_tasks : Dict String ℕ
  pub heartbeats : Dict String HeartbeatState
  -- for each device, the success whose deadline the task waits for
  pub heartbeat_stale_tasks : Dict String Datetime
  pub event_sequences : Dict EventKey ℕ

abbrev pub new_telemetry : ℕ → ℕ → TelemetryState
new_telemetry stale_after heartbeat_stale_after = record {
  calls = [];
  stale_after = stale_after;
  heartbeat_stale_after = heartbeat_stale_after;
  current = [];
  stale_tasks = [];
  heartbeats = [];
  heartbeat_stale_tasks = [];
  event_sequences = [];
}

-- `TelemetryState.__init__`
unfoldable pub telemetry_state : ℕ → ℕ → Result TelemetryState
telemetry_state stale_after heartbeat_stale_after =
    reject_if (leb (min stale_after heartbeat_stale_after) 0)
      (value_error "stale thresholds must be positive")
      (ok (new_telemetry stale_after heartbeat_stale_after))

-- The bus after the calls, the newest of which stands first.
unfoldable pub bus : EventBus → List BusCall → EventBus
bus b [] = b
bus b (publishes e ∷ calls) = publish e (bus b calls)
bus b (forgets device ∷ calls) = forget_device device (bus b calls)

abbrev pub device_key : String → EventType → Option ℕ → EventKey
device_key device kind probe = record { device = some device; kind = kind; probe = probe }

-- `self._event_sequences.get(key, 0)`
abbrev pub last_used : EventKey → Dict EventKey ℕ → ℕ
last_used k d = elim (lookup k d) [ none ↦ 0 | some n ↦ n ]

-- The number that `_sequence` returns.
unfoldable pub next_sequence : EventKey → ℕ → TelemetryState → ℕ
next_sequence key observed_sequence s = max observed_sequence (last_used key s.event_sequences + 1)

-- An event to be published, but for its number: what the calls of `publish` differ in.
pub record Draft : Type 0 where
  pub kind : EventType
  pub probe : Option ℕ
  pub observed_sequence : ℕ
  pub source : TelemetrySource
  pub observed_at : Datetime
  pub payload : Payload

-- The event of a draft, under its number.
abbrev pub numbered : String → Draft → ℕ → TelemetryEvent
numbered device d sequence = record {
  session_id = "";
  type = d.kind;
  observed_at = d.observed_at;
  sequence = sequence;
  source = d.source;
  device_id = some device;
  probe = d.probe;
  payload = d.payload;
}

-- `_sequence`, and the call of `publish` with an event that carries the number
unfoldable pub announce : String → Draft → TelemetryState → TelemetryState
unfolding next_sequence
announce device d s =
    let key = device_key device d.kind d.probe in
    let sequence = next_sequence key d.observed_sequence s in
    record s {
      event_sequences = insert key sequence s.event_sequences;
      calls = publishes (numbered device d sequence) ∷ s.calls;
    }

-- A run of such calls, the first draft first.
unfoldable pub announce_all : String → List Draft → TelemetryState → TelemetryState
announce_all device [] s = s
announce_all device (d ∷ ds) s = announce_all device ds (announce device d s)
