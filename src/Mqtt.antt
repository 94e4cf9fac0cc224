-- ===== src/Mqtt.antt =====
-- The messages of src/pitblu_core/mqtt.py: topics, payloads, and what is retained. A payload is the
-- dictionary that the source hands to `json.dumps`. The module below runs the publisher.
pub mod Publisher
pub mod Loop
pub mod Session
pub mod Steps
pub mod Announcements
pub mod Ends
pub mod Envelope
pub mod Addresses
pub mod Topics
pub mod Mirror
pub mod Offline
pub mod Contents
pub mod Retry
use Prim.Native.Char.{code}
use Prim.Native.String.{[] as ε, ◌++◌ as ◌⧺◌, ◌∷◌ as ◌▹◌, slice}
use pitblu_core.Prelude.{
  Bool, Dict, List, Option, Result, String, [], err, if◌then◌else◌, insert, ltb, nat_eq, none, not,
  ok, some, string_eq, suc, value_error, zero, ℕ, ◌%◌, ◌&&◌, ◌++◌, ◌+◌, ◌/◌, ◌==◌, ◌∷◌,
}
use pitblu_core.Protocol.{Celsius}
use pitblu_core.Models.{Datetime, TelemetrySource, physical, simulated}
use pitblu_core.Events.{
  EventType, Payload, TelemetryEvent, availability, battery, battery_level, configuration,
  configuration_version, connection_state, device_availability, device_connection, heartbeat_state,
  operation, operation_state, probe_availability, probe_state, probe_temperature,
  service_availability, temperature, thermometer_heartbeat, type_eq,
}

-- A value of a payload: what `isoformat`, `total_seconds` and `value` turn into text or numbers is
-- told apart by its constructor.
pub data Json : Type 0 where
  null : Json
  truth : Bool → Json
  number : ℕ → Json
  text : String → Json
  time : Datetime → Json
  -- a span in microseconds
  seconds : ℕ → Json
  degrees : Celsius → Json
  texts : List String → Json

abbrev pub Fields : Type 0
Fields = Dict String Json

pub record MqttSettings : Type 0 where
  pub host : String
  pub port : ℕ
  pub username : Option String
  pub password : Option String
  pub tls : Bool
  pub base_topic : String
  pub qos : ℕ
  pub source : TelemetrySource
  pub heartbeat : ℕ
  pub stable_after : ℕ
  pub timeout : ℕ

abbrev pub is_slash : ℕ → Bool
is_slash c = c == 47

-- The two halves of `text.strip("/")`
unfoldable pub strip_left : String → String
strip_left ε = ε
strip_left (c ▹ rest) = if is_slash (code c) then strip_left rest else c ▹ rest

unfoldable pub strip_right : String → String
strip_right ε = ε
strip_right (c ▹ rest) =
    let kept = strip_right rest in if kept == "" && is_slash (code c) then "" else c ▹ kept

unfoldable pub strip : String → String
unfolding strip_left strip_right
strip s = strip_right (strip_left s)

-- A number in an f-string, for what is left of the count of digits
unfoldable pub decimal_digits : ℕ → ℕ → String
decimal_digits zero n = ""
decimal_digits (suc count) n =
    let higher = decimal_digits count (n / 10) in
    let digit = slice "0123456789" (n % 10) (n % 10 + 1) in
    if ltb n 10 then digit else higher ⧺ digit

unfoldable pub decimal : ℕ → String
unfolding decimal_digits
decimal n = decimal_digits (n + 1) n

-- `_TOPIC_PARTS`
unfoldable pub topic_part : EventType → Option String
topic_part device_availability = some "availability"
topic_part device_connection = some "connection"
topic_part thermometer_heartbeat = some "heartbeat"
topic_part battery = some "battery"
topic_part service_availability = none
topic_part probe_availability = none
topic_part probe_temperature = none
topic_part operation = none
topic_part configuration = none

abbrev pub leaf : EventType → String
leaf kind = if kind == probe_availability then "availability" else "temperature"

-- The statements of `topic_for` from the table on.
unfoldable pub device_topic : String → String → EventType → Option ℕ → Result String
unfolding topic_part decimal
device_topic base device kind probe = elim (topic_part kind) [
  | some part ↦ ok (base ⧺ ("/v1/devices/" ⧺ (device ⧺ ("/" ⧺ part))))
  | none ↦ elim probe [
    | none ↦ err (value_error "probe event requires a probe number")
    | some n ↦
        ok (base ⧺ ("/v1/devices/" ⧺ (device ⧺ ("/probes/" ⧺ (decimal n ⧺ ("/" ⧺ leaf kind))))))
  ]
]

abbrev pub availability_topic : String → String
availability_topic base_topic = strip base_topic ⧺ "/v1/service/availability"

unfoldable pub topic_for : String → TelemetryEvent → Result String
unfolding device_topic strip
topic_for base_topic event =
    if event.type == service_availability
    then ok (availability_topic base_topic)
    else elim event.device_id [
      | none ↦ err (value_error "device event requires a device identifier")
      | some device ↦ device_topic (strip base_topic) device event.type event.probe
    ]

abbrev pub source_value : TelemetrySource → String
source_value physical = "physical"
source_value simulated = "simulated"

abbrev pub text_or_null : Option String → Json
text_or_null none = null
text_or_null (some t) = text t

abbrev pub with_reason : Option String → Fields → Fields
with_reason none fields = fields
with_reason (some reason) fields = fields ++ ("reason", text reason) ∷ []

-- The dictionary `data` of an event
unfoldable pub data_fields : Payload → Fields
data_fields (availability available reason) =
    with_reason reason (("available", truth available) ∷ [])
data_fields (battery_level available percent reason) = with_reason reason (
    ("available", truth available)
    ∷ ("percentage", elim percent [ none ↦ null | some p ↦ number p ])
    ∷ [])
data_fields (probe_state available present reason) =
    with_reason reason (("available", truth available) ∷ ("present", truth present) ∷ [])
data_fields (temperature t) = ("temperatureC", degrees t) ∷ []
data_fields (connection_state state) = ("state", text state) ∷ []
data_fields (heartbeat_state status last fresh threshold) =
    ("status", text status)
    ∷ ("lastSuccessfulCommunicationAt", elim last [ none ↦ null | some t ↦ time t ])
    ∷ ("fresh", truth fresh)
    ∷ ("staleAfterSeconds", seconds threshold)
    ∷ []
data_fields (operation_state id kind status error) =
    ("operationId", text id)
    ∷ ("kind", text kind)
    ∷ ("status", text status)
    ∷ ("errorCode", text_or_null error)
    ∷ []
data_fields (configuration_version version settings) =
    ("version", number version) ∷ ("settings", texts settings) ∷ []

-- `payload[key] = value`, for a value that is given
abbrev pub set_some : String → Option Json → Fields → Fields
set_some key none fields = fields
set_some key (some value) fields = insert key value fields

-- `payload.update(new)`
unfoldable pub update_fields : Fields → Fields → Fields
update_fields [] fields = fields
update_fields ((key, value) ∷ new) fields = update_fields new (insert key value fields)

abbrev pub envelope : TelemetryEvent → Fields
envelope event =
    ("schemaVersion", number 1)
    ∷ ("observedAt", time event.observed_at)
    ∷ ("sequence", number event.sequence)
    ∷ ("source", text (source_value event.source))
    ∷ []

-- `if event.session_id:`
abbrev pub session_field : String → Option Json
session_field session = if session == "" then none else some (text session)

abbrev pub device_field : Option String → Option Json
device_field none = none
device_field (some device) = some (text device)

abbrev pub probe_field : Option ℕ → Option Json
probe_field none = none
probe_field (some n) = some (number n)

unfoldable pub mqtt_payload : TelemetryEvent → Fields
unfolding update_fields data_fields
mqtt_payload event = update_fields (data_fields event.payload) (
    set_some "probe" (probe_field event.probe) (
      set_some "deviceId" (device_field event.device_id)
        (set_some "sessionId" (session_field event.session_id) (envelope event))))

unfoldable pub retained : EventType → Bool
retained kind = not (kind == probe_temperature)

-- `_service_payload` at a time
unfoldable pub service_payload : MqttSettings → String → Bool → ℕ → Datetime → Fields
service_payload settings session available sequence now =
    ("schemaVersion", number 1)
    ∷ ("available", truth available)
    ∷ ("observedAt", time now)
    ∷ ("sequence", number sequence)
    ∷ ("source", text (source_value settings.source))
    ∷ ("sessionId", text session)
    ∷ []
