-- ===== src/Igrill.antt =====
-- src/pitblu_core/adapters/igrill_v202.py: the adapter of the physical thermometer. What the BLE
-- library answers to each call is an argument, and so are the clock's readings, in microseconds,
-- and the random identifiers. A client is a number, and whether it `is_connected` is an argument
-- where the source asks for it. Service identifiers are compared in lower case; they stand here as
-- they are after `lower`.
pub mod Discovery
pub mod Session
pub mod Rounds
pub mod Reads
pub mod Pairing
use pitblu_core.Prelude.{
  Dict, Exception, List, Option, Result, String, [], adapter_disconnected, adapter_error,
  configuration_value, err, foreign_error, index_error, invalid_transition, key_error, leb, min,
  nat_eq, none, ok, protocol_error, reject_if, resource_not_found, runtime_error, state_conflict,
  string_eq, unsupported_device, value_error, version_conflict, ℕ,
}
use pitblu_core.Models.{Datetime}

-- What a call of the BLE library does within its time: return bytes (none, for a call that returns
-- nothing), not return, or raise.
pub data Response : Type 0 where
  returned : List ℕ → Response
  timed_out : Response
  failed : Exception → Response

-- `_bounded`
unfoldable pub bounded : Response → String → Result (List ℕ)
bounded (returned bytes) operation = ok bytes
bounded timed_out operation = err (adapter_error operation)
bounded (failed e) operation = err e

-- `type(exc).__name__`
abbrev pub type_name : Exception → String
type_name (value_error _) = "ValueError"
type_name (runtime_error _) = "RuntimeError"
type_name (index_error _) = "IndexError"
type_name (key_error _) = "KeyError"
type_name (protocol_error _) = "ProtocolError"
type_name (adapter_error _) = "AdapterError"
type_name (adapter_disconnected _) = "AdapterDisconnectedError"
type_name (unsupported_device _) = "UnsupportedDeviceError"
type_name (invalid_transition _) = "InvalidTransitionError"
type_name (state_conflict _) = "StateConflictError"
type_name (resource_not_found _) = "ResourceNotFoundError"
type_name (configuration_value _) = "ConfigurationValueError"
type_name (version_conflict _) = "VersionConflictError"
type_name (foreign_error name) = name

pub record IgrillAdapter : Type 0 where
  pub name_prefix : String
  -- the BLE library's object for each discovery identifier
  pub native_by_id : Dict String ℕ
  pub client : Option ℕ
  pub sequence : ℕ
  pub battery_interval : ℕ
  pub battery_due : ℕ
  pub battery_percent : Option ℕ
  pub battery_observed_at : Option Datetime

-- `BleakIGrillV202Adapter.__init__`; the time limits of the calls stand behind their responses
unfoldable pub igrill_adapter : String → ℕ → ℕ → ℕ → ℕ → Result IgrillAdapter
igrill_adapter prefix connect_timeout initialise_timeout read_timeout battery_interval =
    reject_if
      (leb (min (min connect_timeout initialise_timeout) (min read_timeout battery_interval)) 0)
      (value_error "adapter timeouts must be positive")
      (ok (record {
        name_prefix = prefix;
        native_by_id = [];
        client = none;
        sequence = 0;
        battery_interval = battery_interval;
        battery_due = 0;
        battery_percent = none;
        battery_observed_at = none;
      }))
