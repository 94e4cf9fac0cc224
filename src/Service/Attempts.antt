-- ===== src/Service/Attempts.antt =====
-- What an attempt to connect consists of, and its search for the thermometer
-- (src/pitblu_core/service.py, `_execute_connection`).
use pitblu_core.Prelude.{
  Bool, Exec, List, Option, Result, String, false, gets, if◌then◌else◌, is_some, lookup, modify,
  none, option_eq, pure, raise, some, state_conflict, string_eq, true, ℕ, ◌&&◌, ◌==◌, ◌>>=◌, ◌>>◌,
}
use pitblu_core.Models.{Datetime, DeviceSnapshot, DiscoveredDevice, TelemetrySource}
use pitblu_core.Telemetry.{TelemetryState}
use pitblu_core.Storage.{DeviceRow}
use pitblu_core.Storage.DeviceTable.{no_patch}
use pitblu_core.Service.{Service, set_columns, with_telemetry}
use pitblu_core.Service.Operations.{by_id, first_where}

-- What the adapter answers during one attempt, and what is read meanwhile.
pub record Attempt : Type 0 where
  pub is_connected : Bool
  pub detached : Result (Unit {0})
  pub released_early : Result Bool
  pub found : Result (List DiscoveredDevice)
  pub released : Result Bool
  pub found_again : Result (List DiscoveredDevice)
  pub initialised_at : Result (Option Datetime)
  pub snapshot : Result DeviceSnapshot
  pub source : TelemetrySource
  pub ref : ℕ
  pub started : ℕ
  pub ended : ℕ
  pub now : Datetime

-- The service and the stage that the attempt has reached.
pub record Run : Type 0 where
  pub service : Service
  pub stage : String

abbrev pub at_stage : String → Exec Run (Unit {0})
at_stage stage = modify (λ r. record r { stage = stage })

abbrev pub on_service : (Service → Service) → Exec Run (Unit {0})
on_service f = modify (λ r. record r { service = f r.service })

abbrev pub on_telemetry : Exec TelemetryState (Unit {0}) → Exec Run (Unit {0})
on_telemetry f r =
    let (result, t) = f r.service.telemetry in
    (result, record r { service = with_telemetry (λ _. t) r.service })

-- What an awaited call of the adapter returns or raises.
abbrev pub awaits : {A : Type 0} → Result A → Exec Run A
awaits result r = (result, r)

abbrev pub matching : Option String → List DiscoveredDevice → Option DiscoveredDevice
matching identity found = first_where (λ c. c.identity == identity) found

-- The first candidate: none is taken from the cache by a reconnection of a device whose identity is
-- known.
abbrev pub cached : Bool → DeviceRow → Service → Option DiscoveredDevice
cached reconnecting row s =
    if reconnecting && is_some row.identity then none else lookup row.discovery_id s.candidates

-- A scan, whose results replace the candidates.
abbrev pub rescan : Result (List DiscoveredDevice) → Exec Run (List DiscoveredDevice)
rescan found = do
  candidates ← awaits found
  on_service (λ s. record s { candidates = by_id candidates })
  pure candidates

-- The second scan, if the link that BlueZ holds was released.
abbrev pub search_again : Option String → Attempt → Exec Run (Option DiscoveredDevice)
search_again identity a = do
  at_stage "bluez_release"
  released ← awaits a.released
  elim released [
    | false ↦ pure none
    | true ↦ (do
      at_stage "rediscovery"
      found ← rescan a.found_again
      pure (matching identity found))
  ]

-- The search for a device that is not in the cache.
unfoldable pub search : DeviceRow → Attempt → Exec Run (Option DiscoveredDevice)
search row a = do
  found ← rescan a.found
  elim row.identity [
    | none ↦ pure none
    | some i ↦ elim (matching (some i) found) [
      | some c ↦ pure (some c)
      | none ↦ search_again (some i) a
    ]
  ]

-- The candidate that the attempt connects to.
unfoldable pub select : String → Bool → DeviceRow → Attempt → Exec Run DiscoveredDevice
unfolding search set_columns
select key reconnecting row a = do
  at_stage "discovery"
  s ← gets (λ r. r.service)
  elim (cached reconnecting row s) [
    | some c ↦ pure c
    | none ↦ (do
      candidate ← search row a
      elim candidate [
        | none ↦ (do
          at_stage "registered_identity_missing"
          raise (state_conflict "registered identity not found"))
        | some c ↦ (do
          on_service (set_columns key (record no_patch { discovery_id = some c.discovery_id }))
          pure c)
      ])
  ]
