-- ===== src/Igrill/Session.antt =====
-- The connection to a thermometer and its end (src/pitblu_core/adapters/igrill_v202.py).
use pitblu_core.Prelude.{
  Bool, Exec, List, Option, Result, String, [], adapter_error, any, err, if◌then◌else◌, is_some,
  length, lookup, modify, nat_eq, none, not, ok, pure, reject_if, some, string_eq, suc,
  unsupported_device, zero, ℕ, ◌&&◌, ◌++◌, ◌==◌, ◌>>=◌, ◌>>◌, ◌||◌, ◌∷◌,
}
use pitblu_core.Models.{Datetime, DiscoveredDevice, utc}
use pitblu_core.Igrill.{IgrillAdapter, Response, bounded}
use pitblu_core.Igrill.Discovery.{temperature_service}

-- What the adapter writes to the thermometer.
pub data Write : Type 0 where
  app_challenge device_response : List ℕ → Write

abbrev pub zero_bytes : ℕ → List ℕ
zero_bytes zero = []
zero_bytes (suc n) = 0 ∷ zero_bytes n

-- What the library answers while a client is connected: to the connection, to the question for the
-- services, and to the two writes and the read of the authentication.
pub record Connecting : Type 0 where
  pub connection : Response
  pub services : List String
  pub challenge_written : Response
  pub challenge : Response
  pub response_written : Response

-- `_authenticate`, which leaves the writes that were made, oldest first
unfoldable pub authenticate : Connecting → Exec (List Write) (Unit {0})
unfolding bounded
authenticate c = do
  modify (λ w. w ++ app_challenge (zero_bytes 16) ∷ [])
  λ w. (bounded c.challenge_written "application challenge write timed out", w)
  challenge ← λ w. (bounded c.challenge "device challenge read timed out", w)
  λ w. (
    reject_if (not (length challenge == 16))
        (adapter_error "device challenge has an invalid length") (ok tt),
    w,
  )
  modify (λ w. w ++ device_response challenge ∷ [])
  λ w. (bounded c.response_written "device response write timed out", w)
  pure tt

-- The `try` of `connect`, with the writes.
unfoldable pub open_client : Connecting → Exec (List Write) (Unit {0})
unfolding bounded authenticate
open_client c = do
  λ w. (bounded c.connection "BLE connection and GATT service resolution timed out", w)
  λ w. (
    reject_if (not (any (λ u. u == temperature_service) c.services))
        (unsupported_device "device does not expose the V202 service") (ok tt),
    w,
  )
  authenticate c

-- `connect`: the number of the new client is given, `alive` is whether the old one is connected;
-- with the writes that the connection made
unfoldable pub connect :
    DiscoveredDevice
    → Bool
    → ℕ
    → Connecting
    → ℕ
    → ℕ
    → IgrillAdapter
    → (Result (Option Datetime) × IgrillAdapter) × List Write
unfolding open_client
connect device alive number c clock now a =
    if is_some a.client && alive
    then ((ok none, a), [])
    else if not (is_some (lookup device.discovery_id a.native_by_id))
        || not (device.model == "igrill-v202")
    then ((err (unsupported_device "device is not a current supported discovery result"), a), [])
    else (let (opened, writes) = open_client c [] in
        elim opened [
          | err e ↦ ((err e, a), writes)
          | ok _ ↦ (
            (
              ok (some (utc now)),
              record a {
                client = some number;
                battery_due = clock;
                battery_percent = none;
                battery_observed_at = none;
              },
            ),
            writes,
          )
        ])

unfoldable pub disconnect_client : IgrillAdapter → IgrillAdapter
disconnect_client a = record a { client = none }

-- `_on_disconnect`
unfoldable pub on_disconnect : IgrillAdapter → IgrillAdapter
on_disconnect a = record a { client = none }
