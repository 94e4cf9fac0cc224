-- ===== src/Igrill/Discovery.antt =====
-- The search for thermometers (src/pitblu_core/adapters/igrill_v202.py, `discover`).
use text.Mathlib.Text.{starts_with}
use pitblu_core.Prelude.{
  Bool, Dict, Exec, List, Option, Result, String, [], any, err, if◌then◌else◌, insert, keep, map,
  nat_eq, none, ok, some, string_eq, value_error, ℕ, ℤ, ◌==◌, ◌||◌, ◌∷◌,
}
use pitblu_core.Models.{DiscoveredDevice}
use pitblu_core.Igrill.{IgrillAdapter}

abbrev pub temperature_service : String
temperature_service = "ada7590f-2e6d-469e-8f7b-1822b386a5e9"

-- A device that the scanner found, and the identifier that it gets if it is supported.
pub record Advertisement : Type 0 where
  pub native : ℕ
  pub local_name : Option String
  pub native_name : Option String
  pub service_uuids : List String
  pub rssi : Option ℤ
  pub address : Option String
  pub fresh_id : String

-- `local_name or name`, where an empty name counts as none
abbrev pub or_text : Option String → String → String
or_text none other = other
or_text (some text) other = if text == "" then other else text

abbrev pub advertised_name : Advertisement → String
advertised_name a = or_text a.local_name (or_text a.native_name "")

abbrev pub is_supported : String → Advertisement → Bool
is_supported prefix a =
    starts_with (advertised_name a) prefix || any (λ u. u == temperature_service) a.service_uuids

abbrev pub discovered_device : Advertisement → DiscoveredDevice
discovered_device a = record {
  discovery_id = a.fresh_id;
  name = or_text (some (advertised_name a)) "Weber iGrill V202";
  model = "igrill-v202";
  rssi = a.rssi;
  identity = a.address;
}

abbrev pub remember : List Advertisement → Dict String ℕ → Dict String ℕ
remember [] d = d
remember (a ∷ rest) d = remember rest (insert a.fresh_id a.native d)

-- `discover`, given what the scanner answers
unfoldable pub discover :
    ℕ → Result (List Advertisement) → Exec IgrillAdapter (List DiscoveredDevice)
discover duration (err e) a =
    if duration == 0 then (err (value_error "scan duration must be positive"), a) else (err e, a)
discover duration (ok results) a =
    if duration == 0
    then (err (value_error "scan duration must be positive"), a)
    else (let supported = keep (is_supported a.name_prefix) results in
        (ok (map discovered_device supported), record a { native_by_id = remember supported [] }))
