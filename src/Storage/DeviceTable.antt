-- ===== src/Storage/DeviceTable.antt =====
-- The table of registered devices (src/pitblu_core/storage.py).
use mathlib.Core.List.{reverse}
use pitblu_core.Prelude.{
  Bool, Exec, List, Option, String, [], err, if◌then◌else◌, is_some, keep, nat_eq, none, not, ok,
  runtime_error, some, string_eq, ◌++◌, ◌==◌, ◌∷◌,
}
use pitblu_core.Storage.{DeviceRow, Store, order_desc}

unfoldable pub find_device : String → List DeviceRow → Option DeviceRow
find_device key [] = none
find_device key (r ∷ rows) = if r.device_id == key then some r else find_device key rows

-- The row of the key.
unfoldable pub device : String → Store → Option DeviceRow
unfolding find_device
device key s = find_device key s.devices

-- The insertion, which raises on a key that is there, and the update of the identity behind it.
unfoldable pub save_device : DeviceRow → Exec Store (Unit {0})
save_device r s =
    if is_some (device r.device_id s)
    then (err (runtime_error "UNIQUE constraint failed: devices.device_id"), s)
    else (ok tt, record s { devices = s.devices ++ r ∷ [] })

-- The columns that `update_device` may set, each if it is given.
pub record DevicePatch : Type 0 where
  pub friendly_name : Option (Option String)
  pub auto_reconnect : Option Bool
  pub desired_state : Option String
  pub observed_state : Option String
  pub identity : Option (Option String)
  pub discovery_id : Option String

abbrev pub no_patch : DevicePatch
no_patch = record {
  friendly_name = none;
  auto_reconnect = none;
  desired_state = none;
  observed_state = none;
  identity = none;
  discovery_id = none;
}

abbrev pub given_or : {A : Type 0} → Option A → A → A
given_or none old = old
given_or (some new) old = new

unfoldable pub patch_row : DevicePatch → DeviceRow → DeviceRow
patch_row p r = record r {
  friendly_name = given_or p.friendly_name r.friendly_name;
  auto_reconnect = given_or p.auto_reconnect r.auto_reconnect;
  desired_state = given_or p.desired_state r.desired_state;
  observed_state = given_or p.observed_state r.observed_state;
  identity = given_or p.identity r.identity;
  discovery_id = given_or p.discovery_id r.discovery_id;
}

-- `UPDATE devices … WHERE device_id = ?`; an empty patch writes the rows as they are
unfoldable pub update_rows : String → DevicePatch → List DeviceRow → List DeviceRow
update_rows key p [] = []
update_rows key p (r ∷ rows) =
    (if r.device_id == key then patch_row p r else r) ∷ update_rows key p rows

-- whether the device is there, and the store
unfoldable pub update_device : String → DevicePatch → Store → Bool × Store
unfolding update_rows
update_device key p s = (is_some (device key s), record s { devices = update_rows key p s.devices })

unfoldable pub delete_device : String → Store → Bool × Store
delete_device key s =
    (is_some (device key s), record s { devices = keep (λ r. not (r.device_id == key)) s.devices })

unfoldable pub list_devices : Store → List DeviceRow
list_devices s = reverse (order_desc (λ r. r.created_at) (reverse s.devices))
