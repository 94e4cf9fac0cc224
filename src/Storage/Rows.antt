-- ===== src/Storage/Rows.antt =====
-- What the store tells of a device after a change (src/pitblu_core/storage.py).
use mathlib.Core.Option.{map as map_option}
use pitblu_core.Prelude.{
  ==_iff, List, Option-cases, String, [], arith, err, if◌then◌else◌, inl, inr, is_some, keep, none,
  not, ok, refl, runtime_error, some, string_eq, true, ◌++◌, ◌==◌, ◌∷◌, ◌≡◌, ◌⊎◌,
}
use pitblu_core.Storage.{DeviceRow, Store}
use pitblu_core.Storage.DeviceTable.{
  DevicePatch, delete_device, device, find_device, patch_row, save_device, update_device,
  update_rows,
}

find-update_rows :
    (key other : String) (p : DevicePatch) (rows : List DeviceRow)
    → find_device other (update_rows key p rows) ≡ (
        if key == other
        then map_option (patch_row p) (find_device other rows)
        else find_device other rows)
unfolding find_device update_rows patch_row
find-update_rows key other p [] = ground arith
find-update_rows key other p (r ∷ rows) = ground (
  arith,
  find-update_rows key other p rows,
  ==_iff key other,
  ==_iff r.device_id key,
  ==_iff r.device_id other,
)

find-keep :
    (key other : String) (rows : List DeviceRow)
    → find_device other (keep (λ r. not (r.device_id == key)) rows)
      ≡ (if key == other then none else find_device other rows)
unfolding find_device
find-keep key other [] = ground arith
find-keep key other (r ∷ rows) = ground (
  arith,
  find-keep key other rows,
  ==_iff key other,
  ==_iff r.device_id key,
  ==_iff r.device_id other,
)

find-append :
    (r : DeviceRow) (other : String) (rows : List DeviceRow)
    → find_device other (rows ++ r ∷ []) ≡ elim (find_device other rows) [
      | none ↦ (if r.device_id == other then some r else none)
      | some x ↦ some x
    ]
unfolding find_device
find-append r other [] = refl
find-append r other (x ∷ rows) = ground (arith, find-append r other rows)

-- An update tells whether the device is there, changes the columns that are given in its row, and
-- leaves every other device as it was.
pub device-update_device :
    (key other : String) (p : DevicePatch) (s : Store)
    → let (found, t) = update_device key p s in
      (found ≡ is_some (device key s))
      × (device other t
          ≡ (if key == other then map_option (patch_row p) (device other s) else device other s))
unfolding update_device device
device-update_device key other p s = (refl, find-update_rows key other p s.devices)

-- A removal tells whether the device is there, and removes it and no other.
pub device-delete_device :
    (key other : String) (s : Store)
    → let (found, t) = delete_device key s in
      (found ≡ is_some (device key s))
      × (device other t ≡ (if key == other then none else device other s))
unfolding delete_device device
device-delete_device key other s = (refl, find-keep key other s.devices)

-- A new device is stored as it is given and changes no other; a key that is there is refused, and
-- then nothing changes.
pub device-save_device :
    (r : DeviceRow) (other : String) (s : Store)
    → let (result, t) = save_device r s in
      ((device r.device_id s ≡ none)
        × (result ≡ ok tt)
        × (device other t ≡ (if r.device_id == other then some r else device other s)))
      ⊎ ((is_some (device r.device_id s) ≡ true)
          × (result ≡ err (runtime_error "UNIQUE constraint failed: devices.device_id"))
          × (t ≡ s))
unfolding save_device device
device-save_device r other s = elim (Option-cases (find_device r.device_id s.devices)) [
  | inl new ↦
      inl
        (new, ground arith, ground (arith, find-append r other s.devices, ==_iff r.device_id other))
  | inr (x, old) ↦ inr (ground arith, ground arith, ground arith)
]
