-- ===== src/Service/Identities/Requests.antt =====
-- The requests that change the table of devices (src/pitblu_core/service.py, `register`,
-- `patch_device`, `delete_device`).
use pitblu_core.Prelude.{
  ==_iff, Bool, Bool-cases, List, Option, Option-cases, Result, String, [], arith, err, false, inl,
  inr, is_some, lookup, none, not, ok, option_eq, refl, some, string_eq, subst, sym, true, ℕ, ◌==◌,
  ◌∙◌, ◌∷◌, ◌≡◌, ◌⊎◌,
}
use pitblu_core.Models.{Datetime, DiscoveredDevice, TelemetrySource}
use pitblu_core.Telemetry.Heartbeats.{ensure_heartbeat}
use pitblu_core.Storage.{DeviceRow, OperationRow, Store}
use pitblu_core.Storage.DeviceTable.{
  DevicePatch, delete_device, device, patch_row, save_device, update_device,
}
use pitblu_core.Storage.Rows.{device-delete_device, device-save_device, device-update_device}
use pitblu_core.Service.{
  Service, finish, registers_heartbeat, save_object, schedule, stop_polling, stop_recovery,
}
use pitblu_core.Storage.OperationTable.{operation, save_operation}
use pitblu_core.Service.Operations.{execute_scan}
use pitblu_core.Service.Registration.{
  delete_registered, has_identity, new_row, patch_device, register, save_registered, selected,
}
use pitblu_core.Service.Identities.{
  HasUniqueIdentities, IsNewIdentity, device-key, put-HasUniqueIdentities, untaken,
}

save_device-HasUniqueIdentities :
    (row : DeviceRow) (s : Store)
    → IsNewIdentity row.device_id row s
    → HasUniqueIdentities s
    → HasUniqueIdentities (save_device row s).1
save_device-HasUniqueIdentities row s new u = elim (Option-cases (device row.device_id s)) [
  | inl free ↦
      put-HasUniqueIdentities row.device_id row s (save_device row s).1
        (λ k. elim (device-save_device row k s) [
          | inl (_, _, e) ↦ e
          | inr (old, _, _) ↦ absurd (cc (rw free at old))
        ])
        new u
  | inr (q, taken) ↦ elim (device-save_device row row.device_id s) [
    | inl (free, _, _) ↦ absurd (cc (sym taken ∙ free))
    | inr (_, _, same) ↦ subst HasUniqueIdentities (sym same) u
  ]
]

store-save_registered :
    (row : DeviceRow) (source : TelemetrySource) (s : Service)
    → (save_registered row source s).1.store ≡ (save_device row s.store).1
unfolding save_registered
store-save_registered row source s = either (save_device row s.store).0 (save_device row s.store).1
  where
    either :
        (saved : Result (Unit {0})) (store : Store)
        → let t : Service = elim saved [
          | err e ↦ record s { store = store }
          | ok _ ↦ schedule (registers_heartbeat row.device_id "disconnected") (record s {
            store = store;
            telemetry = ensure_heartbeat row.device_id source s.telemetry;
          })
        ] in
          t.store ≡ store
    either (ok _) store = refl
    either (err e) store = refl

register-HasUniqueIdentities :
    (discovery_id : String) (friendly_name : Option String) (reconnect : Bool)
    (device_id : DiscoveredDevice → String) (source : TelemetrySource) (now : ℕ) (s : Service)
    → HasUniqueIdentities s.store
    → HasUniqueIdentities
        (register discovery_id friendly_name reconnect device_id source now s).1.store
unfolding register
register-HasUniqueIdentities discovery_id friendly_name reconnect device_id source now s u =
    elim (Option-cases (lookup discovery_id s.candidates)) [
      | inl e ↦ rw (e, register) u
      | inr (c, e) ↦ elim (Bool-cases (has_identity c.identity (λ _. true) s.store.devices)) [
        | inl known ↦ rw (e, register, known) u
        | inr unknown ↦ elim (Bool-cases (is_some (device (device_id c) s.store))) [
          | inl taken ↦ rw (e, register, unknown, taken) u
          | inr free ↦
              rw (e, register, unknown, free)
                (let row = record (new_row (device_id c) c friendly_name reconnect now) {
                  discovery_id = discovery_id;
                } in
                  subst HasUniqueIdentities (sym (store-save_registered row source s)) (
                    save_device-HasUniqueIdentities row s.store
                      (λ k q i other d h.
                        untaken c.identity (λ _. true) k i s.store q unknown d refl h)
                      u))
        ]
      ]
    ]

columns-HasUniqueIdentities :
    (key : String) (p : DevicePatch) (s : Store)
    → ((row : DeviceRow) → device key s ≡ some row → IsNewIdentity key (patch_row p row) s)
    → HasUniqueIdentities s
    → HasUniqueIdentities (update_device key p s).1
columns-HasUniqueIdentities key p s new u = elim (Option-cases (device key s)) [
  | inl e ↦
      let same : (k : String) → device k (update_device key p s).1 ≡ device k s =
        λ k. ground (arith, (device-update_device key k p s).1, ==_iff key k, e) in
      λ j k r q i d₁ d₂ h₁ h₂. u j k r q i (sym (same j) ∙ d₁) (sym (same k) ∙ d₂) h₁ h₂
  | inr (row, e) ↦
      put-HasUniqueIdentities key (patch_row p row) s (update_device key p s).1
        (λ k. ground (arith, (device-update_device key k p s).1, ==_iff key k, e)) (new row e) u
]

-- What a selection that is accepted sets of the identity.
selected_identity :
    (key discovery_id : String) (s : Service) (p : DevicePatch)
    → selected key (some discovery_id) s ≡ ok p
    → (c : DiscoveredDevice) × (p.identity ≡ some c.identity)
      × (has_identity c.identity (λ r. not (r.device_id == key)) s.store.devices ≡ false)
unfolding selected
selected_identity key discovery_id s p h = elim (Option-cases (lookup discovery_id s.candidates)) [
  | inl e ↦ absurd (ground (arith, e, h))
  | inr (c, e) ↦ (c, ground (arith, e, h), ground (arith, e, h))
]

selected-none :
    (key : String) (s : Service) (p : DevicePatch) → selected key none s ≡ ok p → p.identity ≡ none
unfolding selected
selected-none key s p h = ground (arith, h)

-- The columns that are selected give the device no identity that another one has.
selected_is_new :
    (key : String) (o : Option String) (s : Service) (p : DevicePatch)
    (name : Option (Option String)) (reconnect : Option Bool) (row : DeviceRow)
    → selected key o s ≡ ok p
    → device key s.store ≡ some row
    → HasUniqueIdentities s.store
    → IsNewIdentity key
        (patch_row (record p { friendly_name = name; auto_reconnect = reconnect }) row)
        s.store
unfolding patch_row
selected_is_new key none s p name reconnect row c d u k q i other d' h h' =
    other (u key k row q i d d' (ground (arith, selected-none key s p c, h)) h')
selected_is_new key (some discovery_id) s p name reconnect row c d u k q i other d' h h' =
    let (found, set, free) = selected_identity key discovery_id s p c in
    untaken found.identity (λ r. not (r.device_id == key)) k i s.store q free d'
      (ground (arith, ==_iff q.device_id key, device-key k s.store q d', other))
      (ground (arith, set, h)) h'

patch_device-HasUniqueIdentities :
    (key : String) (name : Option (Option String)) (reconnect : Option Bool)
    (discovery_id : Option String) (s : Service)
    → HasUniqueIdentities s.store
    → HasUniqueIdentities (patch_device key name reconnect discovery_id s).1.store
unfolding patch_device
patch_device-HasUniqueIdentities key name reconnect discovery_id s u =
    by_choice (selected key discovery_id s) refl
  where
    by_choice :
        (chosen : Result DevicePatch)
        → selected key discovery_id s ≡ chosen
        → HasUniqueIdentities (patch_device key name reconnect discovery_id s).1.store
    by_choice (err e) h = rw (h, patch_device) u
    by_choice (ok p) h =
        rw (h, patch_device)
          (columns-HasUniqueIdentities key
            (record p { friendly_name = name; auto_reconnect = reconnect }) s.store
            (λ row d. selected_is_new key discovery_id s p name reconnect row h d u) u)

delete_device-HasUniqueIdentities :
    (key : String) (s : Store) → HasUniqueIdentities s → HasUniqueIdentities (delete_device key s).1
delete_device-HasUniqueIdentities key s u j k r q i d₁ d₂ h₁ h₂ =
    u j k r q i (ground (arith, (device-delete_device key j s).1, d₁))
      (ground (arith, (device-delete_device key k s).1, d₂)) h₁ h₂

store-delete_registered :
    (key : String) (released : Result (Unit {0})) (t : Datetime) (s : Service)
    → ((delete_registered key released t t t t s).1.store ≡ s.store)
      ⊎ ((delete_registered key released t t t t s).1.store ≡ (delete_device key s.store).1)
unfolding delete_registered stop_recovery stop_polling
store-delete_registered key released t s = ground arith

scan-HasUniqueIdentities :
    (operation : OperationRow) (found : Result (List DiscoveredDevice)) (started ended : ℕ)
    (s : Service)
    → HasUniqueIdentities s.store
    → HasUniqueIdentities (execute_scan operation found started ended s).store
unfolding execute_scan finish save_object save_operation device
scan-HasUniqueIdentities operation (ok found) started ended s u = u
scan-HasUniqueIdentities operation (err e) started ended s u = u

-- The administrator's requests that change the table of devices, and the ends of scans.
pub data Administration : Type 0 where
  registers : String → Option String → Bool → ℕ → Administration
  patches : String → Option (Option String) → Option Bool → Option String → Administration
  deletes : String → Result (Unit {0}) → Datetime → Administration
  scans : OperationRow → Result (List DiscoveredDevice) → ℕ → ℕ → Administration

module _ (device_id : DiscoveredDevice → String) (source : TelemetrySource) where
  unfoldable pub administer : Service → Administration → Service
  administer s (registers discovery_id name reconnect now) =
      (register discovery_id name reconnect device_id source now s).1
  administer s (patches key name reconnect discovery_id) =
      (patch_device key name reconnect discovery_id s).1
  administer s (deletes key released t) = (delete_registered key released t t t t s).1
  administer s (scans operation found started ended) = execute_scan operation found started ended s

  unfoldable pub administer_all : Service → List Administration → Service
  unfolding administer
  administer_all s [] = s
  administer_all s (request ∷ requests) = administer_all (administer s request) requests

  administer-HasUniqueIdentities :
      (s : Service) (request : Administration)
      → HasUniqueIdentities s.store
      → HasUniqueIdentities (administer s request).store
  unfolding administer
  administer-HasUniqueIdentities s (registers discovery_id name reconnect now) u =
      register-HasUniqueIdentities discovery_id name reconnect device_id source now s u
  administer-HasUniqueIdentities s (patches key name reconnect discovery_id) u =
      patch_device-HasUniqueIdentities key name reconnect discovery_id s u
  administer-HasUniqueIdentities s (deletes key released t) u =
      elim (store-delete_registered key released t s) [
        | inl e ↦ subst HasUniqueIdentities (sym e) u
        | inr e ↦
            subst HasUniqueIdentities (sym e) (delete_device-HasUniqueIdentities key s.store u)
      ]
  administer-HasUniqueIdentities s (scans operation found started ended) u =
      scan-HasUniqueIdentities operation found started ended s u

  -- Whatever devices are registered, changed and removed, in any order and with whatever scans that
  -- find whatever in between, no two devices of the store ever have one thermometer's identity, if none have
  -- before.
  pub administer_all-HasUniqueIdentities :
      (s : Service) (requests : List Administration)
      → HasUniqueIdentities s.store
      → HasUniqueIdentities (administer_all s requests).store
  unfolding administer_all
  administer_all-HasUniqueIdentities s [] u = u
  administer_all-HasUniqueIdentities s (request ∷ requests) u =
      administer_all-HasUniqueIdentities (administer s request) requests
        (administer-HasUniqueIdentities s request u)
