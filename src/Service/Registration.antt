-- ===== src/Service/Registration.antt =====
-- The devices: registration, change and removal (src/pitblu_core/service.py).
use pitblu_core.Prelude.{
  Bool, Exec, List, Option, Result, String, any, bind_result, err, false, if◌then◌else◌, is_some,
  lookup, none, not, ok, option_eq, reject_if, some, state_conflict, string_eq, true, ℕ, ◌&&◌, ◌==◌,
}
use pitblu_core.Models.{Datetime, DiscoveredDevice, TelemetrySource}
use pitblu_core.Telemetry.Heartbeats.{ensure_heartbeat}
use pitblu_core.Telemetry.Lifecycle.{remove_device}
use pitblu_core.Storage.{DeviceRow}
use pitblu_core.Storage.DeviceTable.{
  DevicePatch, delete_device, device, no_patch, save_device, update_device,
}
use pitblu_core.Service.{
  Service, known_device, registers_heartbeat, schedule, stop_polling, stop_recovery, with_store,
  with_telemetry,
}
use pitblu_core.Service.Operations.{pending}

-- Whether a row that the test admits has the identity, which is given.
abbrev pub has_identity : Option String → (DeviceRow → Bool) → List DeviceRow → Bool
has_identity none p rows = false
has_identity (some i) p rows = any (λ r. p r && r.identity == some i) rows

-- The row of a new device.
abbrev pub new_row : String → DiscoveredDevice → Option String → Bool → ℕ → DeviceRow
new_row key candidate friendly_name reconnect now = record {
  device_id = key;
  discovery_id = candidate.discovery_id;
  name = candidate.name;
  friendly_name = friendly_name;
  model = candidate.model;
  auto_reconnect = reconnect;
  desired_state = "disconnected";
  observed_state = "discovered";
  created_at = now;
  identity = candidate.identity;
}

-- The statements of `register` behind its tests.
unfoldable pub save_registered : DeviceRow → TelemetrySource → Exec Service DeviceRow
save_registered row source s =
    let (saved, store) = save_device row s.store in
    (
      bind_result saved (λ _. ok row),
      elim saved [
        | err e ↦ record s { store = store }
        | ok _ ↦ schedule (registers_heartbeat row.device_id "disconnected") (record s {
          store = store;
          telemetry = ensure_heartbeat row.device_id source s.telemetry;
        })
      ],
    )

-- `register`, which returns the row that its view shows. `device_id` is the identifier that it makes
-- of the candidate's name, and `source` the adapter's.
unfoldable pub register :
    String
    → Option String
    → Bool
    → (DiscoveredDevice → String)
    → TelemetrySource
    → ℕ
    → Exec Service DeviceRow
register discovery_id friendly_name reconnect device_id source now s =
    elim (lookup discovery_id s.candidates) [
      | none ↦ (err (state_conflict "discovery result is no longer available"), s)
      | some candidate ↦
          (if has_identity candidate.identity (λ _. true) s.store.devices
            then (err (state_conflict "device is already registered"), s)
            else if is_some (device (device_id candidate) s.store)
            then (err (state_conflict "device is already registered"), s)
            else save_registered
                (record (new_row (device_id candidate) candidate friendly_name reconnect now) {
                  discovery_id = discovery_id;
                })
                source s)
    ]

-- The columns that a new selection of the thermometer sets, or why it is refused.
unfoldable pub selected : String → Option String → Service → Result DevicePatch
selected key none s = ok no_patch
selected key (some discovery_id) s =
    reject_if (s.owner == some key) (state_conflict "disconnect before selecting a device identity")
      (elim (lookup discovery_id s.candidates) [
        | none ↦ err (state_conflict "discovery result is no longer available")
        | some candidate ↦
            reject_if
              (has_identity candidate.identity (λ r. not (r.device_id == key)) s.store.devices)
              (state_conflict "device identity is already registered")
              (ok (record no_patch {
                identity = some candidate.identity;
                discovery_id = some discovery_id;
              }))
      ])

-- `patch_device`; the name is given if it is to be updated
unfoldable pub patch_device :
    String → Option (Option String) → Option Bool → Option String → Exec Service DeviceRow
patch_device key friendly_name reconnect discovery_id s =
    let chosen = selected key discovery_id s in
    elim chosen [
      | err e ↦ (err e, s)
      | ok columns ↦
          (let patch : DevicePatch = record columns {
            friendly_name = friendly_name;
            auto_reconnect = reconnect;
          } in
            let (found, store) = update_device key patch s.store in
            let t : Service = record s { store = store } in (known_device key t, t))
    ]

-- `delete_device`: `released` is what the adapter's `disconnect` does, and the times are those that
-- the telemetry reads
unfoldable pub delete_registered :
    String → Result (Unit {0}) → Datetime → Datetime → Datetime → Datetime → Exec Service (Unit {0})
unfolding known_device pending stop_recovery stop_polling
delete_registered key released t0 t1 t2 t3 s =
    let leave : Service → Service = λ u.
      let gone =
        with_store (λ t. (delete_device key t).1)
          (with_telemetry (remove_device key t0 t1 t2 t3) u) in
      if gone.owner == some key then record gone { owner = none } else gone in
    elim (known_device key s) [
      | err e ↦ (err e, s)
      | ok row ↦
          (if is_some (pending key s)
            then (err (state_conflict "device operation is in progress"), s)
            else (let calm = stop_recovery key s in
                if calm.connected_device == some key
                then (let quiet = stop_polling key calm in
                    elim released [
                      | err e ↦ (err e, quiet)
                      | ok _ ↦ (ok tt, leave (record quiet { connected_device = none }))
                    ])
                else (ok tt, leave calm)))
    ]
