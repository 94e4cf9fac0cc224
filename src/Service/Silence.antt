-- ===== src/Service/Silence.antt =====
-- What becomes of a device that is silent (src/pitblu_core/service.py, `_poll`).
use pitblu_core.Prelude.{
  ==-refl, Bool, Exception, Option-cases, Result, String, after_result, ap, arith, err, false,
  if◌then◌else◌, inl, inr, is_some, leb, lookup, lookup-insert, none, not, ok, option_eq, refl,
  some, string_eq, true, ◌+◌, ◌-◌, ◌==◌, ◌||◌, ◌∙◌, ◌≡◌, ◌≤◌,
}
use pitblu_core.Telemetry.Snapshots.{connection}
use pitblu_core.Storage.{DeviceRow}
use pitblu_core.Storage.DeviceTable.{DevicePatch, device, no_patch, patch_row}
use pitblu_core.Storage.Rows.{device-update_device}
use pitblu_core.Service.{Service, recovers, schedule_recovery, set_columns, with_telemetry}
use pitblu_core.Service.Polling.{
  Poll, PollRound, PollSettings, degrade, end_round, failed_round, poll_round, read_part,
}

-- The device's row after `update_device` for it.
row_after :
    (key : String) (p : DevicePatch) (s : Service) (row : DeviceRow)
    → device key s.store ≡ some row
    → device key (set_columns key p s).store ≡ some (patch_row p row)
unfolding set_columns
row_after key p s row h = (device-update_device key key p s.store).1 ∙ rw (==-refl key, h)

recovery_after :
    (key : String) (immediate : Bool) (s : Service)
    → recovers s.closing (device key s.store) ≡ true
    → is_some (lookup key (schedule_recovery key immediate s).recoveries) ≡ true
unfolding schedule_recovery
recovery_after key immediate s h =
    ground (arith, h, lookup-insert key key immediate s.recoveries, ==-refl key)

-- The device is there, is wanted and reconnects by itself, and the service is not stopping.
abbrev pub IsWanted : String → Service → Type 0
IsWanted key s = recovers s.closing (device key s.store) ≡ true

recovers-patch_row :
    (c : Bool) (p : DevicePatch) (row : DeviceRow)
    → p.auto_reconnect ≡ none
    → p.desired_state ≡ none
    → recovers c (some (patch_row p row)) ≡ recovers c (some row)
unfolding patch_row
recovers-patch_row c p row a d = ground (arith, a, d)

IsWanted-set_columns :
    (key : String) (p : DevicePatch) (s : Service)
    → p.auto_reconnect ≡ none
    → p.desired_state ≡ none
    → IsWanted key s
    → IsWanted key (set_columns key p s)
unfolding set_columns
IsWanted-set_columns key p s a d w = elim (Option-cases (device key s.store)) [
  | inl e ↦ absurd (cc (rw e at w))
  | inr (row, e) ↦ rw (row_after key p s row e) (recovers-patch_row s.closing p row a d ∙ rw e at w)
]

if-IsWanted :
    (b : Bool) (key : String) (s t : Service)
    → IsWanted key s
    → IsWanted key t
    → IsWanted key (if b then s else t)
if-IsWanted true key s t v w = v
if-IsWanted false key s t v w = w

degrade-IsWanted :
    (settings : PollSettings) (key : String) (r : PollRound) (p : Poll) (s : Service)
    → IsWanted key s
    → IsWanted key (degrade settings key r (failed_round p) s).1
unfolding degrade
degrade-IsWanted settings key r p s w = ground (
  arith,
  IsWanted-set_columns key (record no_patch { observed_state = some "degraded" }) s refl refl w,
)

degrade_valid :
    (settings : PollSettings) (key : String) (r : PollRound) (p : Poll) (s : Service)
    → (degrade settings key r p s).0.last_valid ≡ p.last_valid
unfolding degrade
degrade_valid settings key r p s = ground arith

-- The service when the polling task gives up, before the recovery is scheduled.
given_up : String → PollRound → Service → Service
given_up key r s = with_telemetry (connection key "backoff" r.now r.now r.now) (
    set_columns key (record no_patch { observed_state = some "backoff" })
      (record s { last_error = some "device_read_failed" }))

given_up-IsWanted :
    (key : String) (r : PollRound) (s : Service) → IsWanted key s → IsWanted key (given_up key r s)
unfolding given_up
given_up-IsWanted key r s w =
    IsWanted-set_columns key (record no_patch { observed_state = some "backoff" })
      (record s { last_error = some "device_read_failed" }) refl refl w

expired_round :
    (settings : PollSettings) (key : String) (r : PollRound) (p : Poll) (s : Service)
    → p.last_valid + settings.reconnect_after ≤ r.clock
    → end_round settings key r (failed_round p) false s ≡ (
      ok (none, false),
      schedule_recovery key false (given_up key r (degrade settings key r (failed_round p) s).1),
    )
unfolding end_round given_up
expired_round settings key r p s late =
    let q = (degrade settings key r (failed_round p) s).0 in
    let expired : (not r.is_connected || leb settings.reconnect_after (r.clock - q.last_valid))
        ≡ true =
      ground (arith, late, degrade_valid settings key r (failed_round p) s) in
    rw expired

read_fails :
    (settings : PollSettings) (key : String) (r : PollRound) (p : Poll) (s : Service)
    (e : Exception)
    → r.snapshot ≡ err e
    → read_part settings key r p s ≡ (ok (failed_round p, false), s)
unfolding read_part
read_fails settings key r p s e f = rw (f, read_part)

silent_round :
    (settings : PollSettings) (key : String) (r : PollRound) (p : Poll) (s : Service)
    (e : Exception)
    → s.connected_device ≡ some key
    → r.snapshot ≡ err e
    → p.last_valid + settings.reconnect_after ≤ r.clock
    → poll_round settings key r p s ≡ (
      ok (none, false),
      schedule_recovery key false (given_up key r (degrade settings key r (failed_round p) s).1),
    )
unfolding poll_round
silent_round settings key r p s e c f late =
    let own : not (s.connected_device == some key) ≡ false = ground (arith, c, ==-refl key) in
    rw own (
      ap
        (λ (x : Result (Poll × Bool) × Service).
          after_result x.0 (λ read. end_round settings key r read.0 read.1) x.1)
        (read_fails settings key r p s e f)
      ∙ expired_round settings key r p s late)

-- A device that has been silent for the time after which a reconnection is forced gets one: the
-- failed round of its polling task ends the task, and a recovery is waiting, provided that the
-- device is the connected one, that it is still wanted and reconnects by itself, and that the
-- service is not stopping.
pub silent_device_recovers :
    (settings : PollSettings) (key : String) (r : PollRound) (p : Poll) (s : Service)
    (e : Exception)
    → s.connected_device ≡ some key
    → r.snapshot ≡ err e
    → p.last_valid + settings.reconnect_after ≤ r.clock
    → IsWanted key s
    → let (result, t) = poll_round settings key r p s in
      (result ≡ ok (none, false)) × (is_some (lookup key t.recoveries) ≡ true)
silent_device_recovers settings key r p s e c f late w =
    rw (silent_round settings key r p s e c f late) (
      refl,
      recovery_after key false (given_up key r (degrade settings key r (failed_round p) s).1) (
          given_up-IsWanted key r (degrade settings key r (failed_round p) s).1
            (degrade-IsWanted settings key r p s w)),
    )
