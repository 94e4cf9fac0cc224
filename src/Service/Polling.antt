-- ===== src/Service/Polling.antt =====
-- The polling task, one round at a time (src/pitblu_core/service.py, `_poll`). The
-- readings of the clock in one round are one here.
use pitblu_core.Prelude.{
  Bool, Exec, Option, Result, String, any, err, false, if◌then◌else◌, leb, ltb, nat_eq, none, not,
  ok, option_eq, some, string_eq, true, ℕ, ◌&&◌, ◌+◌, ◌-◌, ◌==◌, ◌>>=◌, ◌||◌,
}
use pitblu_core.Models.{Datetime, DeviceSnapshot}
use pitblu_core.Telemetry.Snapshots.{connection, record_snapshot}
use pitblu_core.Storage.DeviceTable.{no_patch}
use pitblu_core.Service.{Service, schedule_recovery, set_columns, with_telemetry}

-- The local variables of the task.
pub record Poll : Type 0 where
  pub failures : ℕ
  pub last_valid : ℕ
  pub stable_since : ℕ
  pub last_observed : Option Datetime

-- The settings that the task reads.
pub record PollSettings : Type 0 where
  pub degraded_after : ℕ
  pub reconnect_after : ℕ
  pub stable_after : ℕ

-- What one round is answered, and the clock's readings, in microseconds.
pub record PollRound : Type 0 where
  pub snapshot : Result DeviceSnapshot
  pub ref : ℕ
  pub now : Datetime
  pub clock : ℕ
  pub is_connected : Bool

-- `observed_at > last_observed`, or there is none
abbrev pub is_later : Datetime → Option Datetime → Bool
is_later t none = true
is_later t (some u) = ltb u.micros t.micros

-- The three conditions of a good reading.
unfoldable pub is_good : PollRound → ℕ → Poll → DeviceSnapshot → Bool
is_good r stale_after p snapshot =
    ltb r.now.micros (snapshot.observed_at.micros + stale_after)
    && any (λ q. q.available) snapshot.probes
    && is_later snapshot.observed_at p.last_observed

abbrev pub failed_round : Poll → Poll
failed_round p = record p { failures = p.failures + 1 }

-- The reading's part of the round, which also tells whether the backoff of the device is reset.
unfoldable pub read_part : PollSettings → String → PollRound → Poll → Exec Service (Poll × Bool)
unfolding is_good set_columns
read_part settings key r p s = elim r.snapshot [
  | err e ↦ (ok (failed_round p, false), s)
  | ok snapshot ↦
      (let (result, t) = record_snapshot key r.ref snapshot r.now s.telemetry in
        let recorded = with_telemetry (λ _. t) s in
        elim result [
          | err e ↦ (err e, recorded)
          | ok _ ↦
              (if is_good r t.stale_after p snapshot
                then (
                  ok (
                    record p {
                      last_observed = some snapshot.observed_at;
                      failures = 0;
                      last_valid = r.clock;
                    },
                    leb settings.stable_after (r.clock - p.stable_since),
                  ),
                  set_columns key (record no_patch { observed_state = some "polling" }) recorded,
                )
                else (ok (failed_round p, false), recorded))
        ])
]

-- The part that the failures cause.
unfoldable pub degrade : PollSettings → String → PollRound → Poll → Service → Poll × Service
unfolding set_columns
degrade settings key r p s = if p.failures == 0 then (p, s) else (
  record p { stable_since = r.clock },
  if leb settings.degraded_after p.failures
      then with_telemetry (connection key "degraded" r.now r.now r.now)
          (set_columns key (record no_patch { observed_state = some "degraded" }) s)
      else s,
)

-- The round behind the reading, which may end the task.
unfoldable pub end_round :
    PollSettings → String → PollRound → Poll → Bool → Exec Service (Option Poll × Bool)
unfolding degrade set_columns schedule_recovery
end_round settings key r p resets s =
    let (q, t) = degrade settings key r p s in
    if not r.is_connected || leb settings.reconnect_after (r.clock - q.last_valid)
    then (
      ok (none, resets),
      schedule_recovery key false (
          with_telemetry (connection key "backoff" r.now r.now r.now) (
            set_columns key (record no_patch { observed_state = some "backoff" })
              (record t { last_error = some "device_read_failed" }))),
    )
    else (ok (some q, resets), t)

-- One round behind the sleep: the variables if the task goes on, and none if it ends.
unfoldable pub poll_round :
    PollSettings → String → PollRound → Poll → Exec Service (Option Poll × Bool)
unfolding read_part end_round
poll_round settings key r p s =
    if not (s.connected_device == some key)
    then (ok (none, false), s)
    else (do read ← read_part settings key r p; end_round settings key r read.0 read.1) s
