-- ===== src/Tests/Adapter.antt =====
-- The adapter of the physical thermometer (src/pitblu_core/adapters/igrill_v202.py).
use pitblu_core.Prelude.{
  [], any, foreign_error, if◌then◌else◌, is_some, nat_eq, none, ok, refl, some, string_eq, true,
  ◌&&◌, ◌==◌, ◌||◌, ◌∷◌, ◌≡◌,
}
use pitblu_core.Models.{DeviceSnapshot}
use pitblu_core.Models.Checks.{IsValidSnapshot}
use pitblu_core.Igrill.Discovery.{temperature_service}
use pitblu_core.Igrill.Session.{Connecting}
use pitblu_core.Igrill.Rounds.{Round, battery_result, probe_numbers, probe_result, read_snapshot}
use pitblu_core.Igrill.{IgrillAdapter, failed, returned, timed_out}
use pitblu_core.Igrill.Reads.{IsSound, battery_is_read, is_ok, read_snapshot_total, readings_of}

abbrev thermometer : IgrillAdapter
thermometer = record {
  name_prefix = "iGrill_V202-";
  native_by_id = [];
  client = some 1;
  sequence = 4;
  battery_interval = 300;
  battery_due = 0;
  battery_percent = none;
  battery_observed_at = none;
}

-- Only the second probe is read.
abbrev poor_round : Round
poor_round = record {
  observed_at = 10;
  battery_checked = 10;
  battery = timed_out;
  battery_succeeded_at = 11;
  battery_observed_at = 11;
  battery_done = 11;
  probe = λ n. if n == 2 then returned (63 ∷ 0 ∷ []) else failed (foreign_error "BleakError");
  probe_succeeded_at = λ n. 12;
}

read_snapshot_total_example :
    (s : DeviceSnapshot) × (b : IgrillAdapter) × (read_snapshot true poor_round thermometer
      ≡ (ok s, b))
    × (s.probes ≡ readings_of poor_round 5 probe_numbers)
    × (s.sequence ≡ 5)
    × (b.sequence ≡ 5)
    × IsValidSnapshot s
    × IsSound b
    × (is_some s.successful_communication_at ≡ (
        battery_is_read poor_round thermometer && is_ok (battery_result poor_round)
        || any (λ n. is_ok (probe_result poor_round n)) probe_numbers))
read_snapshot_total_example = read_snapshot_total poor_round thermometer refl (refl, refl)

abbrev impostor : Connecting
impostor = record {
  connection = returned [];
  services = temperature_service ∷ [];
  challenge_written = returned [];
  challenge = returned (1 ∷ 2 ∷ []);
  response_written = returned [];
}
