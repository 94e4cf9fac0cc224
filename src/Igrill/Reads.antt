-- ===== src/Igrill/Reads.antt =====
-- The snapshots that the adapter of src/pitblu_core/adapters/igrill_v202.py reads.
use pitblu_core.Prelude.{
  All, Bool, List, Option, Result, [], any, ap, arith, bind_result, err, false, inl, inr, is_some,
  leb, nat_eq, none, not, ok, refl, some, string_eq, subst, sym, true, ℕ, ◌&&◌, ◌+◌, ◌||◌, ◌∙◌, ◌∷◌,
  ◌≡◌, ◌≤◌, ◌⊎◌,
}
use pitblu_core.Protocol.{Celsius, decode_battery_percent}
use pitblu_core.Models.{
  Datetime, DeviceSnapshot, ProbeReading, above_100, is_naive, numbers, physical, probe_reading,
  utc,
}
use pitblu_core.Models.Checks.{Distinct, IsValidSnapshot, device_snapshot_iff}
use pitblu_core.Igrill.Rounds.{
  Round, battery_result, later, probe_numbers, probe_result, read_battery, read_probes,
  read_snapshot, reading_of, time_of, value_of,
}
use pitblu_core.Igrill.{IgrillAdapter, bounded}

-- The readings of the probes, each from the answer for that probe alone.
abbrev pub readings_of : Round → ℕ → List ℕ → List ProbeReading
readings_of r sequence [] = []
readings_of r sequence (n ∷ ns) =
    reading_of r sequence n (probe_result r n) ∷ readings_of r sequence ns

-- The time of the last success, of those before it and those of the probes.
abbrev pub last_success : Round → List ℕ → Option Datetime → Option Datetime
last_success r [] success = success
last_success r (n ∷ ns) success =
    last_success r ns (later (time_of (probe_result r n) (r.probe_succeeded_at n)) success)

abbrev pub IsProbe : ℕ → Type 0
IsProbe n = (1 ≤ n) × (n ≤ 4)

reading_is_made :
    (r : Round) (sequence n : ℕ) (result : Result (Option Celsius))
    → 1 ≤ sequence
    → IsProbe n
    → probe_reading (reading_of r sequence n result) ≡ ok (reading_of r sequence n result)
unfolding reading_of probe_reading
reading_is_made r sequence n (err e) h k = ground arith
reading_is_made r sequence n (ok none) h k = ground arith
reading_is_made r sequence n (ok (some t)) h k = ground arith

read_probes_lem :
    (r : Round) (sequence : ℕ) (ns : List ℕ) (success : Option Datetime)
    → 1 ≤ sequence
    → All IsProbe ns
    → read_probes r sequence ns success ≡ ok (readings_of r sequence ns, last_success r ns success)
unfolding read_probes
read_probes_lem r sequence [] success h k = refl
read_probes_lem r sequence (n ∷ ns) success h k = rw (
  reading_is_made r sequence n (probe_result r n) h k.0,
  read_probes_lem r sequence ns
      (later (time_of (probe_result r n) (r.probe_succeeded_at n)) success) h k.1,
)

number_of :
    (r : Round) (sequence n : ℕ) (result : Result (Option Celsius))
    → (reading_of r sequence n result).number ≡ n
unfolding reading_of
number_of r sequence n (err e) = refl
number_of r sequence n (ok t) = refl

aware_success :
    (r : Round) (ns : List ℕ) (o : Option Datetime)
    → is_naive o ≡ false
    → is_naive (last_success r ns o) ≡ false
aware_success r [] o h = h
aware_success r (n ∷ ns) o h = aware_success r ns _ (aware_later (probe_result r n) o h)
  where
    aware_later :
        (result : Result (Option Celsius)) (old : Option Datetime)
        → is_naive old ≡ false
        → is_naive (later (time_of result (r.probe_succeeded_at n)) old) ≡ false
    aware_later (ok t) old k = refl
    aware_later (err e) old k = k

abbrev pub is_ok : {A : Type 0} → Result A → Bool
is_ok (ok a) = true
is_ok (err e) = false

is_some-later :
    (result : Result (Option Celsius)) (t : ℕ) (old : Option Datetime)
    → is_some (later (time_of result t) old) ≡ (is_ok result || is_some old)
is_some-later (ok x) t old = refl
is_some-later (err e) t old = refl

success_is_some :
    (r : Round) (ns : List ℕ) (o : Option Datetime)
    → is_some (last_success r ns o) ≡ (is_some o || any (λ n. is_ok (probe_result r n)) ns)
success_is_some r [] o = ground arith
success_is_some r (n ∷ ns) o = ground (
  arith,
  success_is_some r ns (later (time_of (probe_result r n) (r.probe_succeeded_at n)) o),
  is_some-later (probe_result r n) (r.probe_succeeded_at n) o,
)

-- What the adapter remembers of the battery is a percentage, and its time has a zone.
abbrev pub IsSound : IgrillAdapter → Type 0
IsSound a = (above_100 a.battery_percent ≡ false) × (is_naive a.battery_observed_at ≡ false)

decoded_percent : (payload : List ℕ) → above_100 (value_of (decode_battery_percent payload)) ≡ false
unfolding decode_battery_percent
decoded_percent [] = refl
decoded_percent (v ∷ []) = ground arith
decoded_percent (v ∷ w ∷ vs) = refl

percent_test :
    (answer : Result (List ℕ))
    → above_100 (value_of (bind_result answer decode_battery_percent)) ≡ false
percent_test (ok bytes) = decoded_percent bytes
percent_test (err e) = refl

battery_percent_test : (r : Round) → above_100 (value_of (battery_result r)) ≡ false
unfolding battery_result
battery_percent_test r = percent_test (bounded r.battery "battery read timed out")

-- Whether the battery is read in a round.
abbrev pub battery_is_read : Round → IgrillAdapter → Bool
battery_is_read r a = not (is_some a.battery_percent) || leb a.battery_due r.battery_checked

read_battery-IsSound : (r : Round) (a : IgrillAdapter) → IsSound a → IsSound (read_battery r a).1
unfolding read_battery
read_battery-IsSound r a v = ground (arith, battery_percent_test r)

aware_time : {A : Type 0} (result : Result A) (t : ℕ) → is_naive (time_of result t) ≡ false
aware_time (ok a) t = refl
aware_time (err e) t = refl

read_battery_aware : (r : Round) (a : IgrillAdapter) → is_naive (read_battery r a).0 ≡ false
unfolding read_battery
read_battery_aware r a = ground (arith, aware_time (battery_result r) r.battery_succeeded_at)

numbers_of : (r : Round) (sequence : ℕ) (ns : List ℕ) → numbers (readings_of r sequence ns) ≡ ns
numbers_of r sequence [] = refl
numbers_of r sequence (n ∷ ns) =
    rw (number_of r sequence n (probe_result r n), numbers_of r sequence ns)

read_battery_success :
    (r : Round) (a : IgrillAdapter)
    → is_some (read_battery r a).0 ≡ (battery_is_read r a && is_ok (battery_result r))
unfolding read_battery
read_battery_success r a = ground (arith, time_is_some (battery_result r) r.battery_succeeded_at)
  where
    time_is_some : (result : Result ℕ) (t : ℕ) → is_some (time_of result t) ≡ is_ok result
    time_is_some (ok v) t = refl
    time_is_some (err e) t = refl

read_battery_sequence : (r : Round) (a : IgrillAdapter) → (read_battery r a).1.sequence ≡ a.sequence
unfolding read_battery
read_battery_sequence r a = ground arith

measured_test : (o : Option ℕ) → o ≡ none ⊎ is_some o ≡ true
measured_test none = inl refl
measured_test (some p) = inr refl

-- A round of reads over a connected client always yields a snapshot, whatever the thermometer
-- answers to each read: no failure of one read loses the others, since each probe's reading is made
-- from the answer for that probe alone. The snapshot has the next number and is one that can be
-- constructed, it tells a success exactly if some read of the round succeeded, and the adapter is
-- sound again, which it is before.
pub read_snapshot_total :
    (r : Round) (a : IgrillAdapter)
    → is_some a.client ≡ true
    → IsSound a
    → (s : DeviceSnapshot) × (b : IgrillAdapter) × (read_snapshot true r a ≡ (ok s, b))
      × (s.probes ≡ readings_of r (a.sequence + 1) probe_numbers)
      × (s.sequence ≡ a.sequence + 1)
      × (b.sequence ≡ a.sequence + 1)
      × IsValidSnapshot s
      × IsSound b
      × (is_some s.successful_communication_at ≡ (
          battery_is_read r a && is_ok (battery_result r)
          || any (λ n. is_ok (probe_result r n)) probe_numbers))
unfolding read_snapshot
read_snapshot_total r a h v =
    let sequence = a.sequence + 1 in
    let start : IgrillAdapter = record a { sequence = sequence } in
    let success = (read_battery r start).0 in
    let b = (read_battery r start).1 in
    let s : DeviceSnapshot = record {
      model = "igrill-v202";
      probes = readings_of r sequence probe_numbers;
      battery_percent = b.battery_percent;
      battery_available = is_some b.battery_percent;
      observed_at = utc r.observed_at;
      sequence = sequence;
      source = physical;
      battery_observed_at = b.battery_observed_at;
      successful_communication_at = last_success r probe_numbers success;
    } in
    let reads = read_probes_lem r sequence probe_numbers success (omega arith) (
      (omega arith, omega arith),
      ((omega arith, omega arith), ((omega arith, omega arith), ((omega arith, omega arith), tt))),
    ) in
    let sound = read_battery-IsSound r start v in
    let valid : IsValidSnapshot s = record {
      some_probe = omega arith;
      few_probes = omega arith;
      unique = subst Distinct (sym (numbers_of r sequence probe_numbers)) (ground arith);
      aware = refl;
      positive = omega arith;
      in_percent = λ p e. ground (arith, sound.0);
      measured = measured_test b.battery_percent;
      battery_aware = sound.1;
      success_aware = aware_success r probe_numbers success (read_battery_aware r start);
    } in
    (
      s,
      b,
      rw (h, reads, (device_snapshot_iff s).1 valid),
      refl,
      refl,
      read_battery_sequence r start,
      valid,
      sound,
      (success_is_some r probe_numbers success
          ∙ ap (λ x. x || any (λ n. is_ok (probe_result r n)) probe_numbers)
              (read_battery_success r start)),
    )
