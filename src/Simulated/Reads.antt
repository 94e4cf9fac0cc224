-- ===== src/Simulated/Reads.antt =====
-- The snapshots of the simulated adapter (src/pitblu_core/adapters/simulated.py).
use pitblu_core.Prelude.{
  All, Bool-cases, List, Option, [], ap, arith, inl, inr, length, map, none, not, ok, refl, some,
  subst, sym, true, ℕ, ◌+◌, ◌∙◌, ◌∷◌, ◌≡◌, ◌≢◌, ◌≤◌,
}
use pitblu_core.Models.{Datetime, DeviceSnapshot, ProbeReading, numbers, probe_reading}
use pitblu_core.Models.Checks.{Distinct, IsValidSnapshot, device_snapshot_iff}
use pitblu_core.Simulated.{
  SimulatedIgrillAdapter, SimulatedProbe, clock_or, five_seconds_on, moved, simulate_probes,
  simulate_snapshot, simulated_reading, simulated_snapshot,
}

-- The readings of the probes from a number on, each from its own probe as it is after its move
abbrev pub simulated_readings : Datetime → ℕ → ℕ → List SimulatedProbe → List ProbeReading
simulated_readings time sequence number [] = []
simulated_readings time sequence number (p ∷ ps) =
    simulated_reading time sequence number (moved p)
    ∷ simulated_readings time sequence (number + 1) ps

simulated_reading_is_made :
    (time : Datetime) (sequence number : ℕ) (p : SimulatedProbe)
    → time.aware ≡ true
    → 1 ≤ sequence
    → 1 ≤ number
    → number ≤ 4
    → probe_reading (simulated_reading time sequence number p)
      ≡ ok (simulated_reading time sequence number p)
unfolding simulated_reading probe_reading
simulated_reading_is_made time sequence number p t s lo hi = elim (Bool-cases p.present) [
  | inl here ↦ rw here (ground (arith, t))
  | inr gone ↦ rw gone (ground (arith, t))
]

simulate_probes_lem :
    (time : Datetime) (sequence number : ℕ) (ps : List SimulatedProbe)
    → time.aware ≡ true
    → 1 ≤ sequence
    → 1 ≤ number
    → number + length ps ≤ 5
    → simulate_probes time sequence number ps
      ≡ (ok (simulated_readings time sequence number ps), map moved ps)
unfolding simulate_probes
simulate_probes_lem time sequence number [] t s lo hi = refl
simulate_probes_lem time sequence number (p ∷ ps) t s lo hi = rw (
  simulated_reading_is_made time sequence number (moved p) t s lo (omega arith),
  simulate_probes_lem time sequence (number + 1) ps t s (omega arith) (omega arith),
)

length-simulated_readings :
    (time : Datetime) (sequence number : ℕ) (ps : List SimulatedProbe)
    → length (simulated_readings time sequence number ps) ≡ length ps
length-simulated_readings time sequence number [] = refl
length-simulated_readings time sequence number (p ∷ ps) =
    omega (arith, length-simulated_readings time sequence (number + 1) ps)

length-numbers : (rs : List ProbeReading) → length (numbers rs) ≡ length rs
length-numbers [] = refl
length-numbers (r ∷ rs) = omega (arith, length-numbers rs)

numbers_above :
    (time : Datetime) (sequence k number : ℕ) (ps : List SimulatedProbe)
    → k + 1 ≤ number
    → All (λ m. k ≢ m) (numbers (simulated_readings time sequence number ps))
unfolding simulated_reading
numbers_above time sequence k number [] h = tt
numbers_above time sequence k number (p ∷ ps) h =
    (ground (arith, h), numbers_above time sequence k (number + 1) ps (omega arith))

numbers-Distinct :
    (time : Datetime) (sequence number : ℕ) (ps : List SimulatedProbe)
    → Distinct (numbers (simulated_readings time sequence number ps))
unfolding simulated_reading
numbers-Distinct time sequence number [] = tt
numbers-Distinct time sequence number (p ∷ ps) = (
  numbers_above time sequence number (number + 1) ps (omega arith),
  numbers-Distinct time sequence (number + 1) ps,
)

-- A snapshot that can be constructed, of a number of probes
abbrev pub IsSnapshotOf : ℕ → DeviceSnapshot → Type 0
IsSnapshotOf n s = IsValidSnapshot s × (length s.probes ≡ n)

abbrev pub Remembers : ℕ → Option DeviceSnapshot → Type 0
Remembers n none = Unit
Remembers n (some s) = IsSnapshotOf n s

-- The adapter has its probes, a percentage and a time with a zone.
pub record IsSimulator (n : ℕ) (a : SimulatedIgrillAdapter) : Type 0 where
  pub from_one : 1 ≤ n
  pub to_four : n ≤ 4
  pub counted : a.probe_count ≡ n
  pub all_probes : length a.probes ≡ n
  pub percent : a.battery_percent ≤ 100
  pub aware : a.time.aware ≡ true
  pub remembered : Remembers n a.last_snapshot

-- The adapter with which a new snapshot is made
abbrev pub on_read : Datetime → SimulatedIgrillAdapter → SimulatedIgrillAdapter
on_read now a = record a {
  sequence = a.sequence + 1;
  time = clock_or now (five_seconds_on a.time) a;
  probes = map moved a.probes;
}

abbrev pub readings_on : Datetime → SimulatedIgrillAdapter → List ProbeReading
readings_on now a =
    simulated_readings (clock_or now (five_seconds_on a.time) a) (a.sequence + 1) 1 a.probes

aware_clock :
    (now other : Datetime) (a : SimulatedIgrillAdapter)
    → now.aware ≡ true
    → other.aware ≡ true
    → (clock_or now other a).aware ≡ true
aware_clock now other a h k = ground (arith, h, k)

pub snapshot_on-IsSnapshotOf :
    (n : ℕ) (now : Datetime) (a : SimulatedIgrillAdapter)
    → IsSimulator n a
    → now.aware ≡ true
    → IsSnapshotOf n (simulated_snapshot (on_read now a) (readings_on now a))
snapshot_on-IsSnapshotOf n now a v h =
    let time = clock_or now (five_seconds_on a.time) a in
    let t = aware_clock now (five_seconds_on a.time) a h v.aware in
    let made = length-simulated_readings time (a.sequence + 1) 1 a.probes ∙ v.all_probes in
    let numbered = length-numbers (readings_on now a) ∙ made in
    (
      record {
        some_probe = omega (arith, numbered, v.from_one);
        few_probes = omega (arith, numbered, v.to_four);
        unique = numbers-Distinct time (a.sequence + 1) 1 a.probes;
        aware = t;
        positive = omega arith;
        in_percent = λ b e. ground (arith, e, v.percent);
        measured = inr refl;
        battery_aware = refl;
        success_aware = ap not t;
      },
      made,
    )

pub simulate_snapshot_lem :
    (n : ℕ) (now : Datetime) (a : SimulatedIgrillAdapter)
    → IsSimulator n a
    → now.aware ≡ true
    → simulate_snapshot now a ≡ (
        let s = simulated_snapshot (on_read now a) (readings_on now a) in
        (ok s, record (on_read now a) { last_snapshot = some s }))
unfolding simulate_snapshot
simulate_snapshot_lem n now a v h =
    let time = clock_or now (five_seconds_on a.time) a in
    let t = aware_clock now (five_seconds_on a.time) a h v.aware in
    let s = simulated_snapshot (on_read now a) (readings_on now a) in
    rw (
      simulate_probes_lem time (a.sequence + 1) 1 a.probes t (omega arith) (omega arith)
          (omega (arith, v.all_probes, v.to_four)),
      (device_snapshot_iff s).1 (snapshot_on-IsSnapshotOf n now a v h).0,
    )

length-moved : (ps : List SimulatedProbe) → length (map moved ps) ≡ length ps
length-moved [] = refl
length-moved (p ∷ ps) = omega (arith, length-moved ps)

pub simulate_snapshot-IsSimulator :
    (n : ℕ) (now : Datetime) (a : SimulatedIgrillAdapter)
    → IsSimulator n a
    → now.aware ≡ true
    → IsSimulator n (simulate_snapshot now a).1
simulate_snapshot-IsSimulator n now a v h =
    subst (λ x. IsSimulator n x.1) (sym (simulate_snapshot_lem n now a v h))
      (record {
        from_one = v.from_one;
        to_four = v.to_four;
        counted = v.counted;
        all_probes = length-moved a.probes ∙ v.all_probes;
        percent = v.percent;
        aware = aware_clock now (five_seconds_on a.time) a h v.aware;
        remembered = snapshot_on-IsSnapshotOf n now a v h;
      })
