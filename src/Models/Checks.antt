-- ===== src/Models/Checks.antt =====
-- The readings and snapshots of src/pitblu_core/models.py that can be constructed, described
-- without the checks.
use pitblu_core.Prelude.{
  All, Bool-cases, List, Option-cases, [], any, arith, false, inl, inr, length, nat_eq, none, ok,
  refl, some, true, ℕ, ◌==◌, ◌↔◌, ◌∷◌, ◌≡◌, ◌≢◌, ◌≤◌, ◌⊎◌,
}
use pitblu_core.Models.{
  DeviceSnapshot, ProbeReading, above_100, device_snapshot, is_naive, length_set, numbers,
  probe_reading,
}

pub record IsValidReading (p : ProbeReading) : Type 0 where
  pub from_one : 1 ≤ p.number
  pub to_four : p.number ≤ 4
  pub aware : p.observed_at.aware ≡ true
  pub positive : 1 ≤ p.sequence
  pub measured : p.temperature_c ≡ none ⊎ (p.available ≡ true) × (p.present ≡ true)

-- A probe reading can be constructed, unchanged, exactly if its number is 1 to 4, its time has a
-- zone, its sequence is positive, and a temperature comes only from an available, present probe.
probe_reading_iff : (p : ProbeReading) → (probe_reading p ≡ ok p) ↔ IsValidReading p
unfolding probe_reading
probe_reading_iff p = (λ h. ground arith, λ v. ground arith)

-- No two entries are equal.
abbrev pub Distinct : List ℕ → Type 0
Distinct [] = Unit
Distinct (n ∷ ns) = All (λ m. n ≢ m) ns × Distinct ns

absent : (n : ℕ) (ns : List ℕ) → any (λ m. n == m) ns ≡ false → All (λ m. n ≢ m) ns
absent n [] h = tt
absent n (m ∷ ns) h = (ground arith, absent n ns (ground arith))

not_any : (n : ℕ) (ns : List ℕ) → All (λ m. n ≢ m) ns → any (λ m. n == m) ns ≡ false
not_any n [] h = refl
not_any n (m ∷ ns) h = ground (arith, not_any n ns h.1)

length_set-le : (ns : List ℕ) → length_set ns ≤ length ns
unfolding length_set
length_set-le [] = omega arith
length_set-le (n ∷ ns) = ground (arith, length_set-le ns)

length_set-Distinct : (ns : List ℕ) → length_set ns ≡ length ns → Distinct ns
unfolding length_set
length_set-Distinct [] h = tt
length_set-Distinct (n ∷ ns) h = elim (Bool-cases (any (λ m. n == m) ns)) [
  | inl e ↦ absurd (ground (arith, length_set-le ns))
  | inr e ↦ (absent n ns e, length_set-Distinct ns (ground arith))
]

Distinct-length_set : (ns : List ℕ) → Distinct ns → length_set ns ≡ length ns
unfolding length_set
Distinct-length_set [] h = refl
Distinct-length_set (n ∷ ns) h = ground (arith, not_any n ns h.0, Distinct-length_set ns h.1)

pub record IsValidSnapshot (s : DeviceSnapshot) : Type 0 where
  pub some_probe : 1 ≤ length (numbers s.probes)
  pub few_probes : length (numbers s.probes) ≤ 4
  pub unique : Distinct (numbers s.probes)
  pub aware : s.observed_at.aware ≡ true
  pub positive : 1 ≤ s.sequence
  pub in_percent : (b : ℕ) → s.battery_percent ≡ some b → b ≤ 100
  pub measured : s.battery_percent ≡ none ⊎ s.battery_available ≡ true
  pub battery_aware : is_naive s.battery_observed_at ≡ false
  pub success_aware : is_naive s.successful_communication_at ≡ false

in_percent_test : (s : DeviceSnapshot) → IsValidSnapshot s → above_100 s.battery_percent ≡ false
in_percent_test s v = elim (Option-cases s.battery_percent) [
  | inl e ↦ rw e
  | inr (b, e) ↦ rw e (ground (arith, v.in_percent b e))
]

-- A snapshot can be constructed, unchanged, exactly if it has one to four probes of distinct
-- numbers, a positive sequence, a battery percentage of at most 100 only from an available battery,
-- and times that all have a zone.
pub device_snapshot_iff : (s : DeviceSnapshot) → (device_snapshot s ≡ ok s) ↔ IsValidSnapshot s
unfolding device_snapshot
device_snapshot_iff s = (
  λ h. record {
    some_probe = ground arith;
    few_probes = ground arith;
    unique = length_set-Distinct (numbers s.probes) (ground arith);
    aware = ground arith;
    positive = ground arith;
    in_percent = λ b e. ground arith;
    measured = ground arith;
    battery_aware = ground arith;
    success_aware = ground arith;
  },
  λ v. ground (arith, Distinct-length_set (numbers s.probes) v.unique, in_percent_test s v),
)
