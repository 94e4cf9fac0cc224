-- ===== src/Telemetry/Staleness.antt =====
-- Which readings are shown, and when they stop being shown (src/pitblu_core/telemetry.py).
use mathlib.Core.Option.{map as map_option}
use pitblu_core.Prelude.{
  ==-refl, ==_iff, All, Dict, List, Option, String, [], ap, arith, false, inr, lookup, map, nat_eq,
  none, option_eq, refl, some, string_eq, subst, sym, true, ℕ, ◌+◌, ◌↔◌, ◌∙◌, ◌∷◌, ◌≡◌, ◌≤◌, ◌⊎◌,
}
use pitblu_core.Models.{Datetime, ProbeReading}
use pitblu_core.Telemetry.{CurrentSnapshot, Draft, TelemetryState, announce, announce_all}
use pitblu_core.Telemetry.Snapshots.{
  announce_lost, lost_drafts, mark_entry, mark_stale, snapshot_deadline,
}
use pitblu_core.Telemetry.Views.{ProbeView, entry_probes, probe_view, probes}

pub current-announce_all :
    (device : String) (ds : List Draft) (s : TelemetryState)
    → (announce_all device ds s).current ≡ s.current
unfolding announce_all announce
current-announce_all device [] s = refl
current-announce_all device (d ∷ ds) s = current-announce_all device ds (announce device d s)

current-announce_lost :
    (now : Datetime) (reason : String) (due : List (String × CurrentSnapshot)) (s : TelemetryState)
    → (announce_lost now reason due s).current ≡ s.current
unfolding announce_lost
current-announce_lost now reason [] s = refl
current-announce_lost now reason ((device, c) ∷ rest) s =
    current-announce_lost now reason rest
      (announce_all device (lost_drafts c.snapshot now reason) s)
    ∙ current-announce_all device (lost_drafts c.snapshot now reason) s

pub current-mark_stale :
    (now : Datetime) (force : Option String) (reason : String) (s : TelemetryState)
    → (mark_stale now force reason s).1.current
      ≡ map (mark_entry s.stale_after now.micros force) s.current
unfolding mark_stale
current-mark_stale now force reason s = current-announce_lost now reason _ _

-- What `mark_stale` makes of the entry of a device.
abbrev pub marked : ℕ → ℕ → Option String → String → CurrentSnapshot → CurrentSnapshot
marked stale_after now force device c = (mark_entry stale_after now force (device, c)).1

pub lookup-map-mark_entry :
    (stale_after now : ℕ) (force : Option String) (device : String)
    (d : Dict String CurrentSnapshot)
    → lookup device (map (mark_entry stale_after now force) d)
      ≡ map_option (marked stale_after now force device) (lookup device d)
unfolding lookup
lookup-map-mark_entry a n force device [] = refl
lookup-map-mark_entry a n force device ((j, c) ∷ d) =
    ground (arith, ==_iff j device, lookup-map-mark_entry a n force device d)

module _ (now : Datetime) (force : Option String) (reason : String) (s : TelemetryState)
    (device : String) (c : CurrentSnapshot) (known : lookup device s.current ≡ some c) where
  pub lookup-mark_stale :
      lookup device (mark_stale now force reason s).1.current
      ≡ some (marked s.stale_after now.micros force device c)
  lookup-mark_stale =
      ap (lookup device) (current-mark_stale now force reason s)
      ∙ lookup-map-mark_entry s.stale_after now.micros force device s.current
      ∙ ap (map_option (marked s.stale_after now.micros force device)) known

  -- `mark_stale` leaves a known device its snapshot, and the device is stale afterwards exactly if it
  -- was before, if it is the forced one, or if its snapshot is at least `stale_after` old.
  pub mark_stale_exact :
      (c' : CurrentSnapshot) × (lookup device (mark_stale now force reason s).1.current ≡ some c')
      × (c'.snapshot ≡ c.snapshot)
      × ((c'.stale ≡ true) ↔ (
          (c.stale ≡ true)
          ⊎ (force ≡ some device)
          ⊎ (c.snapshot.observed_at.micros + s.stale_after ≤ now.micros)))
  mark_stale_exact = (
    marked s.stale_after now.micros force device c,
    lookup-mark_stale,
    ground arith,
    (
      λ h. ground (arith, ==_iff force (some device)),
      λ h. ground (arith, ==_iff force (some device)),
    ),
  )

-- Nothing of the reading is shown as a current one.
abbrev pub IsHidden : ProbeView → Type 0
IsHidden v = (v.available ≡ false) × (v.fresh ≡ false) × (v.temperature_c ≡ none)

All-IsHidden : (ps : List ProbeReading) → All IsHidden (map (probe_view true) ps)
unfolding probe_view
All-IsHidden [] = tt
All-IsHidden (p ∷ ps) = (ground arith, All-IsHidden ps)

IsHidden-probes :
    (device : String) (s : TelemetryState) (c : CurrentSnapshot)
    → lookup device s.current ≡ some c
    → c.stale ≡ true
    → All IsHidden (probes device s)
unfolding probes
IsHidden-probes device s c e h =
    subst (λ o. All IsHidden (entry_probes o)) (sym e)
      (subst (λ b. All IsHidden (map (probe_view b) c.snapshot.probes)) (sym h)
        (All-IsHidden c.snapshot.probes))

-- When the timer of the current snapshot has waited until the snapshot is `stale_after` old, none of
-- its readings is shown as available or fresh any more, and none shows a temperature.
pub snapshot_deadline_hides :
    (device : String) (now : Datetime) (s : TelemetryState) (c : CurrentSnapshot)
    → lookup device s.current ≡ some c
    → c.snapshot.observed_at.micros + s.stale_after ≤ now.micros
    → All IsHidden (probes device (snapshot_deadline device c.ref now s))
unfolding snapshot_deadline
snapshot_deadline_hides device now s c e h =
    let (c', e', _, exact) = mark_stale_exact now none "stale" s device c e in
    rw (e, snapshot_deadline, ==-refl c.ref)
      (IsHidden-probes device (mark_stale now none "stale" s).1 c' e' (exact.1 (inr (inr h))))
