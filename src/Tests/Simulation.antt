-- ===== src/Tests/Simulation.antt =====
-- The simulated adapter (src/pitblu_core/adapters/simulated.py).
use pitblu_core.Prelude.{List, [], false, map, negsuc, none, ok, pos, refl, some, true, ◌∷◌, ◌≡◌}
use pitblu_core.Models.{device_snapshot, length_set, probe_reading}
use pitblu_core.Protocol.{Celsius}
use pitblu_core.Simulated.{
  SimulatedIgrillAdapter, candidate, connect_simulated, default_start, is_connected, moved,
  nearest_tenth, new_adapter, new_probes, read_simulated, rising, round_tenth, simulate_probes,
  simulate_snapshot, simulated_adapter, simulated_reading,
}
use pitblu_core.Simulated.Calls.{
  ReadsOrRefuses, SimulatedCall, call_all, call_once, configures, connects_to, reads, sets_battery,
  sets_stale,
}
use pitblu_core.Simulated.Controls.{configure_probe, set_battery_percent}
use pitblu_core.Simulated.Total.{read_simulated_total}

abbrev fresh : SimulatedIgrillAdapter
fresh = new_adapter 1 default_start false

fresh_is_made : simulated_adapter 1 none false ≡ ok fresh
unfolding simulated_adapter
fresh_is_made = refl

-- The probe rises by 1.25 degrees with each read; the second snapshot is then shown again.
abbrev warming : List SimulatedCall
warming =
    configures 1 none (some (pos 21000)) (some rising) (some (pos 1250))
    ∷ connects_to candidate default_start
    ∷ reads default_start
    ∷ reads default_start
    ∷ sets_battery 101
    ∷ sets_stale true
    ∷ []

read_simulated_total_example : ReadsOrRefuses 1 default_start (call_all warming fresh)
read_simulated_total_example =
    read_simulated_total 1 none false fresh warming default_start fresh_is_made
      (tt, (tt, (refl, (refl, (tt, (tt, tt)))))) refl

abbrev rounded : Celsius → Celsius
rounded = round_tenth

half_way_to_even : (rounded (pos 22250) ≡ pos 22200) × (rounded (negsuc 349) ≡ negsuc 399)
unfolding round_tenth nearest_tenth
half_way_to_even = (refl, refl)

twice_moved : map (λ p. p.temperature_c) (call_all warming fresh).probes ≡ pos 23500 ∷ []
unfolding call_all call_once read_simulated simulate_snapshot simulate_probes probe_reading
    device_snapshot is_connected connect_simulated configure_probe set_battery_percent new_probes
    moved simulated_reading length_set
twice_moved = refl
