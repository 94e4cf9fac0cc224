-- ===== src/Simulated/Controls.antt =====
-- What a test sets on the simulated adapter (src/pitblu_core/adapters/simulated.py).
use pitblu_core.Prelude.{
  Bool, Exec, List, Option, [], err, false, if◌then◌else◌, leb, nat_eq, negsuc, none, not, ok, pos,
  reject_if, some, string_eq, suc, true, value_error, zero, ℕ, ◌&&◌, ◌-◌, ◌∷◌,
}
use pitblu_core.Protocol.{Celsius}
use pitblu_core.Simulated.{SimulatedIgrillAdapter, SimulatedProbe, TemperaturePattern}

-- `_get_probe`, with the change of the probe that it finds
abbrev pub change_at :
    ℕ → (SimulatedProbe → SimulatedProbe) → List SimulatedProbe → List SimulatedProbe
change_at n f [] = []
change_at zero f (p ∷ ps) = f p ∷ ps
change_at (suc n) f (p ∷ ps) = p ∷ change_at n f ps

abbrev pub or_old : {A : Type 0} → Option A → A → A
or_old none old = old
or_old (some new) old = new

abbrev pub is_negative : Option Celsius → Bool
is_negative (some (negsuc n)) = true
is_negative (some (pos n)) = false
is_negative none = false

-- `configure_probe`: a rate that is refused leaves the changes before it.
unfoldable pub configure_probe :
    ℕ
    → Option Bool
    → Option Celsius
    → Option TemperaturePattern
    → Option Celsius
    → Exec SimulatedIgrillAdapter (Unit {0})
configure_probe number present temperature_c pattern rate a =
    let change : SimulatedProbe → SimulatedProbe = λ p. record {
      present = or_old present p.present;
      temperature_c = or_old temperature_c p.temperature_c;
      pattern = or_old pattern p.pattern;
      rate_c_per_read =
          if is_negative rate then p.rate_c_per_read else or_old rate p.rate_c_per_read;
    } in
    if not (leb 1 number && leb number a.probe_count)
    then (err (value_error "probe number is outside the simulated range"), a)
    else (
      reject_if (is_negative rate) (value_error "probe rate must not be negative") (ok tt),
      record a { probes = change_at (number - 1) change a.probes },
    )

unfoldable pub set_battery_percent : ℕ → Exec SimulatedIgrillAdapter (Unit {0})
set_battery_percent value a =
    if not (leb value 100)
    then (err (value_error "battery percentage must be between 0 and 100"), a)
    else (ok tt, record a { battery_percent = value })

unfoldable pub set_connection_available : Bool → SimulatedIgrillAdapter → SimulatedIgrillAdapter
set_connection_available available a = record a {
  connection_available = available;
  connected = available && a.connected;
}

abbrev pub set_stale : Bool → SimulatedIgrillAdapter → SimulatedIgrillAdapter
set_stale stale a = record a { is_stale = stale }
