-- ===== src/Simulated/Calls.antt =====
-- Any calls of the simulated adapter (src/pitblu_core/adapters/simulated.py), and a read behind them.
use pitblu_core.Prelude.{
  Bool, Bool-cases, Exec, List, Option, [], adapter_disconnected, err, false, inl, inr, none, ok,
  refl, some, subst, true, ℕ, ◌+◌, ◌∙◌, ◌∷◌, ◌≡◌, ◌⊎◌,
}
use pitblu_core.Protocol.{Celsius}
use pitblu_core.Models.{Datetime, DeviceSnapshot, DiscoveredDevice}
use pitblu_core.Simulated.{
  SimulatedIgrillAdapter, TemperaturePattern, connect_simulated, disconnect_simulated, is_connected,
  read_simulated, repeat_or, simulate_snapshot, simulated_snapshot,
}
use pitblu_core.Simulated.Controls.{
  configure_probe, set_battery_percent, set_connection_available, set_stale,
}
use pitblu_core.Simulated.Reads.{
  IsSimulator, IsSnapshotOf, Remembers, on_read, readings_on, simulate_snapshot_lem,
  snapshot_on-IsSnapshotOf,
}

pub data SimulatedCall : Type 0 where
  reads : Datetime → SimulatedCall
  connects_to : DiscoveredDevice → Datetime → SimulatedCall
  disconnects : SimulatedCall
  configures :
      ℕ → Option Bool → Option Celsius → Option TemperaturePattern → Option Celsius → SimulatedCall
  sets_battery : ℕ → SimulatedCall
  sets_available sets_stale : Bool → SimulatedCall

unfoldable pub call_once : SimulatedCall → SimulatedIgrillAdapter → SimulatedIgrillAdapter
call_once (reads now) a = (read_simulated now a).1
call_once (connects_to device now) a = (connect_simulated device now a).1
call_once disconnects a = (disconnect_simulated a).1
call_once (configures number present temperature_c pattern rate) a =
    (configure_probe number present temperature_c pattern rate a).1
call_once (sets_battery value) a = (set_battery_percent value a).1
call_once (sets_available available) a = set_connection_available available a
call_once (sets_stale stale) a = set_stale stale a

unfoldable pub call_all : List SimulatedCall → SimulatedIgrillAdapter → SimulatedIgrillAdapter
unfolding call_once
call_all [] a = a
call_all (c ∷ cs) a = call_all cs (call_once c a)

-- The clock shows times with a zone.
abbrev pub IsZoned : SimulatedCall → Type 0
IsZoned (reads now) = now.aware ≡ true
IsZoned _ = Unit

-- The last snapshot again, with nothing changed
abbrev pub IsRepeated : SimulatedIgrillAdapter → DeviceSnapshot → SimulatedIgrillAdapter → Type 0
IsRepeated a s b = (a.is_stale ≡ true) × (a.last_snapshot ≡ some s) × (b ≡ a)

-- A snapshot of the next number, of the probes as they are after their moves
abbrev pub IsNew :
    Datetime → SimulatedIgrillAdapter → DeviceSnapshot → SimulatedIgrillAdapter → Type 0
IsNew now a s b =
    (a.is_stale ≡ false ⊎ a.last_snapshot ≡ none)
    × (s.sequence ≡ a.sequence + 1)
    × (s.probes ≡ readings_on now a)
    × (b ≡ record (on_read now a) { last_snapshot = some s })

-- A read that yields a snapshot of all probes
pub record Yields (n : ℕ) (now : Datetime) (a : SimulatedIgrillAdapter) : Type 0 where
  pub connected : is_connected a ≡ true
  pub snapshot : DeviceSnapshot
  pub after : SimulatedIgrillAdapter
  pub read : read_simulated now a ≡ (ok snapshot, after)
  pub complete : IsSnapshotOf n snapshot
  pub known : IsRepeated a snapshot after ⊎ IsNew now a snapshot after

-- What a read of an adapter of a number of probes may come to
abbrev pub ReadsOrRefuses : ℕ → Datetime → SimulatedIgrillAdapter → Type 0
ReadsOrRefuses n now a =
    ((is_connected a ≡ false)
      × (read_simulated now a
          ≡ (err (adapter_disconnected "simulated iGrill is not connected"), a)))
    ⊎ Yields n now a

pub repeat_or-cases :
    (stale : Bool) (last : Option DeviceSnapshot)
    (fresh : Exec SimulatedIgrillAdapter DeviceSnapshot) (a : SimulatedIgrillAdapter)
    → ((stale ≡ false ⊎ last ≡ none) × (repeat_or stale last fresh a ≡ fresh a))
      ⊎ ((s : DeviceSnapshot) × (stale ≡ true)
          × (last ≡ some s)
          × (repeat_or stale last fresh a ≡ (ok s, a)))
repeat_or-cases true (some s) fresh a = inr (s, refl, refl, refl)
repeat_or-cases true none fresh a = inl (inr refl, refl)
repeat_or-cases false last fresh a = inl (inl refl, refl)

pub read_connected :
    (now : Datetime) (a : SimulatedIgrillAdapter)
    → is_connected a ≡ true
    → read_simulated now a ≡ repeat_or a.is_stale a.last_snapshot (simulate_snapshot now) a
unfolding read_simulated
read_connected now a on = rw on refl

connected-Yields :
    (n : ℕ) (now : Datetime) (a : SimulatedIgrillAdapter)
    → IsSimulator n a
    → now.aware ≡ true
    → is_connected a ≡ true
    → Yields n now a
connected-Yields n now a v h on =
    let s₁ = simulated_snapshot (on_read now a) (readings_on now a) in
    elim (repeat_or-cases a.is_stale a.last_snapshot (simulate_snapshot now) a) [
      | inl (why, new) ↦ record {
        connected = on;
        snapshot = s₁;
        after = record (on_read now a) { last_snapshot = some s₁ };
        read = read_connected now a on ∙ new ∙ simulate_snapshot_lem n now a v h;
        complete = snapshot_on-IsSnapshotOf n now a v h;
        known = inr (why, refl, refl, refl);
      }
      | inr (s, still, last, same) ↦ record {
        connected = on;
        snapshot = s;
        after = a;
        read = read_connected now a on ∙ same;
        complete = subst (Remembers n) last v.remembered;
        known = inl (still, last, refl);
      }
    ]

pub simulator-ReadsOrRefuses :
    (n : ℕ) (now : Datetime) (a : SimulatedIgrillAdapter)
    → IsSimulator n a
    → now.aware ≡ true
    → ReadsOrRefuses n now a
unfolding read_simulated
simulator-ReadsOrRefuses n now a v h = elim (Bool-cases (is_connected a)) [
  | inr off ↦ inl (off, rw off refl)
  | inl on ↦ inr (connected-Yields n now a v h on)
]
