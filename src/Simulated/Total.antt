-- ===== src/Simulated/Total.antt =====
-- A read of the simulated adapter behind any calls (src/pitblu_core/adapters/simulated.py)
use pitblu_core.Prelude.{
  All, Bool, Bool-cases, Exception, List, Option, Result, [], arith, false, inl, inr, leb, length,
  none, not, ok, ok-injective, refl, reject_if, some, subst, suc, sym, true, value_error, zero, ℕ,
  ◌&&◌, ◌+◌, ◌-◌, ◌∙◌, ◌∷◌, ◌≡◌,
}
use pitblu_core.Protocol.{Celsius}
use pitblu_core.Models.{Datetime, DiscoveredDevice}
use pitblu_core.Simulated.{
  SimulatedIgrillAdapter, SimulatedProbe, TemperaturePattern, connect_simulated, default_start,
  new_adapter, new_probes, read_simulated, simulate_snapshot, simulated_adapter,
}
use pitblu_core.Simulated.Controls.{
  change_at, configure_probe, set_battery_percent, set_connection_available,
}
use pitblu_core.Simulated.Reads.{IsSimulator, simulate_snapshot-IsSimulator}
use pitblu_core.Simulated.Calls.{
  IsZoned, ReadsOrRefuses, SimulatedCall, call_all, call_once, configures, connects_to, disconnects,
  read_connected, reads, repeat_or-cases, sets_available, sets_battery, sets_stale,
  simulator-ReadsOrRefuses,
}

read-IsSimulator :
    (n : ℕ) (now : Datetime) (a : SimulatedIgrillAdapter)
    → IsSimulator n a
    → now.aware ≡ true
    → IsSimulator n (read_simulated now a).1
read-IsSimulator n now a v h = elim (simulator-ReadsOrRefuses n now a v h) [
  | inl (off, refused) ↦ subst (λ x. IsSimulator n x.1) (sym refused) v
  | inr y ↦ elim (repeat_or-cases a.is_stale a.last_snapshot (simulate_snapshot now) a) [
    | inl (why, new) ↦
        subst (λ x. IsSimulator n x.1) (sym (read_connected now a y.connected ∙ new))
          (simulate_snapshot-IsSimulator n now a v h)
    | inr (s, still, last, same) ↦
        subst (λ x. IsSimulator n x.1) (sym (read_connected now a y.connected ∙ same)) v
  ]
]

connect-IsSimulator :
    (n : ℕ) (device : DiscoveredDevice) (now : Datetime) (a : SimulatedIgrillAdapter)
    → IsSimulator n a
    → IsSimulator n (connect_simulated device now a).1
unfolding connect_simulated
connect-IsSimulator n device now a v = record {
  from_one = v.from_one;
  to_four = v.to_four;
  counted = ground (arith, v.counted);
  all_probes = ground (arith, v.all_probes);
  percent = ground (arith, v.percent);
  aware = ground (arith, v.aware);
  remembered = ground (arith, v.remembered);
}

-- The connection and the mark of staleness are of no account.
kept :
    (n : ℕ) {connected available stale : Bool} (a : SimulatedIgrillAdapter)
    → IsSimulator n a
    → IsSimulator n
        (record a { connected = connected; connection_available = available; is_stale = stale })
kept n a v = record {
  from_one = v.from_one;
  to_four = v.to_four;
  counted = v.counted;
  all_probes = v.all_probes;
  percent = v.percent;
  aware = v.aware;
  remembered = v.remembered;
}

length-change_at :
    (i : ℕ) (f : SimulatedProbe → SimulatedProbe) (ps : List SimulatedProbe)
    → length (change_at i f ps) ≡ length ps
length-change_at i f [] = refl
length-change_at zero f (p ∷ ps) = refl
length-change_at (suc i) f (p ∷ ps) = omega (arith, length-change_at i f ps)

configure-IsSimulator :
    (n number : ℕ) (present : Option Bool) (temperature_c : Option Celsius)
    (pattern : Option TemperaturePattern) (rate : Option Celsius) (a : SimulatedIgrillAdapter)
    → IsSimulator n a
    → IsSimulator n (configure_probe number present temperature_c pattern rate a).1
unfolding configure_probe
configure-IsSimulator n number present temperature_c pattern rate a v =
    elim (Bool-cases (not (leb 1 number && leb number a.probe_count))) [
      | inl out ↦ rw out v
      | inr within ↦ rw within (record {
        from_one = v.from_one;
        to_four = v.to_four;
        counted = v.counted;
        all_probes = length-change_at (number - 1) _ a.probes ∙ v.all_probes;
        percent = v.percent;
        aware = v.aware;
        remembered = v.remembered;
      })
    ]

battery-IsSimulator :
    (n value : ℕ) (a : SimulatedIgrillAdapter)
    → IsSimulator n a
    → IsSimulator n (set_battery_percent value a).1
unfolding set_battery_percent
battery-IsSimulator n value a v = elim (Bool-cases (leb value 100)) [
  | inr more ↦ rw more v
  | inl fits ↦ rw fits (record {
    from_one = v.from_one;
    to_four = v.to_four;
    counted = v.counted;
    all_probes = v.all_probes;
    percent = ground (arith, fits);
    aware = v.aware;
    remembered = v.remembered;
  })
]

call_once-IsSimulator :
    (n : ℕ) (c : SimulatedCall) (a : SimulatedIgrillAdapter)
    → IsZoned c
    → IsSimulator n a
    → IsSimulator n (call_once c a)
unfolding call_once set_connection_available
call_once-IsSimulator n (reads now) a z v = read-IsSimulator n now a v z
call_once-IsSimulator n (connects_to device now) a z v = connect-IsSimulator n device now a v
call_once-IsSimulator n (configures number present temperature_c pattern rate) a z v =
    configure-IsSimulator n number present temperature_c pattern rate a v
call_once-IsSimulator n (sets_battery value) a z v = battery-IsSimulator n value a v
call_once-IsSimulator n disconnects a z v = kept n a v
call_once-IsSimulator n (sets_available available) a z v = kept n a v
call_once-IsSimulator n (sets_stale stale) a z v = kept n a v

call_all-IsSimulator :
    (n : ℕ) (cs : List SimulatedCall) (a : SimulatedIgrillAdapter)
    → All IsZoned cs
    → IsSimulator n a
    → IsSimulator n (call_all cs a)
unfolding call_all
call_all-IsSimulator n [] a z v = v
call_all-IsSimulator n (c ∷ cs) a z v =
    call_all-IsSimulator n cs (call_once c a) z.1 (call_once-IsSimulator n c a z.0 v)

length-new_probes : (k n : ℕ) → length (new_probes k n) ≡ n
unfolding new_probes
length-new_probes k zero = refl
length-new_probes k (suc n) = omega (arith, length-new_probes (k + 1) n)

not_rejected :
    {A : Type 0} (test : Bool) (e : Exception) (rest : Result A) (a : A)
    → reject_if test e rest ≡ ok a
    → (test ≡ false) × (rest ≡ ok a)
not_rejected true e rest a h = absurd (ground (arith, h))
not_rejected false e rest a h = (refl, h)

made-IsSimulator :
    (n : ℕ) (start : Option Datetime) (has_clock : Bool) (a : SimulatedIgrillAdapter)
    → simulated_adapter n start has_clock ≡ ok a
    → IsSimulator n a
unfolding simulated_adapter
made-IsSimulator n start has_clock a made =
    let time : Datetime = elim start [ none ↦ default_start | some t ↦ t ] in
    let fresh = new_adapter n time has_clock in
    let (counted, rest) =
      not_rejected (not (leb 1 n && leb n 4))
        (value_error "simulator probe count must be between 1 and 4")
        (reject_if (not time.aware) (value_error "simulator start time must be timezone-aware")
          (ok fresh))
        a made in
    let (zoned, done) =
      not_rejected (not time.aware) (value_error "simulator start time must be timezone-aware")
        (ok fresh) a rest in
    subst (IsSimulator n) {x = fresh} (ok-injective done) (record {
      from_one = ground (arith, counted);
      to_four = ground (arith, counted);
      counted = refl;
      all_probes = length-new_probes 0 n;
      percent = omega arith;
      aware = ground (arith, zoned);
      remembered = tt;
    })

-- Once a simulated adapter of some probes is made, no calls of it, in any order, accepted or refused,
-- can bring it to a state in which a read fails otherwise than by the loss of the connection, provided
-- that the clock shows times with a zone. A connected adapter yields a snapshot that can be
-- constructed, of all the probes: the last one again if the adapter is set to be stale and has one, or
-- else one with the next number, of the probes as they are after their moves. A read that is refused
-- changes nothing.
pub read_simulated_total :
    (n : ℕ) (start : Option Datetime) (has_clock : Bool) (a : SimulatedIgrillAdapter)
    (cs : List SimulatedCall) (now : Datetime)
    → simulated_adapter n start has_clock ≡ ok a
    → All IsZoned cs
    → now.aware ≡ true
    → ReadsOrRefuses n now (call_all cs a)
read_simulated_total n start has_clock a cs now made z h =
    simulator-ReadsOrRefuses n now (call_all cs a)
      (call_all-IsSimulator n cs a z (made-IsSimulator n start has_clock a made)) h
