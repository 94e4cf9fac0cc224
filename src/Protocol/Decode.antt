-- ===== src/Protocol/Decode.antt =====
-- What the decoders of src/pitblu_core/protocol.py accept, and what they return.
use pitblu_core.Prelude.{
  Bool-cases, List, Option, [], arith, if◌then◌else◌, inl, inr, length, nat_eq, none, ok, pos, some,
  ℕ, ◌%◌, ◌*◌, ◌++◌, ◌+◌, ◌/◌, ◌<◌, ◌==◌, ◌↔◌, ◌∷◌, ◌≡◌, ◌≤◌, ◌⊎◌,
}
use pitblu_core.Protocol.{
  TemperatureUnit, celsius, decode_battery_percent, decode_probe_temperature_c,
  decode_temperature_unit, fahrenheit, from_bytes, unplugged_probe,
}

-- The two bytes in which the device reports a raw value, least significant first.
abbrev pub raw_bytes : ℕ → List ℕ
raw_bytes raw = raw % 256 ∷ raw / 256 ∷ []

-- Every 16-bit raw value that the device sends, whatever bytes follow it, is decoded as that many
-- degrees Celsius, except 63536, which is decoded as no probe.
pub decode_probe-raw_bytes :
    (raw : ℕ) (rest : List ℕ)
    → raw < 65536
    → decode_probe_temperature_c (raw_bytes raw ++ rest)
      ≡ (if raw == unplugged_probe then ok none else ok (some (pos (raw * 1000))))
unfolding decode_probe_temperature_c from_bytes
decode_probe-raw_bytes raw rest h = ground arith

-- A probe payload is refused exactly if it has fewer than two bytes.
pub decode_probe-defined :
    (payload : List ℕ)
    → ((o : Option _) × (decode_probe_temperature_c payload ≡ ok o)) ↔ (2 ≤ length payload)
unfolding decode_probe_temperature_c from_bytes
decode_probe-defined [] = (λ (_, e). cc, λ h. absurd (omega arith))
decode_probe-defined (a ∷ []) = (λ (_, e). cc, λ h. absurd (omega arith))
decode_probe-defined (a ∷ b ∷ rest) = (
  λ _. omega arith,
  λ _. elim (Bool-cases (a + 256 * (b + 256 * 0) == unplugged_probe)) [
    | inl e ↦ (none, ground arith)
    | inr e ↦ (some (pos ((a + 256 * (b + 256 * 0)) * 1000)), ground arith)
  ],
)

-- A battery payload is accepted with the percentage `p` exactly if it is the one byte `p`, at most
-- 100.
decode_battery_iff :
    (payload : List ℕ) (p : ℕ)
    → (decode_battery_percent payload ≡ ok p) ↔ ((payload ≡ p ∷ []) × (p ≤ 100))
unfolding decode_battery_percent
decode_battery_iff [] p = ground arith
decode_battery_iff (v ∷ []) p = ground arith
decode_battery_iff (v ∷ w ∷ vs) p = ground arith

-- A display unit is reported only for the one-byte payloads 0 and 1.
decode_unit_iff :
    (payload : List ℕ) (u : TemperatureUnit)
    → (decode_temperature_unit payload ≡ ok (some u))
      ↔ (((payload ≡ 0 ∷ []) × (u ≡ fahrenheit)) ⊎ ((payload ≡ 1 ∷ []) × (u ≡ celsius)))
unfolding decode_temperature_unit
decode_unit_iff [] u = ground arith
decode_unit_iff (v ∷ []) u = ground arith
decode_unit_iff (v ∷ w ∷ vs) u = ground arith
