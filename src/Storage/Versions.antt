-- ===== src/Storage/Versions.antt =====
-- The version of the configuration (src/pitblu_core/storage.py, `replace_config`).
use pitblu_core.Prelude.{
  Dict, List, Result, String, [], arith, err, nat_eq, ok, version_conflict, ℕ, ◌+◌, ◌∷◌, ◌≡◌,
}
use pitblu_core.Storage.{Store, config_state, replace_config}

-- Two writers that both read the version at the same time cannot both write: the first one's
-- overrides stand under the next version, and the second is told that version and changes nothing.
pub second_writer_refused :
    (s : Store) (mine yours : Dict String String)
    → let seen = (config_state s).0 in
      let (r₁, s₁) = replace_config mine seen s in
      let (r₂, s₂) = replace_config yours seen s₁ in
      (r₁ ≡ ok (seen + 1))
      × (config_state s₁ ≡ (seen + 1, mine))
      × (r₂ ≡ err (version_conflict (seen + 1)))
      × (s₂ ≡ s₁)
unfolding replace_config config_state
second_writer_refused s mine yours = ground arith

abbrev pub accepted : Result ℕ → ℕ
accepted (ok v) = 1
accepted (err e) = 0

-- The store after any writes, and how many of them were accepted.
unfoldable pub write_all : List (Dict String String × ℕ) → Store → ℕ × Store
write_all [] s = (0, s)
write_all ((overrides, expected) ∷ writes) s =
    let (r, s') = replace_config overrides expected s in
    let (n, t) = write_all writes s' in (accepted r + n, t)

version_step :
    (overrides : Dict String String) (expected : ℕ) (s : Store)
    → let (r, t) = replace_config overrides expected s in
      t.config_version ≡ s.config_version + accepted r
unfolding replace_config
version_step overrides expected s = ground arith

-- The version counts the accepted writes: after any writes, whatever versions they expect, it is the
-- version before them and one for each that was accepted.
pub version_counts :
    (writes : List (Dict String String × ℕ)) (s : Store)
    → let (n, t) = write_all writes s in t.config_version ≡ s.config_version + n
unfolding write_all
version_counts [] s = omega arith
version_counts ((overrides, expected) ∷ writes) s = omega (
  arith,
  version_step overrides expected s,
  version_counts writes (replace_config overrides expected s).1,
)
