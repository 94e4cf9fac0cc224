-- ===== src/Configuration/Acceptance.antt =====
-- Which updates of the settings are accepted (src/pitblu_core/configuration.py, `update`).
use pitblu_core.Prelude.{
  ==_iff, All, Bool, Option, String, [], ap, arith, false, inl, inr, is_some, lookup, nat_eq, none,
  ok, option_eq, refl, some, string_eq, true, values, ℕ, ◌∷◌, ◌≡◌,
}
use pitblu_core.Storage.{replace_config}
use pitblu_core.Configuration.{
  ConfigurationManager, Settings, differs, has_unknown, is_exposed, loopback, model_validate,
  token_mode, update, update_all, validate_patch,
}
use pitblu_core.Configuration.Exposure.{IsGuarded, validated-IsGuarded}

-- All settings exist, the settings with them are valid and guarded, and the version is the current
-- one.
pub record IsAcceptable (fields_are_valid : Settings → Bool) (values : Settings) (expected : ℕ)
    (m : ConfigurationManager) : Type 0 where
  pub known : All (λ x. is_some (lookup x.0 m.values) ≡ true) values
  pub valid : fields_are_valid (update_all values m.values) ≡ true
  pub guarded : IsGuarded (update_all values m.values)
  pub current : m.store.config_version ≡ expected

known-All :
    (values known : Settings)
    → has_unknown values known ≡ false
    → All (λ x. is_some (lookup x.0 known) ≡ true) values
unfolding has_unknown
known-All [] known h = tt
known-All ((key, value) ∷ values) known h =
    (ground (arith, h), known-All values known (ground (arith, h)))

none_unknown :
    (values known : Settings)
    → All (λ x. is_some (lookup x.0 known) ≡ true) values
    → has_unknown values known ≡ false
unfolding has_unknown
none_unknown [] known h = refl
none_unknown ((key, value) ∷ values) known (here, h) =
    ground (arith, here, none_unknown values known h)

not-differs : (o : Option String) (t : String) → o ≡ some t → differs o t ≡ false
not-differs none t h = absurd (cc h)
not-differs (some s) t h = ground (arith, ==_iff s t, same s t h)
  where
    same : (a b : String) → ◌≡◌ {A = Option String} (some a) (some b) → a ≡ b
    same a b e = ap (λ o. elim o [ none ↦ a | some c ↦ c ]) e

guarded-validates :
    (fields_are_valid : Settings → Bool) (values : Settings)
    → fields_are_valid values ≡ true
    → IsGuarded values
    → model_validate fields_are_valid values ≡ ok tt
unfolding model_validate is_exposed
guarded-validates valid values h (inl local) =
    ground (arith, h, not-differs (lookup "server.bind" values) loopback local)
guarded-validates valid values h (inr asks) =
    ground (arith, h, not-differs (lookup "auth.mode" values) token_mode asks)

pub acceptable-updates :
    (fields_are_valid : Settings → Bool) (values : Settings) (expected : ℕ)
    (m : ConfigurationManager)
    → IsAcceptable fields_are_valid values expected m
    → (update fields_are_valid values expected m).0 ≡ ok (update_all values m.values)
unfolding update validate_patch replace_config
acceptable-updates valid values expected m a =
    rw
      (
        none_unknown values m.values a.known,
        guarded-validates valid (update_all values m.values) a.valid a.guarded,
        update,
      )
      (ground (arith, a.current))

valid_fields :
    (fields_are_valid : Settings → Bool) (values : Settings)
    → model_validate fields_are_valid values ≡ ok tt
    → fields_are_valid values ≡ true
unfolding model_validate
valid_fields valid values h = ground (arith, h)

pub made-IsAcceptable :
    (fields_are_valid : Settings → Bool) (values : Settings) (expected : ℕ)
    (m : ConfigurationManager)
    → has_unknown values m.values ≡ false
    → model_validate fields_are_valid (update_all values m.values) ≡ ok tt
    → m.store.config_version ≡ expected
    → IsAcceptable fields_are_valid values expected m
made-IsAcceptable valid values expected m known validated current = record {
  known = known-All values m.values known;
  valid = valid_fields valid (update_all values m.values) validated;
  guarded = validated-IsGuarded valid (update_all values m.values) validated;
  current = current;
}
