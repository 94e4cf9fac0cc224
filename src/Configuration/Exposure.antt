-- ===== src/Configuration/Exposure.antt =====
-- The settings of a running service (src/pitblu_core/configuration.py, `update`).
use pitblu_core.Prelude.{
  ==_iff, Bool, Bool-cases, Exception, List, Option, Result, String, [], arith, configuration_value,
  err, false, inl, inr, lookup, nat_eq, none, ok, refl, some, string_eq, values, version_conflict,
  ℕ, ◌+◌, ◌==◌, ◌∷◌, ◌≡◌, ◌⊎◌,
}
use pitblu_core.Storage.{Store, config_state, replace_config}
use pitblu_core.Configuration.{
  ConfigurationManager, Settings, adopt, configuration_manager, differs, has_unknown, is_exposed,
  loopback, model_validate, token_mode, update, update_all, validate_patch,
}
use pitblu_core.Configuration.Layers.{configuration_manager-IsConstructed}

Result-cases : (r : Result (Unit {0})) → ((e : Exception) × (r ≡ err e)) ⊎ (r ≡ ok tt)
Result-cases (ok tt) = inr refl
Result-cases (err e) = inl (e, refl)

module _ (fields_are_valid : Settings → Bool) where
  -- Any requests for updates, each with the version that it expects.
  unfoldable pub update_many : List (Settings × ℕ) → ConfigurationManager → ConfigurationManager
  update_many [] m = m
  update_many ((values, expected) ∷ requests) m =
      update_many requests (update fields_are_valid values expected m).1

  -- Either an update raises, or it has written and adopted everything.
  pub update-cases :
      (values : Settings) (expected : ℕ) (m : ConfigurationManager)
      → ((e : Exception) × (update fields_are_valid values expected m ≡ (err e, m)))
        ⊎ ((store : Store) × (has_unknown values m.values ≡ false)
            × (model_validate fields_are_valid (update_all values m.values) ≡ ok tt)
            × (replace_config (update_all values m.persisted) expected m.store
                ≡ (ok (expected + 1), store))
            × (config_state store ≡ (expected + 1, update_all values m.persisted))
            × (update fields_are_valid values expected m ≡ (
              ok (update_all values m.values),
              adopt values (expected + 1) (record m { store = store }),
            )))
  unfolding update validate_patch replace_config config_state
  update-cases values expected m = elim (Bool-cases (has_unknown values m.values)) [
    | inl bad ↦ inl (configuration_value "unknown configuration setting", rw (bad, update))
    | inr known ↦
        elim (Result-cases (model_validate fields_are_valid (update_all values m.values))) [
          | inl (e, h) ↦ inl (e, rw (known, h, update))
          | inr h ↦ elim (Bool-cases (m.store.config_version == expected)) [
            | inl same ↦
                let store : Store = record m.store {
                  config_overrides = update_all values m.persisted;
                  config_version = m.store.config_version + 1;
                } in
                inr (
                  store,
                  known,
                  h,
                  ground arith,
                  ground arith,
                  rw (known, h, update) (ground arith),
                )
            | inr late ↦
                inl (version_conflict m.store.config_version, rw (known, h, update) (ground arith))
          ]
        ]
  ]

-- Only this computer is listened to, or a token is asked for.
abbrev pub IsGuarded : Settings → Type 0
IsGuarded values =
    (lookup "server.bind" values ≡ some loopback) ⊎ (lookup "auth.mode" values ≡ some token_mode)

same_text : (o : Option String) (text : String) → differs o text ≡ false → o ≡ some text
same_text none text h = cc
same_text (some value) text h = ground (arith, ==_iff value text)

pub validated-IsGuarded :
    (fields_are_valid : Settings → Bool) (values : Settings)
    → model_validate fields_are_valid values ≡ ok tt
    → IsGuarded values
unfolding model_validate is_exposed
validated-IsGuarded valid values h =
    elim (Bool-cases (differs (lookup "server.bind" values) loopback)) [
      | inl away ↦ inr (same_text (lookup "auth.mode" values) token_mode (ground arith))
      | inr local ↦ inl (same_text (lookup "server.bind" values) loopback local)
    ]

update-IsGuarded :
    (fields_are_valid : Settings → Bool) (values : Settings) (expected : ℕ)
    (m : ConfigurationManager)
    → IsGuarded m.values
    → IsGuarded (update fields_are_valid values expected m).1.values
unfolding adopt
update-IsGuarded valid values expected m g = elim (update-cases valid values expected m) [
  | inl (e, h) ↦ rw h g
  | inr (store, _, validated, _, _, h) ↦
      rw h (validated-IsGuarded valid (update_all values m.values) validated)
]

-- The service is never exposed without a token: whatever the file, the environment and the store
-- hold, and whatever updates are requested with whatever versions, the settings of a manager that
-- could be constructed listen on the loopback address or ask for a token.
pub update_many-IsGuarded :
    (fields_are_valid : Settings → Bool) (defaults yaml environment : Settings) (store : Store)
    (m : ConfigurationManager) (requests : List (Settings × ℕ))
    → configuration_manager fields_are_valid defaults yaml environment store ≡ ok m
    → IsGuarded (update_many fields_are_valid requests m).values
unfolding update_many
update_many-IsGuarded valid defaults yaml environment store m requests h = go requests m (
    validated-IsGuarded valid m.values
      (configuration_manager-IsConstructed valid defaults yaml environment store m h).validated)
  where
    go :
        (us : List (Settings × ℕ)) (n : ConfigurationManager)
        → IsGuarded n.values
        → IsGuarded (update_many valid us n).values
    go [] n g = g
    go ((values, expected) ∷ us) n g =
        go us (update valid values expected n).1 (update-IsGuarded valid values expected n g)
