-- ===== src/Configuration/Restart.antt =====
-- What a restart finds (src/pitblu_core/configuration.py).
use pitblu_core.Prelude.{
  ==-refl, ==_iff, Bool, List, String, [], arith, false, inl, inr, is_some, lookup, ok, refl,
  string_eq, sym, true, values, ℕ, ◌∙◌, ◌∷◌, ◌≡◌,
}
use pitblu_core.Storage.{Store, config_state}
use pitblu_core.Configuration.{
  ConfigurationManager, Settings, adopt, apply_layer, configuration_manager, from_keys, has_unknown,
  is_exposed, model_validate, update, update_all,
}
use pitblu_core.Configuration.Layers.{
  IsConstructed, base_of, configuration_manager-IsConstructed, lookup-update_all, or_else,
}
use pitblu_core.Configuration.Exposure.{update-cases, update_many}

-- Every key of the first is one of the second.
abbrev pub IsWithin : Settings → Settings → Type 0
IsWithin new known =
    (key : String) → is_some (lookup key new) ≡ true → is_some (lookup key known) ≡ true

known-IsWithin : (new known : Settings) → has_unknown new known ≡ false → IsWithin new known
unfolding has_unknown lookup
known-IsWithin [] known h key k = cc
known-IsWithin ((j, v) ∷ new) known h key k =
    ground (arith, ==_iff j key, known-IsWithin new known (ground arith) key)

within_known : (new known : Settings) → IsWithin new known → has_unknown new known ≡ false
unfolding has_unknown
within_known [] known w = refl
within_known ((j, v) ∷ new) known w = ground (
  arith,
  w j (unfold lookup in ground (arith, ==-refl j)),
  within_known new known (λ key k. w key (unfold lookup in ground (arith, k))),
)

-- Settings that show the same are validated alike.
abbrev pub IsTestOfContents : (Settings → Bool) → Type 0
IsTestOfContents valid =
    (a b : Settings) → ((key : String) → lookup key a ≡ lookup key b) → valid a ≡ valid b

validate-same :
    (valid : Settings → Bool) (a b : Settings)
    → IsTestOfContents valid
    → ((key : String) → lookup key a ≡ lookup key b)
    → model_validate valid a ≡ model_validate valid b
unfolding model_validate is_exposed
validate-same valid a b t e = ground (arith, t a b e, e "server.bind", e "auth.mode")

-- A manager over the layers below that has persisted what it shows.
record IsPersisted (valid : Settings → Bool) (base : Settings) (m : ConfigurationManager)
    : Type 0 where
  pub shown :
      (key : String) → lookup key m.values ≡ or_else (lookup key m.persisted) (lookup key base)
  pub stored : config_state m.store ≡ (m.version, m.persisted)
  pub known : IsWithin m.persisted base
  pub validated : model_validate valid m.values ≡ ok tt

update-IsPersisted :
    (valid : Settings → Bool) (base values : Settings) (expected : ℕ) (m : ConfigurationManager)
    → IsPersisted valid base m
    → IsPersisted valid base (update valid values expected m).1
unfolding adopt
update-IsPersisted valid base values expected m p = elim (update-cases valid values expected m) [
  | inl (e, h) ↦ rw h p
  | inr (store, known, validated, written, state, h) ↦ rw h (record {
    shown = λ key. ground (
      arith,
      lookup-update_all key values m.values,
      lookup-update_all key values m.persisted,
      p.shown key,
    );
    stored = state;
    known = λ key k. ground (
      arith,
      k,
      lookup-update_all key values m.persisted,
      known-IsWithin values m.values known key,
      p.shown key,
      p.known key,
    );
    validated = validated;
  })
]

update_many-IsPersisted :
    (valid : Settings → Bool) (base : Settings) (requests : List (Settings × ℕ))
    (m : ConfigurationManager)
    → IsPersisted valid base m
    → IsPersisted valid base (update_many valid requests m)
unfolding update_many
update_many-IsPersisted valid base [] m p = p
update_many-IsPersisted valid base ((values, expected) ∷ requests) m p =
    update_many-IsPersisted valid base requests (update valid values expected m).1
      (update-IsPersisted valid base values expected m p)

constructed-IsPersisted :
    (valid : Settings → Bool) (defaults yaml environment : Settings) (store : Store)
    (m : ConfigurationManager)
    → IsConstructed valid defaults yaml environment store m
    → IsPersisted valid (base_of defaults yaml environment) m
unfolding config_state
constructed-IsPersisted valid defaults yaml environment store m c = record {
  shown =
      λ key. rw (c.layered) (lookup-update_all key m.persisted (base_of defaults yaml environment));
  stored = ground (arith, c.same_store, c.read_version, c.read_persisted);
  known = known-IsWithin m.persisted (base_of defaults yaml environment) c.known_persisted;
  validated = c.validated;
}

-- What a construction over the store of a manager makes.
restarted :
    (valid : Settings → Bool) (defaults yaml environment : Settings) (m : ConfigurationManager)
    → IsTestOfContents valid
    → has_unknown yaml defaults ≡ false
    → has_unknown environment (update_all yaml defaults) ≡ false
    → IsPersisted valid (base_of defaults yaml environment) m
    → (n : ConfigurationManager) × (configuration_manager valid defaults yaml environment m.store
        ≡ ok n)
      × ((key : String) → lookup key n.values ≡ lookup key m.values)
      × (n.version ≡ m.version)
unfolding configuration_manager apply_layer
restarted valid defaults yaml environment m t y e p =
    let base = base_of defaults yaml environment in
    let n : ConfigurationManager = record {
      store = m.store;
      values = update_all m.persisted base;
      sources = update_all (from_keys m.persisted "persisted_override") (
          update_all (from_keys environment "environment")
            (update_all (from_keys yaml "yaml") (from_keys defaults "default")));
      version = m.version;
      persisted = m.persisted;
    } in
    let same : (key : String) → lookup key n.values ≡ lookup key m.values =
      λ key. lookup-update_all key m.persisted base ∙ sym (p.shown key) in
    let fits : has_unknown m.persisted base ≡ false = within_known m.persisted base p.known in
    let valid_again : model_validate valid n.values ≡ ok tt =
      validate-same valid n.values m.values t same ∙ p.validated in
    (n, rw (p.stored, y, e, fits, valid_again), same, refl)

-- A restart changes no setting: after any updates of a manager that was constructed, accepted or
-- refused, a manager that is constructed anew over its store, with the same defaults, file and
-- environment, shows each setting with the same value, under the same version. The test of the
-- fields depends only on what the settings show.
pub restart_keeps :
    (valid : Settings → Bool) (defaults yaml environment : Settings) (store : Store)
    (m : ConfigurationManager) (requests : List (Settings × ℕ))
    → IsTestOfContents valid
    → configuration_manager valid defaults yaml environment store ≡ ok m
    → let last = update_many valid requests m in
      (n : ConfigurationManager) × (configuration_manager valid defaults yaml environment last.store
        ≡ ok n)
      × ((key : String) → lookup key n.values ≡ lookup key last.values)
      × (n.version ≡ last.version)
restart_keeps valid defaults yaml environment store m requests t h =
    let c = configuration_manager-IsConstructed valid defaults yaml environment store m h in
    restarted valid defaults yaml environment (update_many valid requests m) t c.known_yaml
      c.known_environment
      (update_many-IsPersisted valid (base_of defaults yaml environment) requests m
        (constructed-IsPersisted valid defaults yaml environment store m c))
