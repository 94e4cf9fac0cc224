-- ===== src/Configuration/Layers.antt =====
-- Which layer a setting's value comes from (src/pitblu_core/configuration.py).
use pitblu_core.Prelude.{
  Bool, Option, String, [], arith, false, lookup, lookup-insert, none, ok, refl, some, string_eq,
  ◌∙◌, ◌∷◌, ◌≡◌,
}
use pitblu_core.Storage.{Store, config_state}
use pitblu_core.Configuration.{
  ConfigurationManager, Settings, apply_layer, configuration_manager, has_unknown, model_validate,
  update_all,
}

-- The first of two values that is there.
abbrev pub or_else : Option String → Option String → Option String
or_else none other = other
or_else (some value) other = some value

pub lookup-update_all :
    (key : String) (new old : Settings)
    → lookup key (update_all new old) ≡ or_else (lookup key new) (lookup key old)
unfolding lookup update_all
lookup-update_all key [] old = refl
lookup-update_all key ((k, v) ∷ new) old =
    ground (arith, lookup-update_all key new old, lookup-insert key k v (update_all new old))

-- The settings below the persisted ones.
abbrev pub base_of : Settings → Settings → Settings → Settings
base_of defaults yaml environment = update_all environment (update_all yaml defaults)

-- What a construction that succeeds has made.
pub record IsConstructed (fields_are_valid : Settings → Bool) (defaults yaml environment : Settings)
    (store : Store) (m : ConfigurationManager) : Type 0 where
  pub same_store : m.store ≡ store
  pub read_version : m.version ≡ (config_state store).0
  pub read_persisted : m.persisted ≡ (config_state store).1
  pub layered : m.values ≡ update_all m.persisted (base_of defaults yaml environment)
  pub known_yaml : has_unknown yaml defaults ≡ false
  pub known_environment : has_unknown environment (update_all yaml defaults) ≡ false
  pub known_persisted : has_unknown m.persisted (base_of defaults yaml environment) ≡ false
  pub validated : model_validate fields_are_valid m.values ≡ ok tt

pub configuration_manager-IsConstructed :
    (fields_are_valid : Settings → Bool) (defaults yaml environment : Settings) (store : Store)
    (m : ConfigurationManager)
    → configuration_manager fields_are_valid defaults yaml environment store ≡ ok m
    → IsConstructed fields_are_valid defaults yaml environment store m
unfolding configuration_manager apply_layer
configuration_manager-IsConstructed valid defaults yaml environment store m h = record {
  same_store = ground arith;
  read_version = ground arith;
  read_persisted = ground arith;
  layered = ground arith;
  known_yaml = ground arith;
  known_environment = ground arith;
  known_persisted = ground arith;
  validated = ground arith;
}

-- A manager that is constructed shows for each setting the persisted value, or else that of the
-- environment, or else that of the file, or else the default.
pub layers_in_order :
    (fields_are_valid : Settings → Bool) (defaults yaml environment : Settings) (store : Store)
    (m : ConfigurationManager) (key : String)
    → configuration_manager fields_are_valid defaults yaml environment store ≡ ok m
    → lookup key m.values
      ≡ or_else
          (lookup key (config_state store).1)
          (or_else (lookup key environment) (or_else (lookup key yaml) (lookup key defaults)))
layers_in_order valid defaults yaml environment store m key h =
    let c = configuration_manager-IsConstructed valid defaults yaml environment store m h in
    rw (c.layered, c.read_persisted)
      (lookup-update_all key (config_state store).1 (base_of defaults yaml environment)
        ∙ rw (
          lookup-update_all key environment (update_all yaml defaults),
          lookup-update_all key yaml defaults,
        ))
