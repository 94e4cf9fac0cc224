-- ===== src/Configuration.antt =====
-- src/pitblu_core/configuration.py: the settings and their layers. A setting's value is its JSON text,
-- as the store keeps it, so that encoding and decoding are the identity. Files come as they are
-- parsed, and the environment's variables under the names and values that they are mapped to. The
-- checks that pydantic makes of the declared fields are a parameter, a test of the whole settings.
-- The keys of a dictionary are distinct, so the order of the stores of `update` does not matter.
pub mod Layers
pub mod Exposure
pub mod Acceptance
pub mod Restart
use Prim.Native.String.{◌++◌ as ◌⧺◌}
use pitblu_core.Prelude.{
  Bool, Dict, Exec, Option, Result, String, [], bind_result, configuration_value, err, false,
  if◌then◌else◌, insert, is_some, lookup, map, none, not, ok, reject_if, some, string_eq, true,
  value_error, ℕ, ◌&&◌, ◌==◌, ◌||◌, ◌∷◌,
}
use pitblu_core.Storage.{Store, config_state, replace_config}

abbrev pub Settings : Type 0
Settings = Dict String String

pub record ConfigurationManager : Type 0 where
  pub store : Store
  pub values : Settings
  pub sources : Dict String String
  pub version : ℕ
  pub persisted : Settings

-- The value of a file: a leaf, or a mapping, which holds values of its own.
mutual
  pub data Parsed : Type 0 where
    leaf : String → Parsed
    mapping : Entries → Parsed

  pub data Entries : Type 0 where
    no_entries : Entries
    entry : String → Parsed → Entries → Entries

-- `f"{prefix}.{key}" if prefix else key`
abbrev pub path : String → String → String
path prefix key = if prefix == "" then key else prefix ⧺ ("." ⧺ key)

-- `d.update(new)`
unfoldable pub update_all : Settings → Settings → Settings
update_all [] old = old
update_all ((key, value) ∷ new) old = insert key value (update_all new old)

-- `_flatten`
unfoldable mutual
  unfolding update_all

  pub flatten : String → Entries → Settings
  flatten prefix no_entries = []
  flatten prefix (entry key item rest) =
      update_all (flatten prefix rest) (flatten_item (path prefix key) item)

  pub flatten_item : String → Parsed → Settings
  flatten_item key (leaf value) = (key, value) ∷ []
  flatten_item key (mapping entries) = flatten key entries

-- `set(values) - set(self._values)` is not empty
unfoldable pub has_unknown : Settings → Settings → Bool
has_unknown [] known = false
has_unknown ((key, value) ∷ values) known =
    not (is_some (lookup key known)) || has_unknown values known

-- `dict.fromkeys(values, source)`
abbrev pub from_keys : Settings → String → Dict String String
from_keys values source = map (λ (key, _). (key, source)) values

-- `_apply_layer`
unfoldable pub apply_layer : Settings → String → ConfigurationManager → Result ConfigurationManager
unfolding has_unknown update_all
apply_layer values source m =
    reject_if (has_unknown values m.values) (configuration_value "unknown configuration setting") (
      ok (record m {
        values = update_all values m.values;
        sources = update_all (from_keys values source) m.sources;
      }))

-- `AppConfig.secure_exposure`, for settings that have the value
abbrev pub differs : Option String → String → Bool
differs none text = true
differs (some value) text = not (value == text)

abbrev pub loopback : String
loopback = "\"127.0.0.1\""

abbrev pub token_mode : String
token_mode = "\"token\""

unfoldable pub is_exposed : Settings → Bool
is_exposed values =
    differs (lookup "server.bind" values) loopback && differs (lookup "auth.mode" values) token_mode

-- The statements of `update` behind the store's.
unfoldable pub adopt : Settings → ℕ → ConfigurationManager → ConfigurationManager
unfolding update_all
adopt values version m = record m {
  version = version;
  persisted = update_all values m.persisted;
  values = update_all values m.values;
  sources = update_all (from_keys values "persisted_override") m.sources;
}

module _ (fields_are_valid : Settings → Bool) where
  -- `AppConfig.model_validate`
  unfoldable pub model_validate : Settings → Result (Unit {0})
  unfolding is_exposed
  model_validate values =
      reject_if (not (fields_are_valid values)) (value_error "invalid setting") (
        reject_if (is_exposed values)
          (value_error "non-loopback binding requires token authentication") (ok tt))

  -- `ConfigurationManager.__init__`, with the flattened file and the mapped environment
  unfoldable pub configuration_manager :
      Settings → Settings → Settings → Store → Result ConfigurationManager
  unfolding apply_layer model_validate
  configuration_manager defaults yaml environment store =
      let m : ConfigurationManager = record {
        store = store;
        values = defaults;
        sources = from_keys defaults "default";
        version = (config_state store).0;
        persisted = (config_state store).1;
      } in
      bind_result (apply_layer yaml "yaml" m) λ m₁.
        bind_result (apply_layer environment "environment" m₁) λ m₂.
          bind_result (apply_layer m.persisted "persisted_override" m₂)
            λ m₃. bind_result (model_validate m₃.values) λ _. ok m₃

  -- `validate_patch`, which returns the settings that it validated
  unfoldable pub validate_patch : Settings → ConfigurationManager → Result Settings
  unfolding has_unknown update_all model_validate
  validate_patch values m =
      reject_if (has_unknown values m.values) (configuration_value "unknown configuration setting")
        (let candidate = update_all values m.values in
          bind_result (model_validate candidate) λ _. ok candidate)

  -- `update`
  unfoldable pub update : Settings → ℕ → Exec ConfigurationManager Settings
  unfolding validate_patch adopt
  update values expected_version m = elim (validate_patch values m) [
    | err e ↦ (err e, m)
    | ok candidate ↦
        (let (written, store) =
            replace_config (update_all values m.persisted) expected_version m.store in
          elim written [
            | err e ↦ (err e, record m { store = store })
            | ok version ↦ (ok candidate, adopt values version (record m { store = store }))
          ])
  ]
