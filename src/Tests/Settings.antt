-- ===== src/Tests/Settings.antt =====
-- The settings and the administrator's token (src/pitblu_core/configuration.py, auth.py).
use Prim.Native.Char.{code}
use Prim.Native.String.{[] as ε, ◌∷◌ as ◌▹◌}
use pitblu_core.Prelude.{
  Bool, List, String, [], insert, lookup, nat_eq, none, ok, refl, some, string_eq, true, ℕ, ◌↔◌,
  ◌∷◌, ◌≡◌,
}
use pitblu_core.Storage.{auth_record, config_state, new_store, set_auth_record}
use pitblu_core.Configuration.{
  ConfigurationManager, Settings, apply_layer, configuration_manager, has_unknown, is_exposed,
  loopback, model_validate, token_mode, update_all,
}
use pitblu_core.Configuration.Layers.{layers_in_order, or_else}
use pitblu_core.Configuration.Exposure.{IsGuarded, update_many, update_many-IsGuarded}
use pitblu_core.Configuration.Restart.{restart_keeps}
use pitblu_core.Auth.{bootstrap, has_form, replace, verify}
use pitblu_core.Auth.Rotation.{IsAcceptable, Issue, bootstraps, issue, issue_all, last_token_only}

abbrev pub defaults : Settings
defaults = ("server.bind", loopback) ∷ ("auth.mode", "\"disabled\"") ∷ []

abbrev file : Settings
file = ("auth.mode", token_mode) ∷ []

abbrev pub all_valid : Settings → Bool
all_valid _ = true

abbrev pub manager : ConfigurationManager
manager = record {
  store = new_store;
  values = ("server.bind", loopback) ∷ ("auth.mode", token_mode) ∷ [];
  sources = ("server.bind", "default") ∷ ("auth.mode", "yaml") ∷ [];
  version = 1;
  persisted = [];
}

manager_is_made : configuration_manager all_valid defaults file [] new_store ≡ ok manager
unfolding configuration_manager apply_layer model_validate is_exposed has_unknown update_all
    config_state lookup insert
manager_is_made = refl

layers_in_order_example :
    lookup "auth.mode" manager.values
    ≡ or_else
        (lookup "auth.mode" (config_state new_store).1)
        (or_else none (or_else (lookup "auth.mode" file) (lookup "auth.mode" defaults)))
unfolding lookup
layers_in_order_example =
    layers_in_order all_valid defaults file [] new_store manager "auth.mode" manager_is_made

abbrev changes : List (Settings × ℕ)
changes = (("server.bind", "\"0.0.0.0\"") ∷ [], 1) ∷ (("auth.mode", "\"disabled\"") ∷ [], 2) ∷ []

update_many-IsGuarded_example : IsGuarded (update_many all_valid changes manager).values
update_many-IsGuarded_example =
    update_many-IsGuarded all_valid defaults file [] new_store manager changes manager_is_made

restart_keeps_example :
    let last = update_many all_valid changes manager in
    (n : ConfigurationManager) × (configuration_manager all_valid defaults file [] last.store
      ≡ ok n)
    × ((key : String) → lookup key n.values ≡ lookup key last.values)
    × (n.version ≡ last.version)
restart_keeps_example =
    restart_keeps all_valid defaults file [] new_store manager changes (λ a b e. refl)
      manager_is_made

abbrev pub a_token : String
a_token = "0123456789abcdefghijklmnopqrstuvwxyzABCDEF-"

-- A digest for the tests, by the text's characters.
pub codes : String → List ℕ → List ℕ
codes ε salt = []
codes (c ▹ rest) salt = code c ∷ codes rest salt

pub form_of_token : has_form 43 a_token ≡ true
unfolding has_form
form_of_token = refl

abbrev issues : List Issue
issues = bootstraps a_token (7 ∷ []) 3 ∷ bootstraps a_token (8 ∷ []) 4 ∷ []

last_token_only_example :
    let (last, s) = issue_all codes issues (none, new_store) in
    (verify codes "old" s ≡ true) ↔ IsAcceptable codes last "old"
last_token_only_example = last_token_only codes issues "old"

first_is_kept : (issue_all codes issues (none, new_store)).0 ≡ some (a_token, 7 ∷ [])
unfolding issue_all issue bootstrap replace auth_record set_auth_record
first_is_kept = refl
