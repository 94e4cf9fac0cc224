-- ===== src/Deployment.antt =====
-- src/pitblu_core/deployment.py: the start of a managed service, and the first token. What the file
-- and the environment set is given flattened, as to the configuration's manager; the token, the salt
-- and the time are arguments.
pub mod Starts
use pitblu_core.Prelude.{
  Bool, Exec, List, Result, String, [], bind_result, err, if◌then◌else◌, lookup, not, ok, reject_if,
  string_eq, value_error, ℕ,
}
use pitblu_core.Storage.{Store}
use pitblu_core.Auth
use pitblu_core.Configuration.{
  ConfigurationManager, Settings, configuration_manager, differs, token_mode,
}

-- `PITBLU_CONFIG_FILE`: not set, not a file, or a file with what it sets
pub data ConfigFile : Type 0 where
  not_set missing : ConfigFile
  file_of : Settings → ConfigFile

pub data BootstrapAnswer : Type 0 where
  already_configured : BootstrapAnswer
  shown_once : String → BootstrapAnswer

-- What a managed service requires
unfoldable pub check_managed : Store → ConfigurationManager → Result ConfigurationManager
check_managed store m =
    reject_if (differs (lookup "auth.mode" m.values) token_mode)
      (value_error "managed service requires token authentication")
      (reject_if (not (Auth.status store).0)
        (value_error "bootstrap an administrator token before starting the managed service") (ok m))

module _ (fields_are_valid : Settings → Bool) where
  -- The checks of the file and the manager that is made
  abbrev pub open_configuration :
      Settings → ConfigFile → Settings → Store → Result ConfigurationManager
  open_configuration defaults not_set environment store =
      configuration_manager fields_are_valid defaults [] environment store
  open_configuration defaults missing environment store =
      err (value_error "configured startup file is missing")
  open_configuration defaults (file_of settings) environment store =
      configuration_manager fields_are_valid defaults settings environment store

  -- `startup_configuration`; `managed` is whether `PITBLU_MANAGED` is "true"
  unfoldable pub startup_configuration :
      Settings → ConfigFile → Settings → Bool → Store → Result ConfigurationManager
  unfolding check_managed
  startup_configuration defaults file environment managed store =
      bind_result (open_configuration defaults file environment store)
        λ m. if managed then check_managed store m else ok m

module _ (digest : String → List ℕ → List ℕ) where
  -- `bootstrap` of a database; `terminal` is whether the output is one
  unfoldable pub bootstrap_database : Bool → String → List ℕ → ℕ → Exec Store BootstrapAnswer
  bootstrap_database terminal token salt now s =
      if not terminal
      then (err (value_error "token bootstrap requires a terminal; never redirect it to a log"), s)
      else if (Auth.status s).0
      then (ok already_configured, s)
      else (let (issued, t) = Auth.bootstrap digest token salt now s in
          (bind_result issued (λ x. ok (shown_once x)), t))
