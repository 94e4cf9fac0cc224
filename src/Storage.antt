-- ===== src/Storage.antt =====
-- src/pitblu_core/storage.py: the administrative store. The tables are lists of rows, in the order in
-- which SQLite numbers them, and a key is at most once in a table. Each method is one transaction
-- under the lock, so it happens whole or not at all. A timestamp is the number that its text stands
-- for: texts in ISO form and in one zone are ordered as their times. Values that the store only
-- carries are texts.
pub mod DeviceTable
pub mod OperationTable
pub mod Versions
pub mod Rows
pub mod Retention
use pitblu_core.Prelude.{
  Bool, Dict, Exec, List, Option, String, [], err, false, if◌then◌else◌, insert, is_some, leb,
  lookup, nat_eq, none, not, ok, option_eq, remove, some, string_eq, true, version_conflict, ℕ, ◌+◌,
  ◌==◌, ◌∷◌,
}

pub record DeviceRow : Type 0 where
  pub device_id : String
  pub discovery_id : String
  pub name : String
  pub friendly_name : Option String
  pub model : String
  pub auto_reconnect : Bool
  pub desired_state : String
  pub observed_state : String
  pub created_at : ℕ
  pub identity : Option String

pub record OperationRow : Type 0 where
  pub operation_id : String
  pub kind : String
  pub device_id : Option String
  pub status : String
  pub created_at : ℕ
  pub updated_at : ℕ
  pub error_code : Option String

pub record AuthRecord : Type 0 where
  pub salt : List ℕ
  pub digest : List ℕ
  pub changed_at : ℕ

pub record Store : Type 0 where
  pub config_version : ℕ
  pub config_overrides : Dict String String
  pub secrets : Dict String (String × ℕ)
  pub administrator_auth : Option AuthRecord
  pub devices : List DeviceRow
  pub operations : List OperationRow
  -- the payload of each event, under its ordinal, and the next ordinal
  pub operational_events : List (ℕ × String)
  pub next_ordinal : ℕ

-- `_initialise` on a new database
abbrev pub new_store : Store
new_store = record {
  config_version = 1;
  config_overrides = [];
  secrets = [];
  administrator_auth = none;
  devices = [];
  operations = [];
  operational_events = [];
  next_ordinal = 1;
}

unfoldable pub config_state : Store → ℕ × Dict String String
config_state s = (s.config_version, s.config_overrides)

unfoldable pub replace_config : Dict String String → ℕ → Exec Store ℕ
replace_config overrides expected_version s =
    if not (s.config_version == expected_version)
    then (err (version_conflict s.config_version), s)
    else (
      ok (s.config_version + 1),
      record s { config_overrides = overrides; config_version = s.config_version + 1 },
    )

unfoldable pub put_secret : String → String → ℕ → Store → Store
put_secret name secret changed_at s = record s {
  secrets = insert name (secret, changed_at) s.secrets;
}

-- whether the secret is there, and when it changed
unfoldable pub secret_status : String → Store → Bool × Option ℕ
secret_status name s = elim (lookup name s.secrets) [
  | none ↦ (false, none)
  | some row ↦ (true, some row.1)
]

unfoldable pub get_secret : String → Store → Option String
get_secret name s = elim (lookup name s.secrets) [ none ↦ none | some row ↦ some row.0 ]

unfoldable pub delete_secret : String → Store → Bool × Store
delete_secret name s =
    (is_some (lookup name s.secrets), record s { secrets = remove name s.secrets })

unfoldable pub auth_record : Store → Option AuthRecord
auth_record s = s.administrator_auth

unfoldable pub set_auth_record : AuthRecord → Store → Store
set_auth_record r s = record s { administrator_auth = some r }

-- `ORDER BY … DESC`: rows of one time stay in the table's order
module _ {A : Type 0} (time : A → ℕ) where
  unfoldable pub insert_desc : A → List A → List A
  insert_desc x [] = x ∷ []
  insert_desc x (y ∷ ys) = if leb (time y) (time x) then x ∷ y ∷ ys else y ∷ insert_desc x ys

  unfoldable pub order_desc : List A → List A
  unfolding insert_desc
  order_desc [] = []
  order_desc (x ∷ xs) = insert_desc x (order_desc xs)
