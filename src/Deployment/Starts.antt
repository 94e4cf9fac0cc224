-- ===== src/Deployment/Starts.antt =====
-- When a managed service starts (src/pitblu_core/deployment.py).
use pitblu_core.Prelude.{
  Bool, List, Option-cases, Result, String, arith, bind_result, false, inl, inr, is_some, lookup,
  ok, refl, reject_if, string_eq, true, value_error, ℕ, ◌≡◌, ◌⊎◌,
}
use pitblu_core.Storage.{Store, auth_record, set_auth_record}
use pitblu_core.Auth
use pitblu_core.Auth.Rotation.{bytes_beq_iff}
use pitblu_core.Auth.{has_form}
use pitblu_core.Configuration.{Settings, differs, token_mode}
use pitblu_core.Deployment.{
  BootstrapAnswer, ConfigFile, already_configured, bootstrap_database, check_managed,
  open_configuration, shown_once, startup_configuration,
}

module _ (fields_are_valid : Settings → Bool) where
  -- A managed service starts over the store whenever its settings can be read and ask for tokens.
  abbrev pub StartsIfTokenMode : Settings → ConfigFile → Settings → Store → Type 0
  StartsIfTokenMode defaults file environment t =
      startup_configuration fields_are_valid defaults file environment true t
      ≡ bind_result (open_configuration fields_are_valid defaults file environment t) (λ m.
        reject_if (differs (lookup "auth.mode" m.values) token_mode)
          (value_error "managed service requires token authentication") (ok m))

  with_token :
      (defaults : Settings) (file : ConfigFile) (environment : Settings) (t : Store)
      → is_some t.administrator_auth ≡ true
      → StartsIfTokenMode defaults file environment t
  unfolding startup_configuration check_managed Auth.status auth_record
  with_token defaults file environment t h = elim (Option-cases t.administrator_auth) [
    | inl none_yet ↦ absurd (ground (arith, h, none_yet))
    | inr (r, e) ↦ rw e refl
  ]

-- A token that there was is kept, and one that is new is shown and accepted.
abbrev pub HasToken :
    (String → List ℕ → List ℕ) → String → Store → Result BootstrapAnswer → Store → Type 0
HasToken digest token s result t =
    ((is_some s.administrator_auth ≡ true) × (result ≡ ok already_configured) × (t ≡ s))
    ⊎ ((is_some s.administrator_auth ≡ false)
        × (result ≡ ok (shown_once token))
        × (Auth.verify digest token t ≡ true))

bootstrap-HasToken :
    (digest : String → List ℕ → List ℕ) (token : String) (salt : List ℕ) (now : ℕ) (s : Store)
    → has_form 43 token ≡ true
    → (let (result, t) = bootstrap_database digest true token salt now s in
        (is_some t.administrator_auth ≡ true) × HasToken digest token s result t)
unfolding bootstrap_database Auth.bootstrap Auth.replace Auth.status auth_record set_auth_record
    Auth.verify
bootstrap-HasToken digest token salt now s form = elim (Option-cases s.administrator_auth) [
  | inl new ↦ rw new (
    refl,
    inr (
      refl,
      refl,
      ground (arith, form, (bytes_beq_iff (digest token salt) (digest token salt)).1 refl),
    ),
  )
  | inr (r, old) ↦ rw old (refl, inl (refl, refl, refl))
]

-- After the bootstrap of a database at a terminal, whatever was in it, a token is configured: the one
-- that there was, with the store unchanged, or else the one that is shown, and that one is accepted.
-- A managed service then never fails for the want of a token: it starts over this store exactly with
-- the manager that can be made of the file, the environment and the stored settings, provided that
-- they ask for tokens. The token that is generated has the form of tokens.
pub bootstrap_starts :
    (fields_are_valid : Settings → Bool) (digest : String → List ℕ → List ℕ) (defaults : Settings)
    (file : ConfigFile) (environment : Settings) (token : String) (salt : List ℕ) (now : ℕ)
    (s : Store)
    → has_form 43 token ≡ true
    → (let (result, t) = bootstrap_database digest true token salt now s in
        (is_some t.administrator_auth ≡ true)
        × HasToken digest token s result t
        × StartsIfTokenMode fields_are_valid defaults file environment t)
bootstrap_starts fields_are_valid digest defaults file environment token salt now s form =
    let (known, kept) = bootstrap-HasToken digest token salt now s form in
    (
      known,
      kept,
      with_token fields_are_valid defaults file environment
          (bootstrap_database digest true token salt now s).1 known,
    )
