-- ===== src/Api/Changes.antt =====
-- A change of the configuration by the interface (src/pitblu_core/api.py, `patch_config`).
use pitblu_core.Prelude.{
  ==_iff, Bool, Bool-cases, Exception, List, Option, Result, String, ap, arith, err, false, inl,
  inr, is_some, lookup, none, not, ok, option_eq, refl, some, string_eq, subst, sym, true, values,
  ℕ, ◌&&◌, ◌+◌, ◌==◌, ◌↔◌, ◌∙◌, ◌≡◌, ◌⊎◌,
}
use pitblu_core.Models.{Datetime}
use pitblu_core.Events.{TelemetryEvent, configuration, configuration_version, publish}
use pitblu_core.Storage.{Store, auth_record, config_state, replace_config, secret_status}
use pitblu_core.Auth
use pitblu_core.Configuration.{
  ConfigurationManager, Settings, adopt, from_keys, token_mode, update, update_all,
}
use pitblu_core.Configuration.Acceptance.{IsAcceptable, acceptable-updates, made-IsAcceptable}
use pitblu_core.Configuration.Exposure.{update-cases}
use pitblu_core.Api.{
  ApiError, App, Outcome, and_then, answered, chain, failed, on_manager, outcome, raised,
}
use pitblu_core.Api.Routes.{
  Given, IfMatch, Reply, absent, as_conflict, config_reply, config_response, configuration_event,
  conflict_of, password_name, sorted_names, unreadable, version,
}
use pitblu_core.Api.Dispatch.{patch_config, try_update}

-- Nothing has come of a call.
abbrev pub IsUnchanged : App → Outcome Reply × App → Type 0
IsUnchanged app x = ((e : ApiError) × (x.0 ≡ failed e)) × (x.1 ≡ app)

-- The event that tells of a change to a version
abbrev pub change_event : App → Settings → ℕ → Datetime → TelemetryEvent
change_event app values number now = record {
  session_id = "";
  type = configuration;
  observed_at = now;
  sequence = number;
  source = app.source;
  device_id = none;
  probe = none;
  payload = configuration_version number (sorted_names values);
}

-- A change that was made, over the version that the client named
pub record IsChanged (app : App) (values : Settings) (expected : ℕ) (now : Datetime)
    (x : Outcome Reply × App) : Type 0 where
  pub answers :
      (password : Bool × Option ℕ) × (x.0
        ≡ answered (
            config_reply (record {
              number = expected + 1;
              values = update_all values app.manager.values;
              sources = update_all (from_keys values "persisted_override") app.manager.sources;
              password = password;
            })))
  pub was_current : app.store.config_version ≡ expected
  pub number : x.1.store.config_version ≡ expected + 1
  pub stored : x.1.store.config_overrides ≡ update_all values app.manager.persisted
  pub told : x.1.bus ≡ publish (change_event app values (expected + 1) now) app.bus
  pub service : x.1.service ≡ app.service

replaced-version :
    (overrides : Settings) (expected : ℕ) (s : Store) (n : ℕ) (t : Store)
    → replace_config overrides expected s ≡ (ok n, t)
    → s.config_version ≡ expected
unfolding replace_config
replaced-version overrides expected s n t h = ground (arith, h)

refused_not_ok : {A : Type 0} {a : A} (e : Exception) → ◌≡◌ {A = Result A} (err e) (ok a) → ⊥
refused_not_ok e h = cc h

version-injective : (a b : ℕ) → version a ≡ version b → a ≡ b
version-injective a b e = ap (λ v. elim v [ version n ↦ n | absent ↦ a | unreadable ↦ a ]) e

module _ (fields_are_valid : Settings → Bool) (digest : String → List ℕ → List ℕ) where
  updated :
      (values : Settings) (expected : ℕ) (g : Given) (app : App)
      → app.manager.store ≡ app.store
      → (let x : Outcome Settings × App =
            on_manager (update fields_are_valid values expected) app in
          let y =
            and_then
              (as_conflict x.0)
              (λ u. chain (configuration_event values g.at₀) λ v. config_response)
              x.1 in
          (IsUnchanged app y
            × ¬ IsAcceptable fields_are_valid values expected
                (record app.manager { store = app.store }))
          ⊎ (IsAcceptable fields_are_valid values expected
                (record app.manager { store = app.store })
              × IsChanged app values expected g.at₀ y))
  unfolding adopt configuration_event config_response config_state replace_config
  updated values expected g app same =
      elim (update-cases fields_are_valid values expected
        (record app.manager { store = app.store })) [
          | inl (e, refused) ↦ inl (
            subst after (sym refused) (
              (conflict_of (raised e), refl),
              λ i. record app { manager = record app.manager { store = sym same i } },
            ),
            λ a. refused_not_ok e (
                sym (ap (λ x. x.0) refused)
                ∙ acceptable-updates fields_are_valid values expected
                    (record app.manager { store = app.store }) a),
          )
          | inr (store, known, validated, written, now_stored, done) ↦ inr (
            made-IsAcceptable fields_are_valid values expected
                (record app.manager { store = app.store }) known validated
                (replaced-version (update_all values app.manager.persisted) expected app.store
                  (expected + 1) store written),
            subst changed (sym done) (record {
              answers = (secret_status password_name store, refl);
              was_current =
                  replaced-version (update_all values app.manager.persisted) expected app.store
                    (expected + 1) store written;
              number = ap (λ x. x.0) now_stored;
              stored = ap (λ x. x.1) now_stored;
              told = refl;
              service = refl;
            }),
          )
        ]
    where
      leave : Result Settings × ConfigurationManager → Outcome Reply × App
      leave x =
          and_then (as_conflict (outcome x.0))
            (λ u. chain (configuration_event values g.at₀) λ v. config_response)
            (record app { manager = x.1; store = x.1.store })

      after : Result Settings × ConfigurationManager → Type 0
      after x = IsUnchanged app (leave x)

      changed : Result Settings × ConfigurationManager → Type 0
      changed x = IsChanged app values expected g.at₀ (leave x)

  -- A change may be made: all settings exist, those that result are valid and either listen on the
  -- loopback address or ask for a token, a change that asks for tokens finds one configured, and the
  -- version is the current one.
  pub record MayChange (values : Settings) (expected : ℕ) (app : App) : Type 0 where
    pub acceptable :
        IsAcceptable fields_are_valid values expected (record app.manager { store = app.store })
    pub has_token :
        lookup "auth.mode" values ≡ some token_mode → is_some app.store.administrator_auth ≡ true

  token_test :
      (values : Settings) (app : App)
      → ((lookup "auth.mode" values == some token_mode && not (Auth.status app.store).0) ≡ false)
        ↔ (lookup "auth.mode" values ≡ some token_mode
            → is_some app.store.administrator_auth ≡ true)
  unfolding Auth.status auth_record
  token_test values app = (
    λ free mode. ground (arith, free, mode, ==_iff (lookup "auth.mode" values) (some token_mode)),
    λ h. elim (Bool-cases (lookup "auth.mode" values == some token_mode)) [
      | inl asks ↦
          ground (arith, asks, h ((==_iff (lookup "auth.mode" values) (some token_mode)).0 asks))
      | inr other ↦ ground (arith, other)
    ],
  )

  -- `PATCH /config` does everything or nothing, and it does it exactly if it may: if `If-Match` gives
  -- the current version, all settings exist, those that result are valid and are not exposed without
  -- a token, and a change to token mode finds a token. Then the version counts one up, the store
  -- holds the new overrides, the answer shows the new settings, and exactly the one event of the
  -- change is published. Else it answers with an error and changes nothing. The manager and the
  -- application hold the one store.
  pub patch_config_all_or_nothing :
      (values : Settings) (if_match : IfMatch) (g : Given) (app : App)
      → app.manager.store ≡ app.store
      → (let x = patch_config fields_are_valid digest values if_match g app in
          (IsUnchanged app x
            × ¬ ((expected : ℕ) × (if_match ≡ version expected) × MayChange values expected app))
          ⊎ ((expected : ℕ) × (if_match ≡ version expected)
              × MayChange values expected app
              × IsChanged app values expected g.at₀ x))
  unfolding patch_config try_update
  patch_config_all_or_nothing values absent g app same =
      inl (((_, refl), refl), λ (n, e, may). absurd (cc e))
  patch_config_all_or_nothing values unreadable g app same =
      inl (((_, refl), refl), λ (n, e, may). absurd (cc e))
  patch_config_all_or_nothing values (version expected) g app same =
      elim (Bool-cases
        (lookup "auth.mode" values == some token_mode && not (Auth.status app.store).0)) [
          | inl refused ↦ rw refused (
              inl (
                ((_, refl), refl),
                λ (n, e, may). absurd (cc (refused, (token_test values app).1 may.has_token)),
              ))
          | inr free ↦ rw free (elim (updated values expected g app same) [
            | inl (nothing, never) ↦ inl (
              nothing,
              λ (n, e, may). never (
                  subst
                    (λ k.
                      IsAcceptable fields_are_valid values k
                        (record app.manager { store = app.store }))
                    (version-injective n expected (sym e)) may.acceptable),
            )
            | inr (may, changed) ↦ inr (
              expected,
              refl,
              record { acceptable = may; has_token = (token_test values app).0 free },
              changed,
            )
          ])
        ]
