-- ===== src/Tests/Deploy.antt =====
-- The start of a managed service (src/pitblu_core/deployment.py).
use pitblu_core.Prelude.{[], is_some, true, ◌∷◌, ◌≡◌}
use pitblu_core.Storage.{new_store}
use pitblu_core.Deployment.{bootstrap_database, not_set}
use pitblu_core.Deployment.Starts.{HasToken, StartsIfTokenMode, bootstrap_starts}
use pitblu_core.Tests.Settings.{a_token, all_valid, codes, defaults, form_of_token}

bootstrap_starts_example :
    (let (result, t) = bootstrap_database codes true a_token (7 ∷ []) 3 new_store in
      (is_some t.administrator_auth ≡ true)
      × HasToken codes a_token new_store result t
      × StartsIfTokenMode all_valid defaults not_set [] t)
bootstrap_starts_example =
    bootstrap_starts all_valid codes defaults not_set [] a_token (7 ∷ []) 3 new_store form_of_token
