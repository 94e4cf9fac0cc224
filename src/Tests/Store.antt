-- ===== src/Tests/Store.antt =====
-- The administrative store (src/pitblu_core/storage.py).
use pitblu_core.Prelude.{Dict, String, [], err, ok, version_conflict, ◌∷◌, ◌≡◌}
use pitblu_core.Storage.{config_state, new_store, replace_config}
use pitblu_core.Storage.Versions.{second_writer_refused}

abbrev setting : String → Dict String String
setting mode = ("auth.mode", mode) ∷ []

second_writer_refused_example :
    let (r₁, s₁) = replace_config (setting "token") 1 new_store in
    let (r₂, s₂) = replace_config (setting "disabled") 1 s₁ in
    (r₁ ≡ ok 2)
    × (config_state s₁ ≡ (2, setting "token"))
    × (r₂ ≡ err (version_conflict 2))
    × (s₂ ≡ s₁)
unfolding config_state
second_writer_refused_example =
    second_writer_refused new_store (setting "token") (setting "disabled")
