-- ===== src/Auth.antt =====
-- src/pitblu_core/auth.py: the administrator's token. The hash function is a parameter, and what the
-- source of random bytes yields is an argument, as is the time.
pub mod Rotation
use Prim.Native.Char.{code}
use Prim.Native.String.{[] as ε, ◌∷◌ as ◌▹◌}
use pitblu_core.Prelude.{
  Bool, Exec, List, Option, String, [], err, false, if◌then◌else◌, is_some, leb, ltb, nat_eq, none,
  not, ok, runtime_error, some, true, ℕ, ◌&&◌, ◌-◌, ◌==◌, ◌||◌, ◌∷◌,
}
use pitblu_core.Storage.{Store, auth_record, set_auth_record}

-- `[A-Za-z0-9_-]`, by its code point
abbrev pub is_token_character : ℕ → Bool
is_token_character c =
    (leb 65 c && leb c 90)
    || (leb 97 c && leb c 122)
    || (leb 48 c && leb c 57)
    || c == 95
    || c == 45

-- `re.fullmatch(r"[A-Za-z0-9_-]{43}", token)`, for what is left of the count
unfoldable pub has_form : ℕ → String → Bool
has_form n ε = n == 0
has_form n (c ▹ rest) = ltb 0 n && is_token_character (code c) && has_form (n - 1) rest

-- `hmac.compare_digest`
unfoldable pub bytes_beq : List ℕ → List ℕ → Bool
bytes_beq [] [] = true
bytes_beq [] (b ∷ bs) = false
bytes_beq (a ∷ xs) [] = false
bytes_beq (a ∷ xs) (b ∷ bs) = a == b && bytes_beq xs bs

module _ (digest : String → List ℕ → List ℕ) where
  -- `_replace`, which returns the token
  unfoldable pub replace : String → List ℕ → ℕ → Store → String × Store
  replace token salt now s = (
    token,
    set_auth_record (record { salt = salt; digest = digest token salt; changed_at = now }) s,
  )

  -- `bootstrap`
  unfoldable pub bootstrap : String → List ℕ → ℕ → Exec Store String
  unfolding replace
  bootstrap token salt now s =
      if is_some (auth_record s)
      then (err (runtime_error "administrator token is already configured"), s)
      else (let (issued, t) = replace token salt now s in (ok issued, t))

  -- `rotate`
  unfoldable pub rotate : String → List ℕ → ℕ → Store → String × Store
  unfolding replace
  rotate token salt now s = replace token salt now s

  -- `verify`
  unfoldable pub verify : String → Store → Bool
  unfolding has_form bytes_beq
  verify token s =
      if not (has_form 43 token)
      then false
      else elim (auth_record s) [ none ↦ false | some r ↦ bytes_beq (digest token r.salt) r.digest ]

-- `status`: whether a token is configured, and when it was changed
unfoldable pub status : Store → Bool × Option ℕ
status s = elim (auth_record s) [ none ↦ (false, none) | some r ↦ (true, some r.changed_at) ]
