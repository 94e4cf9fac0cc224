-- ===== src/Auth/Rotation.antt =====
-- Which tokens are accepted (src/pitblu_core/auth.py).
use Prim.Native.Char.{code}
use Prim.Native.String.{[] as ε, ◌∷◌ as ◌▹◌}
use pitblu_core.Prelude.{
  ==_iff, All, Bool, List, Option, Option-cases, String, [], ap, arith, err, false, if◌then◌else◌,
  inl, inr, length, nat_eq, none, not, ok, refl, some, sym, true, ℕ, ◌-◌, ◌↔◌, ◌∙◌, ◌∷◌, ◌≡◌, ◌≤◌,
  ◌⊎◌,
}
use pitblu_core.Storage.{AuthRecord, Store, auth_record, new_store, set_auth_record}
use pitblu_core.Auth.{bootstrap, bytes_beq, has_form, is_token_character, replace, rotate, verify}

pub bytes_beq_iff : (xs ys : List ℕ) → (bytes_beq xs ys ≡ true) ↔ (xs ≡ ys)
unfolding bytes_beq
bytes_beq_iff [] [] = ground arith
bytes_beq_iff [] (b ∷ ys) = ground arith
bytes_beq_iff (a ∷ xs) [] = ground arith
bytes_beq_iff (a ∷ xs) (b ∷ ys) = ground (arith, ==_iff a b, bytes_beq_iff xs ys)

-- The code points of a text
abbrev points : String → List ℕ
points ε = []
points (c ▹ rest) = code c ∷ points rest

-- An ASCII letter or digit, `_` or `-`
abbrev pub IsTokenCharacter : ℕ → Type 0
IsTokenCharacter c =
    ((65 ≤ c) × (c ≤ 90)) ⊎ ((97 ≤ c) × (c ≤ 122)) ⊎ ((48 ≤ c) × (c ≤ 57)) ⊎ (c ≡ 95) ⊎ (c ≡ 45)

-- So many of these characters
abbrev pub IsToken : ℕ → String → Type 0
IsToken n t = (length (points t) ≡ n) × All IsTokenCharacter (points t)

is_token_character_iff : (c : ℕ) → (is_token_character c ≡ true) ↔ IsTokenCharacter c
is_token_character_iff c = ground arith

has_form_iff : (n : ℕ) (t : String) → (has_form n t ≡ true) ↔ IsToken n t
unfolding has_form
has_form_iff n ε = ground arith
has_form_iff n (c ▹ rest) =
    ground (arith, is_token_character_iff (code c), has_form_iff (n - 1) rest)

-- A request for a token, with the random bytes and the time that it meets.
pub data Issue : Type 0 where
  bootstraps rotates : String → List ℕ → ℕ → Issue

module _ (digest : String → List ℕ → List ℕ) where
  -- The token that was handed out last with its salt, and the store, after a request
  unfoldable pub issue : Issue → Option (String × List ℕ) × Store → Option (String × List ℕ) × Store
  issue (rotates token salt now) (last, s) =
      (some ((rotate digest token salt now s).0, salt), (rotate digest token salt now s).1)
  issue (bootstraps token salt now) (last, s) =
      let (result, t) = bootstrap digest token salt now s in
      (elim result [ ok given ↦ some (given, salt) | err e ↦ last ], t)

  unfoldable pub issue_all :
      List Issue → Option (String × List ℕ) × Store → Option (String × List ℕ) × Store
  unfolding issue
  issue_all [] state = state
  issue_all (request ∷ requests) state = issue_all requests (issue request state)

  -- The record is that of the token.
  abbrev pub IsRecordOf : Option (String × List ℕ) → Option AuthRecord → Type 0
  IsRecordOf none none = Unit
  IsRecordOf none (some r) = ⊥
  IsRecordOf (some (token, salt)) none = ⊥
  IsRecordOf (some (token, salt)) (some r) = (r.salt ≡ salt) × (r.digest ≡ digest token salt)

  issue-IsRecordOf :
      (request : Issue) (last : Option (String × List ℕ)) (s : Store)
      → IsRecordOf last (auth_record s)
      → IsRecordOf (issue request (last, s)).0 (auth_record (issue request (last, s)).1)
  unfolding issue rotate replace bootstrap auth_record set_auth_record
  issue-IsRecordOf (rotates token salt now) last s v = (refl, refl)
  issue-IsRecordOf (bootstraps token salt now) last s v = elim (Option-cases (auth_record s)) [
    | inl e ↦ rw (e, issue) (refl, refl)
    | inr (r, e) ↦ rw (e, issue) (rw e at v)
  ]

  issue_all-IsRecordOf :
      (requests : List Issue) (last : Option (String × List ℕ)) (s : Store)
      → IsRecordOf last (auth_record s)
      → IsRecordOf (issue_all requests (last, s)).0 (auth_record (issue_all requests (last, s)).1)
  unfolding issue_all
  issue_all-IsRecordOf [] last s v = v
  issue_all-IsRecordOf (request ∷ requests) last s v =
      issue_all-IsRecordOf requests (issue request (last, s)).0 (issue request (last, s)).1
        (issue-IsRecordOf request last s v)

  -- A text of the form of tokens that the hash cannot tell from the token, under the token's salt; the
  -- token itself is one.
  abbrev pub IsAcceptable : Option (String × List ℕ) → String → Type 0
  IsAcceptable none other = ⊥
  IsAcceptable (some (token, salt)) other =
      IsToken 43 other × (digest other salt ≡ digest token salt)

  by_record :
      (last : Option (String × List ℕ)) (o : Option AuthRecord) (other : String)
      → IsRecordOf last o
      → let answer : Bool =
          if not (has_form 43 other)
          then false
          else elim o [ none ↦ false | some r ↦ bytes_beq (digest other r.salt) r.digest ] in
        (answer ≡ true) ↔ IsAcceptable last other
  by_record none none other v = (λ h. absurd (ground arith), λ e. absurd e)
  by_record none (some r) other v = elim v [ ]
  by_record (some (token, salt)) none other v = elim v [ ]
  by_record (some (token, salt)) (some r) other v = (
    λ h. (
      (has_form_iff 43 other).0 (ground arith),
      ap (digest other) (sym v.0)
          ∙ (bytes_beq_iff (digest other r.salt) r.digest).0 (ground arith)
          ∙ v.1,
    ),
    λ e. ground (
      arith,
      (has_form_iff 43 other).1 e.0,
      (bytes_beq_iff (digest other r.salt) r.digest).1 (ap (digest other) v.0 ∙ e.1 ∙ sym v.1),
    ),
  )

  accepted :
      (last : Option (String × List ℕ)) (s : Store) (other : String)
      → IsRecordOf last (auth_record s)
      → (verify digest other s ≡ true) ↔ IsAcceptable last other
  unfolding verify
  accepted last s other v = by_record last (auth_record s) other v

  -- Over any set-ups and rotations of a new store, in any order, exactly the texts are accepted that
  -- have the form of tokens and the digest, under its salt, of the token that was handed out last: no
  -- earlier token is, unless the hash takes it for the last one. As long as none was handed out, none
  -- is accepted.
  pub last_token_only :
      (requests : List Issue) (other : String)
      → let (last, s) = issue_all requests (none, new_store) in
        (verify digest other s ≡ true) ↔ IsAcceptable last other
  last_token_only requests other =
      accepted (issue_all requests (none, new_store)).0 (issue_all requests (none, new_store)).1
        other (issue_all-IsRecordOf requests none new_store (unfold auth_record in tt))
