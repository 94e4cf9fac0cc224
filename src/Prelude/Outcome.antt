-- ===== src/Prelude/Outcome.antt =====
-- Python's exceptions as values, and methods that change an object and may raise: what was written
-- before a raise stays written, so the object comes back beside the error.
use Prim.Native.Nat.{ℕ}
use Prim.Native.String.{String}
use mathlib.Core.Path.{◌≡◌, ap}
use mathlib.Core.Bool.{Bool, true, false}

-- The message is the text of the source, without the values that it is formatted with.
pub data Exception : Type 0 where
  value_error runtime_error index_error key_error : String → Exception
  protocol_error adapter_error adapter_disconnected unsupported_device : String → Exception
  invalid_transition state_conflict resource_not_found configuration_value : String → Exception
  version_conflict : ℕ → Exception
  -- an exception of another package, by the name of its class
  foreign_error : String → Exception

pub data Result {ℓ} (A : Type ℓ) : Type ℓ where
  ok : A → Result A
  err : Exception → Result A

pub ok-injective {ℓ} : {A : Type ℓ} {x y : A} → ◌≡◌ {A = Result A} (ok x) (ok y) → x ≡ y
ok-injective {x} e = ap (λ r. elim r [ ok z ↦ z | err z ↦ x ]) e

-- `if test: raise e`, then the rest.
abbrev pub reject_if {ℓ} : {A : Type ℓ} → Bool → Exception → Result A → Result A
reject_if true e rest = err e
reject_if false e rest = rest

abbrev pub bind_result {ℓ κ} : {A : Type ℓ} {B : Type κ} → Result A → (A → Result B) → Result B
bind_result (ok a) f = f a
bind_result (err e) f = err e

-- The returned value or the exception, and the object as it was left.
abbrev pub Exec {ℓ} : Type ℓ → Type ℓ → Type ℓ
Exec S A = S → Result A × S

module _ {ℓ} {S A B : Type ℓ} where
  abbrev pub after_result : Result A → (A → Exec S B) → Exec S B
  after_result (ok a) f s = f a s
  after_result (err e) f s = (err e, s)

  infixl 5 ◌>>=◌ ◌>>◌
  abbrev pub ◌>>=◌ : Exec S A → (A → Exec S B) → Exec S B
  ◌>>=◌ m f s = let (r, s') = m s in after_result r f s'

  abbrev pub ◌>>◌ : Exec S A → Exec S B → Exec S B
  m >> k = m >>= λ _. k

module _ {ℓ} {S A : Type ℓ} where
  abbrev pub pure : A → Exec S A
  pure a s = (ok a, s)

  abbrev pub raise : Exception → Exec S A
  raise e s = (err e, s)

  abbrev pub gets : (S → A) → Exec S A
  gets f s = (ok (f s), s)

-- Assignments to the object's fields.
abbrev pub modify {ℓ} : {S : Type ℓ} → (S → S) → Exec S (Unit {ℓ})
modify f s = (ok tt, f s)

-- The statement made only if the test holds.
abbrev pub when {ℓ} : {S : Type ℓ} → Bool → Exec S (Unit {ℓ}) → Exec S (Unit {ℓ})
when true m = m
when false m = λ s. (ok tt, s)
