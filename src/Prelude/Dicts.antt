-- ===== src/Prelude/Dicts.antt =====
-- Python's `dict` as an association list in insertion order. A store of an existing key keeps its
-- place, as in Python; a removal takes every entry of the key, of which a `dict` has one.
use mathlib.Core.Path.{◌≡◌, refl}
use mathlib.Core.Bool.{Bool, true}
use mathlib.Core.Option.{Option, none, some}
use mathlib.Core.List.{List, [], ◌∷◌, map}
use native.Mathlib.Omega.{arith}
use pitblu_core.Prelude.Tests.{if◌then◌else◌}
use pitblu_core.Prelude.Equality.{Eq, ◌==◌, ==_iff}

abbrev pub Dict {ℓ} : Type ℓ → Type ℓ → Type ℓ
Dict K V = List (K × V)

pub ==-refl {ℓ} : {K : Type ℓ} ⦃e : Eq K⦄ (k : K) → (k == k) ≡ true
==-refl k = (==_iff k k).1 refl

module _ {ℓ} {K V : Type ℓ} ⦃e : Eq K⦄ where
  -- `d.get(k)`
  unfoldable pub lookup : K → Dict K V → Option V
  lookup k [] = none
  lookup k ((j, v) ∷ d) = if j == k then some v else lookup k d

  -- `d[k] = v`
  unfoldable pub insert : K → V → Dict K V → Dict K V
  insert k v [] = (k, v) ∷ []
  insert k v ((j, w) ∷ d) = if j == k then (j, v) ∷ d else (j, w) ∷ insert k v d

  -- `d.pop(k, None)`
  unfoldable pub remove : K → Dict K V → Dict K V
  remove k [] = []
  remove k ((j, v) ∷ d) = if j == k then remove k d else (j, v) ∷ remove k d

  -- `{key: value for key, value in d.items() if p key}`
  unfoldable pub restrict : (K → Bool) → Dict K V → Dict K V
  restrict p [] = []
  restrict p ((j, v) ∷ d) = if p j then (j, v) ∷ restrict p d else restrict p d

  -- `d.values()`
  unfoldable pub values : Dict K V → List V
  values d = map (λ x. x.1) d

  -- `d.setdefault(k, v)`, as a statement
  unfoldable pub set_default : K → V → Dict K V → Dict K V
  set_default k v d = elim (lookup k d) [ none ↦ insert k v d | some _ ↦ d ]

  pub lookup-insert :
      (j k : K) (v : V) (d : Dict K V)
      → lookup j (insert k v d) ≡ (if k == j then some v else lookup j d)
  unfolding lookup insert
  lookup-insert j k v [] = refl
  lookup-insert j k v ((i, w) ∷ d) =
      ground (arith, ==_iff k j, ==_iff i k, ==_iff i j, lookup-insert j k v d)

  pub lookup-remove :
      (j k : K) (d : Dict K V) → lookup j (remove k d) ≡ (if k == j then none else lookup j d)
  unfolding lookup remove
  lookup-remove j k [] = ground arith
  lookup-remove j k ((i, w) ∷ d) =
      ground (arith, ==_iff k j, ==_iff i k, ==_iff i j, lookup-remove j k d)

  pub lookup-restrict :
      (j : K) (p : K → Bool) (d : Dict K V)
      → lookup j (restrict p d) ≡ (if p j then lookup j d else none)
  unfolding lookup restrict
  lookup-restrict j p [] = ground arith
  lookup-restrict j p ((i, w) ∷ d) = ground (arith, ==_iff i j, lookup-restrict j p d)

  pub lookup-set_default :
      (j k : K) (v : V) (d : Dict K V)
      → lookup j (set_default k v d)
        ≡ (if k == j then elim (lookup k d) [ none ↦ some v | some w ↦ some w ] else lookup j d)
  unfolding set_default
  lookup-set_default j k v d = ground (arith, ==_iff k j, lookup-insert j k v d)

pub ruleset dict_laws = (lookup-insert, lookup-remove, lookup-restrict, ==-refl)
