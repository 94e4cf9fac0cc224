-- ===== src/Connection/Backoff.antt =====
-- The delays of `BackoffPolicy` (src/pitblu_core/connection.py).
use pitblu_core.Prelude.{
  All, List, [], any, arith, false, get_elem?, length, min, nat_eq, ok, refl, some, suc, zero, ℕ,
  ◌*◌, ◌+◌, ◌-◌, ◌<◌, ◌==◌, ◌∷◌, ◌≡◌, ◌≤◌,
}
use pitblu_core.Connection.{BackoffPolicy, backoff_policy, jittered, next_delay, unit}

-- What `__post_init__` ensures, and no method undoes.
pub record IsValidPolicy (p : BackoffPolicy) : Type 0 where
  pub some_delay : 1 ≤ length p.delays
  pub positive : All (λ d. 1 ≤ d) p.delays
  pub jitter_capped : p.jitter_fraction ≤ unit

any_zero : (ds : List ℕ) → any (λ d. d == 0) ds ≡ false → All (λ d. 1 ≤ d) ds
any_zero [] h = tt
any_zero (d ∷ ds) h = (ground arith, any_zero ds (ground arith))

-- A policy is constructed only with at least one delay, positive delays and a jitter of at most
-- one, and begins with no attempt made.
backoff_policy-IsValidPolicy :
    (delays : List ℕ) (jitter : ℕ) (p : BackoffPolicy)
    → backoff_policy delays jitter ≡ ok p
    → IsValidPolicy p × (p.delays ≡ delays) × (p.attempt ≡ 0)
unfolding backoff_policy
backoff_policy-IsValidPolicy delays jitter p h = (
  record {
    some_delay = ground arith;
    positive = ground (arith, any_zero delays);
    jitter_capped = ground arith;
  },
  ground arith,
  ground arith,
)

get_elem?-defined :
    {A : Type 0} (xs : List A) (i : ℕ) → i < length xs → (x : A) × (get_elem? xs i ≡ some x)
get_elem?-defined [] i h = absurd (omega arith)
get_elem?-defined (x ∷ xs) zero h = (x, refl)
get_elem?-defined (x ∷ xs) (suc i) h = get_elem?-defined xs i (omega arith)

scale : (b x y : ℕ) → x ≤ y → b * x ≤ b * y
scale b x y h = grind arith

scaled_low : (base random j : ℕ) → base * unit * (unit - j) ≤ jittered base random j
scaled_low base random j =
    omega (
      arith,
      scale base (unit * (unit - j)) (unit * unit - unit * j + 2 * random * j) (omega arith),
    )

scaled_high :
    (base random j : ℕ)
    → random ≤ unit
    → j ≤ unit
    → jittered base random j ≤ base * unit * (unit + j)
scaled_high base random j h k = omega (
  arith,
  scale base (unit * unit - unit * j + 2 * random * j) (unit * (unit + j))
      (omega (arith, scale j random unit h)),
)

-- With a valid policy `next_delay` never raises. The delay lies within the jitter's fraction of the
-- base, which is the delay numbered by the attempts made, or the last one; one attempt is counted.
pub next_delay_bounds :
    (random : ℕ) (p : BackoffPolicy)
    → IsValidPolicy p
    → random ≤ unit
    → (base delay : ℕ) × (get_elem? p.delays (min p.attempt (length p.delays - 1)) ≡ some base)
      × (next_delay random p ≡ (ok delay, record p { attempt = p.attempt + 1 }))
      × (base * unit * (unit - p.jitter_fraction) ≤ delay)
      × (delay ≤ base * unit * (unit + p.jitter_fraction))
unfolding next_delay
next_delay_bounds random p v h =
    let (base, e) =
      get_elem?-defined p.delays (min p.attempt (length p.delays - 1))
        (omega (arith, v.some_delay)) in
    (
      base,
      jittered base random p.jitter_fraction,
      e,
      rw (e, next_delay),
      scaled_low base random p.jitter_fraction,
      scaled_high base random p.jitter_fraction h v.jitter_capped,
    )
