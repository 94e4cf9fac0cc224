-- ===== src/Security/Rate.antt =====
-- What the limiter of src/pitblu_core/security.py lets through.
use native.Mathlib.Nat.{div-add-mod, mod-lt}
use mathlib.Core.Path.{subst₂}
use pitblu_core.Prelude.{
  Bool, Bool-cases, List, [], arith, false, if◌then◌else◌, inl, inr, leb, max, min, nat_eq, subst,
  sym, true, ℕ, ◌%◌, ◌*◌, ◌+◌, ◌-◌, ◌/◌, ◌<◌, ◌==◌, ◌∷◌, ◌≡◌, ◌≤◌,
}
use pitblu_core.Security.{RateLimit, ceil_div, rate_limit, refilled, retry_after, token}

-- The calls that are granted among those at the given times, and the limiter after them.
unfoldable pub grants : List ℕ → RateLimit → ℕ × RateLimit
grants [] r = (0, r)
grants (now ∷ times) r =
    let (wait, r') = retry_after now r in
    let (n, s) = grants times r' in ((if wait == 0 then n + 1 else n), s)

-- The clock of the calls never runs backwards from the given time on.
abbrev pub IsMonotone : ℕ → List ℕ → Type 0
IsMonotone last [] = Unit
IsMonotone last (now ∷ times) = (last ≤ now) × IsMonotone now times

abbrev pub final : ℕ → List ℕ → ℕ
final last [] = last
final last (now ∷ times) = final now times

-- What one call takes away, and what came back before it.
retry_after-tokens :
    (now : ℕ) (r : RateLimit)
    → let (wait, s) = retry_after now r in
      ((if wait == 0 then token else 0) + s.tokens ≤ r.tokens + (now - r.last) * r.per_minute)
      × (s.last ≡ now)
      × (s.per_minute ≡ r.per_minute)
unfolding retry_after
retry_after-tokens now r = ground arith

final_ge : (last : ℕ) (times : List ℕ) → IsMonotone last times → last ≤ final last times
final_ge last [] h = omega arith
final_ge last (now ∷ times) h = omega (arith, final_ge now times h.1)

span : (a b c p : ℕ) → a ≤ b → b ≤ c → (b - a) * p + (c - b) * p ≡ (c - a) * p
span a b c p h k =
    let e : c ≡ a + (b - a) + (c - b) = omega arith in
    let d : c - a ≡ (b - a) + (c - b) = omega arith in rw d (omega arith)

combine :
    (b : Bool) (g left between before d₁ d₂ d : ℕ)
    → (if b then token else 0) + between ≤ before + d₁
    → g * token + left ≤ between + d₂
    → d₁ + d₂ ≡ d
    → (if b then g + 1 else g) * token + left ≤ before + d
combine true g left between before d₁ d₂ d h k e = omega arith
combine false g left between before d₁ d₂ d h k e = omega arith

-- The parts that calls on a monotone clock take, and those that are left, come from the parts that
-- were there and those that came back meanwhile.
grants_account :
    (times : List ℕ) (r : RateLimit)
    → IsMonotone r.last times
    → (grants times r).0 * token + (grants times r).1.tokens
      ≤ r.tokens + (final r.last times - r.last) * r.per_minute
unfolding grants
grants_account [] r h = omega arith
grants_account (now ∷ times) r h =
    let s = (retry_after now r).1 in
    let (taken, at, rate) = retry_after-tokens now r in
    let rest = grants_account times s (subst (λ t. IsMonotone t times) (sym at) h.1) in
    let rest' =
      subst₂
        (λ (t p : ℕ).
          (grants times s).0 * token + (grants times s).1.tokens
          ≤ s.tokens + (final t times - t) * p)
        at rate rest in
    combine ((retry_after now r).0 == 0) (grants times s).0 (grants times s).1.tokens s.tokens
      r.tokens ((now - r.last) * r.per_minute) ((final now times - now) * r.per_minute)
      ((final now times - r.last) * r.per_minute) taken rest'
      (span r.last now (final now times) r.per_minute h.0 (final_ge now times h.1))

-- Over any calls on a clock that does not run backwards, a new limiter grants at most its burst,
-- which is `per_minute` but no more than ten, and `per_minute` for each minute that passes from its
-- construction to the last call: in parts of sixty million to a call and microseconds.
pub grants_bounded :
    (per_minute start : ℕ) (times : List ℕ)
    → IsMonotone start times
    → (grants times (rate_limit per_minute start)).0 * token
      ≤ min per_minute 10 * token + (final start times - start) * per_minute
unfolding rate_limit
grants_bounded p start times h = omega (arith, grants_account times (rate_limit p start) h)

ceil_div-le : (a b : ℕ) → 0 < b → a ≤ ceil_div a b * b
unfolding ceil_div
ceil_div-le a b h =
    let whole : b * ((a + b - 1) / b) + (a + b - 1) % b ≡ a + b - 1 = div-add-mod (a + b - 1) b in
    let part : (a + b - 1) % b < b = mod-lt (a + b - 1) h in omega arith

-- What a refused call tells, and what it leaves.
refused :
    (now : ℕ) (r : RateLimit)
    → 0 < (retry_after now r).0
    → (refilled now r < token)
      × ((retry_after now r).0 ≡ max 1 (ceil_div (token - refilled now r) (1000000 * r.per_minute)))
      × ((retry_after now r).1 ≡ record r { tokens = refilled now r; last = now })
unfolding retry_after
refused now r w = elim (Bool-cases (leb token (refilled now r))) [
  | inl e ↦ absurd (ground arith)
  | inr e ↦ (ground arith, ground arith, rw (e, retry_after))
]

granted : (now : ℕ) (r : RateLimit) → token ≤ refilled now r → (retry_after now r).0 ≡ 0
unfolding retry_after
granted now r h = ground arith

mul_mono : (x y p : ℕ) → x ≤ y → x * p ≤ y * p
mul_mono x y p h = grind arith

-- What comes back while the client waits is enough.
waited :
    (t w p d : ℕ)
    → ceil_div (token - t) (1000000 * p) ≤ w
    → 1 ≤ p
    → w * 1000000 ≤ d
    → token ≤ t + d * p
waited t w p d c h k =
    let enough = ceil_div-le (token - t) (1000000 * p) (omega arith) in
    omega (
      arith,
      enough,
      mul_mono (ceil_div (token - t) (1000000 * p)) w p c,
      mul_mono (w * 1000000) d p k,
    )

-- The limiter's wait is honest: if it refuses a call and tells a number of seconds, then the next
-- call, made no earlier than those seconds later, is granted. The limiter has a positive rate and
-- room for at least one call.
pub retry_after_honoured :
    (r : RateLimit) (now later : ℕ)
    → 1 ≤ r.per_minute
    → token ≤ r.capacity
    → 0 < (retry_after now r).0
    → now + (retry_after now r).0 * 1000000 ≤ later
    → (retry_after later (retry_after now r).1).0 ≡ 0
retry_after_honoured r now later p c w h =
    let (short, wait, left) = refused now r w in
    rw left (
      granted later (record r { tokens = refilled now r; last = now })
        (unfold refilled in
          omega (
            arith,
            waited (refilled now r) (retry_after now r).0 r.per_minute (later - now) (omega arith) p
                (omega arith),
          )))
