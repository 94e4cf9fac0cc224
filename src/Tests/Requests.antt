-- ===== src/Tests/Requests.antt =====
-- The rate limit and the request bodies (src/pitblu_core/security.py).
use pitblu_core.Prelude.{List, [], arith, false, refl, ℕ, ◌*◌, ◌++◌, ◌+◌, ◌-◌, ◌∷◌, ◌≡◌, ◌≤◌}
use pitblu_core.Security.{
  RateLimit, body_part, bounded_call, ceil_div, delivered, rate_limit, read_body, refilled,
  retry_after, token,
}
use pitblu_core.Security.Rate.{grants, grants_bounded, retry_after_honoured}
use pitblu_core.Security.Bodies.{bounded_call_whole, parts}

abbrev two_calls : List ℕ
two_calls = 5 ∷ 1000000 ∷ []

grants_bounded_example :
    (grants two_calls (rate_limit 1 0)).0 * token ≤ 1 * token + (1000000 - 0) * 1
grants_bounded_example = grants_bounded 1 0 two_calls (omega arith, (omega arith, tt))

abbrev spent : RateLimit
spent = record { per_minute = 30; capacity = 10 * token; tokens = 0; last = 0 }

spent_waits : (retry_after 0 spent).0 ≡ 2
unfolding retry_after refilled ceil_div
spent_waits = refl

retry_after_honoured_example : (retry_after 2000000 (retry_after 0 spent).1).0 ≡ 0
retry_after_honoured_example =
    retry_after_honoured spent 0 2000000 (omega arith) (omega arith) (rw spent_waits (omega arith))
      (rw spent_waits (omega arith))

bounded_call_whole_example :
    bounded_call 3 "http" "POST" (parts ((7 ∷ []) ∷ []) (8 ∷ 9 ∷ []) ++ [])
    ≡ delivered (7 ∷ 8 ∷ 9 ∷ [])
bounded_call_whole_example = bounded_call_whole 3 "POST" ((7 ∷ []) ∷ []) (8 ∷ 9 ∷ []) [] refl

a_body : bounded_call 3 "http" "PUT" (body_part (4 ∷ []) false ∷ []) ≡ delivered (4 ∷ [])
unfolding bounded_call read_body
a_body = refl
