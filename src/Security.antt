-- ===== src/Security.antt =====
-- src/pitblu_core/security.py: the process-wide rate limits and the bounded intake of request bodies.
-- Time is in microseconds. The limiter's floats are exact here: its tokens are counted in parts, of
-- which a token has sixty million, so that `per_minute` parts come back each microsecond.
pub mod Rate
pub mod Bodies
use pitblu_core.Prelude.{
  Bool, List, String, [], if◌then◌else◌, leb, length, ltb, max, min, nat_eq, not, string_eq, ℕ, ◌*◌,
  ◌++◌, ◌+◌, ◌-◌, ◌/◌, ◌==◌, ◌||◌, ◌∷◌,
}

abbrev pub token : ℕ
token = 60000000

pub record RateLimit : Type 0 where
  pub per_minute : ℕ
  pub capacity : ℕ
  pub tokens : ℕ
  pub last : ℕ

-- `RateLimit.__init__` at a time of the clock
unfoldable pub rate_limit : ℕ → ℕ → RateLimit
rate_limit per_minute now = record {
  per_minute = per_minute;
  capacity = min per_minute 10 * token;
  tokens = min per_minute 10 * token;
  last = now;
}

-- The parts that are there at a time; `-` on ℕ is `max(0, …)`.
unfoldable pub refilled : ℕ → RateLimit → ℕ
refilled now r = min r.capacity (r.tokens + (now - r.last) * r.per_minute)

-- `math.ceil(a / b)`, for a positive `b`
unfoldable pub ceil_div : ℕ → ℕ → ℕ
ceil_div a b = (a + b - 1) / b

-- `retry_after`: 0 if the call is granted, and else the seconds to wait
unfoldable pub retry_after : ℕ → RateLimit → ℕ × RateLimit
unfolding refilled ceil_div
retry_after now r =
    let tokens = refilled now r in
    if leb token tokens then (0, record r { tokens = tokens - token; last = now }) else (
      max 1 (ceil_div (token - tokens) (1000000 * r.per_minute)),
      record r { tokens = tokens; last = now },
    )

-- An ASGI message: part of a body and whether more follows, or the client's end.
pub data Message : Type 0 where
  body_part : List ℕ → Bool → Message
  disconnect : Message

-- What `RequestBounds.__call__` does with a request: hand it on as it comes, hand on a whole body,
-- answer with an error, or nothing.
pub data Intake : Type 0 where
  untouched : Intake
  delivered : List ℕ → Intake
  rejected : ℕ → String → Intake
  abandoned : Intake

abbrev pub too_large : Intake
too_large = rejected 413 "request_too_large"

-- The loop; `chunks` is what has come, joined. Where the messages end before the body does, the
-- five seconds pass.
unfoldable pub read_body : ℕ → List ℕ → List Message → Intake
read_body maximum chunks [] = rejected 408 "request_timeout"
read_body maximum chunks (disconnect ∷ messages) = abandoned
read_body maximum chunks (body_part chunk more ∷ messages) =
    let rest = read_body maximum (chunks ++ chunk) messages in
    if ltb maximum (length chunks + length chunk)
    then too_large
    else if more
    then rest
    else delivered (chunks ++ chunk)

abbrev pub changes_state : String → Bool
changes_state method =
    method == "POST" || method == "PUT" || method == "PATCH" || method == "DELETE"

-- `__call__`, given the scope's type and method and the messages that come within five seconds
unfoldable pub bounded_call : ℕ → String → String → List Message → Intake
unfolding read_body
bounded_call maximum kind method messages =
    if not (kind == "http") || not (changes_state method)
    then untouched
    else read_body maximum [] messages
