-- ===== src/Connection.antt =====
-- src/pitblu_core/connection.py: the state machine of one device's connection and the backoff
-- between attempts. The numbers of the policy are floats in the source; here they are in millionths
-- (delays in microseconds), and a delay is exact, in units of a millionth of a microsecond over one
-- million.
pub mod Machine
pub mod Paths
pub mod Backoff
use pitblu_core.Prelude.{
  Bool, Eq, Exec, List, Option, Result, [], any, arith, bind_result, err, false, get_elem?, gets,
  if◌then◌else◌, index_error, invalid_transition, length, ltb, min, modify, nat_eq, none, not, ok,
  pure, reject_if, some, true, value_error, when, ℕ, ◌&&◌, ◌*◌, ◌+◌, ◌-◌, ◌==◌, ◌>>=◌, ◌>>◌, ◌||◌,
  ◌↔◌, ◌∷◌, ◌≡◌,
}

pub data DesiredState : Type 0 where
  wants_connected wants_disconnected : DesiredState

pub data ConnectionState : Type 0 where
  discovered connecting initialising connected polling : ConnectionState
  degraded backoff disconnected unsupported : ConnectionState

abbrev pub state_code : ConnectionState → ℕ
state_code discovered = 0
state_code connecting = 1
state_code initialising = 2
state_code connected = 3
state_code polling = 4
state_code degraded = 5
state_code backoff = 6
state_code disconnected = 7
state_code unsupported = 8

-- Identity of two members of the enum.
abbrev pub state_beq : ConnectionState → ConnectionState → Bool
state_beq a b = state_code a == state_code b

pub state_beq_iff : (a b : ConnectionState) → (state_beq a b ≡ true) ↔ (a ≡ b)
state_beq_iff a b = ground arith

instance abbrev pub state_eq : Eq ConnectionState
state_eq = record { beq = state_beq; beq_iff = state_beq_iff }

abbrev pub wants_off : DesiredState → Bool
wants_off wants_connected = false
wants_off wants_disconnected = true

-- `_ALLOWED`
unfoldable pub allowed : ConnectionState → List ConnectionState
allowed discovered = connecting ∷ disconnected ∷ unsupported ∷ []
allowed connecting = initialising ∷ backoff ∷ disconnected ∷ []
allowed initialising = connected ∷ backoff ∷ disconnected ∷ unsupported ∷ []
allowed connected = polling ∷ degraded ∷ backoff ∷ disconnected ∷ []
allowed polling = degraded ∷ backoff ∷ disconnected ∷ []
allowed degraded = polling ∷ backoff ∷ disconnected ∷ []
allowed backoff = connecting ∷ disconnected ∷ []
allowed disconnected = discovered ∷ connecting ∷ unsupported ∷ []
allowed unsupported = disconnected ∷ []

abbrev pub unit : ℕ
unit = 1000000

-- `BackoffPolicy`, without its source of random numbers: a call is given what the source returns.
pub record BackoffPolicy : Type 0 where
  pub delays : List ℕ
  pub jitter_fraction : ℕ
  pub attempt : ℕ

abbrev pub default_backoff : BackoffPolicy
default_backoff = record {
  delays = 2 * unit ∷ 4 * unit ∷ 8 * unit ∷ 15 * unit ∷ 30 * unit ∷ 60 * unit ∷ [];
  jitter_fraction = 200000;
  attempt = 0;
}

-- `BackoffPolicy.__post_init__`
unfoldable pub backoff_policy : List ℕ → ℕ → Result BackoffPolicy
backoff_policy delays jitter =
    reject_if (length delays == 0 || any (λ d. d == 0) delays)
      (value_error "backoff delays must be positive")
      (reject_if (ltb unit jitter) (value_error "jitter fraction must be between 0 and 1")
        (ok (record { delays = delays; jitter_fraction = jitter; attempt = 0 })))

-- `base * (1 + (random * 2 - 1) * jitter)`, times `unit * unit`; the factor is never negative,
-- since the jitter is at most `unit`
abbrev pub jittered : ℕ → ℕ → ℕ → ℕ
jittered base random jitter = base * (unit * unit - unit * jitter + 2 * random * jitter)

abbrev or_index_error : Option ℕ → Result ℕ
or_index_error none = err (index_error "tuple index out of range")
or_index_error (some base) = ok base

-- the delay at the head, times the factor
unfoldable pub next_delay : ℕ → Exec BackoffPolicy ℕ
next_delay random = do
  policy ← gets (λ p. p)
  base ← λ p. (or_index_error (get_elem? p.delays (min p.attempt (length p.delays - 1))), p)
  modify (λ p. record p { attempt = p.attempt + 1 })
  pure (jittered base random policy.jitter_fraction)

unfoldable pub reset : BackoffPolicy → BackoffPolicy
reset p = record p { attempt = 0 }

pub record ConnectionStateMachine : Type 0 where
  pub desired : DesiredState
  pub observed : ConnectionState
  pub policy : BackoffPolicy

-- `ConnectionStateMachine()`
abbrev pub new_machine : ConnectionStateMachine
new_machine = record {
  desired = wants_disconnected;
  observed = disconnected;
  policy = default_backoff;
}

unfoldable pub transition : ConnectionState → Exec ConnectionStateMachine Bool
unfolding allowed
transition new_state m =
    if new_state == m.observed
    then (ok false, m)
    else if any (λ s. new_state == s) (allowed m.observed)
    then (ok true, record m { observed = new_state })
    else (err (invalid_transition "cannot transition"), m)

-- The method `discovered`.
unfoldable pub on_discovered : Bool → Exec ConnectionStateMachine (Unit {0})
unfolding transition
on_discovered supported = do transition (if supported then discovered else unsupported); pure tt

unfoldable pub request_connect : Bool → Exec ConnectionStateMachine Bool
unfolding transition
request_connect force m =
    let changed = wants_off m.desired in
    let m' : ConnectionStateMachine = record m { desired = wants_connected } in
    if m.observed == backoff && force
    then (do transition connecting; pure true) m'
    else if m.observed == discovered || m.observed == disconnected
    then (do transition connecting; pure true) m'
    else (ok changed, m')

unfoldable pub request_disconnect : Exec ConnectionStateMachine Bool
unfolding transition reset
request_disconnect m =
    let changed = not (wants_off m.desired) in
    let m' : ConnectionStateMachine = record m { desired = wants_disconnected } in
    (do
      let leave = not (m.observed == disconnected)
      when leave (do transition disconnected; pure tt)
      modify (λ n. record n { policy = reset n.policy })
      pure (leave || changed))
      m'

-- The delay of `backoff.next_delay()`, with the policy inside the machine.
abbrev machine_delay : ℕ → Exec ConnectionStateMachine (Option ℕ)
machine_delay random m =
    let (r, p) = next_delay random m.policy in
    (bind_result r (λ d. ok (some d)), record m { policy = p })

unfoldable pub unexpected_disconnect : ℕ → Exec ConnectionStateMachine (Option ℕ)
unfolding transition next_delay
unexpected_disconnect random m =
    if wants_off m.desired
    then (do
      when (not (m.observed == disconnected)) (do transition disconnected; pure tt)
      pure none)
        m
    else (do transition backoff; machine_delay random) m

unfoldable pub stable : ConnectionStateMachine → ConnectionStateMachine
unfolding reset
stable m = record m { policy = reset m.policy }
