-- ===== src/Connection/Machine.antt =====
-- What each method of `ConnectionStateMachine` (src/pitblu_core/connection.py) does, on every
-- branch.
use pitblu_core.Prelude.{
  ==_iff, Bool, any, arith, err, false, if◌then◌else◌, invalid_transition, not, ok, true, ℕ, ◌&&◌,
  ◌==◌, ◌||◌, ◌↔◌, ◌≡◌, ◌≢◌, ◌⊎◌,
}
use pitblu_core.Connection.{
  ConnectionState, ConnectionStateMachine, allowed, backoff, connecting, disconnected, discovered,
  request_connect, request_disconnect, state_eq, transition, unexpected_disconnect, unsupported,
  wants_connected, wants_disconnected, wants_off,
}

-- A transition leads to its target or raises: it returns false and changes nothing if the target is
-- the observed state, returns true and moves to a state that the table allows, and otherwise raises
-- and changes nothing.
transition_cases :
    (s : ConnectionState) (m : ConnectionStateMachine)
    → ((s ≡ m.observed) × (transition s m ≡ (ok false, m)))
      ⊎ ((any (λ t. s == t) (allowed m.observed) ≡ true)
          × (transition s m ≡ (ok true, record m { observed = s })))
      ⊎ ((any (λ t. s == t) (allowed m.observed) ≡ false)
          × (s ≢ m.observed)
          × (transition s m ≡ (err (invalid_transition "cannot transition"), m)))
unfolding transition allowed
transition_cases s m = ground (arith, ==_iff s m.observed)

-- `request_disconnect` never raises. From every machine it ends disconnected and wanting to be so,
-- with the backoff at its start, and it returns false exactly if the machine already was
-- disconnected and wanted to be.
pub request_disconnect_total :
    (m : ConnectionStateMachine)
    → request_disconnect m ≡ (
      ok (not (m.observed == disconnected && wants_off m.desired)),
      record {
        desired = wants_disconnected;
        observed = disconnected;
        policy = record m.policy { attempt = 0 };
      },
    )
unfolding request_disconnect transition
request_disconnect_total m = ground arith

-- `request_connect` never raises, and never touches the backoff. It starts a connection from the
-- states discovered and disconnected, and from backoff if forced; in every other state it only
-- records the wish, and returns whether that is new.
pub request_connect_total :
    (force : Bool) (m : ConnectionStateMachine)
    → let starts =
        m.observed == discovered
        || m.observed == disconnected
        || (m.observed == backoff && force) in
      request_connect force m ≡ (
        ok (starts || wants_off m.desired),
        record {
          desired = wants_connected;
          observed = (if starts then connecting else m.observed);
          policy = m.policy;
        },
      )
unfolding request_connect transition
request_connect_total force m = ground arith

-- The report of a lost connection raises an invalid transition exactly if the connection is wanted
-- and the state is one from which the table has no way to backoff: discovered, disconnected or
-- unsupported.
pub unexpected_disconnect_raises_iff :
    (random : ℕ) (m : ConnectionStateMachine)
    → ((unexpected_disconnect random m).0 ≡ err (invalid_transition "cannot transition")) ↔ (
        (m.desired ≡ wants_connected)
        × (m.observed ≡ discovered ⊎ m.observed ≡ disconnected ⊎ m.observed ≡ unsupported))
unfolding unexpected_disconnect transition
unexpected_disconnect_raises_iff random m = (λ h. ground arith, λ h. ground arith)
