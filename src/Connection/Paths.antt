-- ===== src/Connection/Paths.antt =====
-- Any calls of the methods of `ConnectionStateMachine` (src/pitblu_core/connection.py), in any
-- order, a raise being caught by the caller.
use pitblu_core.Prelude.{
  ==_iff, Bool, List, [], any, arith, inl, inr, subst, true, ℕ, ◌==◌, ◌∷◌, ◌≡◌, ◌⊎◌,
}
use pitblu_core.Connection.{
  ConnectionState, ConnectionStateMachine, allowed, backoff, connected, connecting, degraded,
  disconnected, discovered, initialising, on_discovered, polling, request_connect,
  request_disconnect, stable, state_eq, transition, unexpected_disconnect, unsupported,
}

pub data Call : Type 0 where
  transitions : ConnectionState → Call
  discovers connects : Bool → Call
  disconnects stabilises : Call
  drops : ℕ → Call

-- The machine after one call, whether it returned or raised.
unfoldable pub step : ConnectionStateMachine → Call → ConnectionStateMachine
unfolding transition on_discovered request_connect request_disconnect unexpected_disconnect stable
step m (transitions s) = (transition s m).1
step m (discovers supported) = (on_discovered supported m).1
step m (connects force) = (request_connect force m).1
step m disconnects = (request_disconnect m).1
step m (drops random) = (unexpected_disconnect random m).1
step m stabilises = stable m

unfoldable pub run : ConnectionStateMachine → List Call → ConnectionStateMachine
unfolding step
run m [] = m
run m (c ∷ cs) = run (step m c) cs

-- The states that are observed after each call, in order.
unfoldable pub visited : ConnectionStateMachine → List Call → List ConnectionState
unfolding step
visited m [] = []
visited m (c ∷ cs) = (step m c).observed ∷ visited (step m c) cs

abbrev MovesTo : ConnectionState → ConnectionState → Type 0
MovesTo a b = (b ≡ a) ⊎ (any (λ t. b == t) (allowed a) ≡ true)

-- Whatever the call, it moves the observed state by at most one edge of the table.
pub step-MovesTo : (m : ConnectionStateMachine) (c : Call) → MovesTo m.observed (step m c).observed
unfolding step allowed
step-MovesTo m (transitions s) = ground (arith, ==_iff s m.observed)
step-MovesTo m (discovers supported) = ground arith
step-MovesTo m (connects force) = ground arith
step-MovesTo m disconnects = ground arith
step-MovesTo m (drops random) = ground arith
step-MovesTo m stabilises = ground arith

-- The states that still have to be passed before a reading can be polled.
abbrev pub remaining : ConnectionState → List ConnectionState
remaining connecting = initialising ∷ connected ∷ []
remaining initialising = connected ∷ []
remaining connected = []
remaining polling = []
remaining degraded = []
remaining _ = connecting ∷ initialising ∷ connected ∷ []

-- The first list's states are visited in its order, perhaps with others between.
abbrev pub Passes : List ConnectionState → List ConnectionState → Type 0
Passes [] vs = Unit
Passes (w ∷ ws) [] = ⊥
Passes (w ∷ ws) (v ∷ vs) = ((w ≡ v) × Passes ws vs) ⊎ Passes (w ∷ ws) vs

Passes-tail :
    (w : ConnectionState) (ws vs : List ConnectionState) → Passes (w ∷ ws) vs → Passes ws vs
Passes-tail w [] vs h = tt
Passes-tail w (u ∷ ws) [] h = absurd h
Passes-tail w (u ∷ ws) (v ∷ vs) (inl (e, h)) = inr h
Passes-tail w (u ∷ ws) (v ∷ vs) (inr h) = inr (Passes-tail w (u ∷ ws) vs h)

falls_back :
    (vs : List ConnectionState)
    → Passes (connecting ∷ initialising ∷ connected ∷ []) vs
    → Passes (initialising ∷ connected ∷ []) vs
falls_back vs = Passes-tail connecting (initialising ∷ connected ∷ []) vs

later_stage :
    (vs : List ConnectionState)
    → Passes (initialising ∷ connected ∷ []) vs
    → Passes (connected ∷ []) vs
later_stage vs = Passes-tail initialising (connected ∷ []) vs

-- Passing what remains at the next state, after it, passes what remains here.
Passes-step :
    (a b : ConnectionState) (vs : List ConnectionState)
    → MovesTo a b
    → Passes (remaining b) vs
    → Passes (remaining a) (b ∷ vs)
unfolding allowed
Passes-step discovered b vs m h = ground (arith, falls_back vs)
Passes-step connecting b vs m h = ground (arith, falls_back vs, later_stage vs)
Passes-step initialising b vs m h = ground (arith, falls_back vs, later_stage vs)
Passes-step backoff b vs m h = ground (arith, falls_back vs)
Passes-step disconnected b vs m h = ground (arith, falls_back vs)
Passes-step unsupported b vs m h = ground (arith, falls_back vs)
Passes-step _ b vs m h = tt

abbrev IsPolled : ConnectionState → Type 0
IsPolled s = (s ≡ polling) ⊎ (s ≡ degraded)

polled_remaining : (s : ConnectionState) → IsPolled s → remaining s ≡ []
polled_remaining s h = ground arith

Passes-remaining :
    (m : ConnectionStateMachine) (cs : List Call)
    → IsPolled (run m cs).observed
    → Passes (remaining m.observed) (visited m cs)
unfolding run visited
Passes-remaining m [] h = rw (polled_remaining m.observed h) tt
Passes-remaining m (c ∷ cs) h =
    Passes-step m.observed (step m c).observed (visited (step m c) cs) (step-MovesTo m c)
      (Passes-remaining (step m c) cs h)

-- A device that is polled after any calls on a machine that was disconnected has passed through
-- connecting, initialising and connected, in that order: no call skips the initialisation.
pub polled_was_initialised :
    (m : ConnectionStateMachine) (cs : List Call)
    → m.observed ≡ disconnected
    → IsPolled (run m cs).observed
    → Passes (connecting ∷ initialising ∷ connected ∷ []) (visited m cs)
polled_was_initialised m cs e h =
    subst (λ s. Passes (remaining s) (visited m cs)) e (Passes-remaining m cs h)
