-- ===== src/Mqtt/Retry.antt =====
-- How the publisher of src/pitblu_core/mqtt.py goes on after a session that failed.
use pitblu_core.Prelude.{
  ==_iff, All, Bool, Bool-cases, Exception, List, Option-cases, Result, String, [],
  adapter_disconnected, adapter_error, ap, arith, configuration_value, err, false, foreign_error,
  get_elem?, index_error, inl, inr, invalid_transition, key_error, leb, length, min, nat_eq, none,
  ok, protocol_error, refl, resource_not_found, runtime_error, some, state_conflict, string_eq,
  subst, sym, true, unsupported_device, value_error, version_conflict, ℕ, ◌*◌, ◌+◌, ◌-◌, ◌<◌, ◌∙◌,
  ◌∷◌, ◌≡◌, ◌≤◌, ◌⊎◌,
}
use pitblu_core.Connection.{BackoffPolicy, next_delay, reset, unit}
use pitblu_core.Connection.Backoff.{IsValidPolicy, next_delay_bounds}
use pitblu_core.Mqtt.Publisher.{MqttPublisher, World}
use pitblu_core.Mqtt.Session.{Pass, connected_run}
use pitblu_core.Mqtt.Loop.{
  after_session, after_sleep, back_off, begin_connecting, count_failure, is_cancellation, passes,
  plan_retry, run, set_publisher, was_stable,
}
use pitblu_core.Mqtt.Ends.{EndsByShutdown, connected_run-EndsByShutdown}
use pitblu_core.Mqtt.Offline.{policy-connected_run}

-- How many delays are used up when the next one is chosen: none behind a session that had been
-- connected for `stable_after`, and those of the policy behind any other one.
abbrev pub UsesUp : Pass → MqttPublisher → ℕ → Type 0
UsesUp a p n =
    ((since : ℕ) × (p.connected_at ≡ some since)
      × (since + p.settings.stable_after ≤ a.failed_at)
      × (n ≡ 0))
    ⊎ (((since : ℕ) → p.connected_at ≡ some since → a.failed_at < since + p.settings.stable_after)
        × (n ≡ p.policy.attempt))

-- The publisher in the sleep before its next attempt, behind a number of delays
abbrev pub asleep : ℕ → ℕ → MqttPublisher → MqttPublisher
asleep n delay p = record p {
  failures = p.failures + 1;
  error_code = some "mqtt_connection_failed";
  state = "backoff";
  policy = record p.policy { attempt = n + 1 };
  retry_in = some delay;
}

counted_policy :
    (a : Pass) (p : MqttPublisher)
    → (n : ℕ) × UsesUp a p n
      × ((count_failure a.failed_at p).policy ≡ record p.policy { attempt = n })
unfolding count_failure was_stable reset
counted_policy a p = elim (Option-cases p.connected_at) [
  | inl never ↦ (p.policy.attempt, inr ((λ since e. absurd (cc (never, e))), refl), rw never refl)
  | inr (since, e) ↦ elim (Bool-cases (leb (since + p.settings.stable_after) a.failed_at)) [
    | inl long ↦ (0, inl (since, e, ground (arith, long), refl), rw (e, long) refl)
    | inr short ↦ (
      p.policy.attempt,
      inr ((λ since' e'. ground (arith, short, e, e')), refl),
      rw (e, short) refl,
    )
  ]
]

plan_retry_lem :
    (random delay : ℕ) (p : MqttPublisher) (policy : BackoffPolicy)
    → next_delay random p.policy ≡ (ok delay, policy)
    → plan_retry random p ≡ (ok tt, record p { policy = policy; retry_in = some delay })
unfolding plan_retry
plan_retry_lem random delay p policy n =
    ap
      (λ (x : Result ℕ × BackoffPolicy).
        let y : Result (Unit {0}) × MqttPublisher = elim x.0 [
          | err e ↦ (err e, record p { policy = x.1 })
          | ok d ↦ (ok tt, record p { policy = x.1; retry_in = some d })
        ] in
        y)
      n

back_off_lem :
    (a : Pass) (w : World) (n delay : ℕ)
    → (count_failure a.failed_at w.publisher).policy ≡ record w.publisher.policy { attempt = n }
    → next_delay a.random (record w.publisher.policy { attempt = n })
      ≡ (ok delay, record w.publisher.policy { attempt = n + 1 })
    → back_off a w ≡ (ok tt, set_publisher (asleep n delay) w)
unfolding back_off count_failure
back_off_lem a w n delay counted next =
    ap
      (λ (x : Result (Unit {0}) × MqttPublisher).
        let y : Result (Unit {0}) × World = (x.0, record w { publisher = x.1 }) in y)
      (plan_retry_lem a.random delay (count_failure a.failed_at w.publisher)
        (record w.publisher.policy { attempt = n + 1 }) (ap (next_delay a.random) counted ∙ next))

-- The delays that are used up, the base of the delay and the delay, and that it is planned
pub record NextTry (a : Pass) (w : World) (n base delay : ℕ) : Type 0 where
  pub used : UsesUp a w.publisher n
  pub base_known :
      get_elem? w.publisher.policy.delays (min n (length w.publisher.policy.delays - 1)) ≡ some base
  pub planned : back_off a w ≡ (ok tt, set_publisher (asleep n delay) w)
  pub at_least : base * unit * (unit - w.publisher.policy.jitter_fraction) ≤ delay
  pub at_most : delay ≤ base * unit * (unit + w.publisher.policy.jitter_fraction)

-- A session that failed is counted, and the publisher plans its next attempt: with a valid policy
-- the delay lies within the jitter's fraction of the base, which is the delay numbered by those that
-- are used up, or the last delay. Behind a session that had been connected for at least
-- `stable_after` none is used up, so it begins again with the first delay; behind one that was
-- shorter, or never connected, the count goes on.
pub back_off_plans :
    (a : Pass) (w : World)
    → IsValidPolicy w.publisher.policy
    → a.random ≤ unit
    → (n base delay : ℕ) × NextTry a w n base delay
back_off_plans a w v h =
    let (n, used, counted) = counted_policy a w.publisher in
    let policy : BackoffPolicy = record w.publisher.policy { attempt = n } in
    let (base, delay, e, next, lo, hi) =
      next_delay_bounds a.random policy
        (record {
          some_delay = v.some_delay;
          positive = v.positive;
          jitter_capped = v.jitter_capped;
        })
        h in
    (
      n,
      base,
      delay,
      record {
        used = used;
        base_known = e;
        planned = back_off_lem a w n delay counted next;
        at_least = lo;
        at_most = hi;
      },
    )

-- The publisher at its end
abbrev pub stopped : MqttPublisher → MqttPublisher
stopped p = record p { state = "stopped"; retry_in = none }

-- The start of an attempt
abbrev pub begun : World → World
begun w = set_publisher begin_connecting w

-- The course of a run through its attempts, with how it stands at the end: each attempt that fails
-- is followed by a planned sleep and by the next one. It ends by the shutdown, or by a cancellation
-- in a session or in a sleep, and then says that it is stopped and plans no retry.
pub data Course : List Pass → World → Result Bool → World → Type 0 where
  sleeps_on : (w : World) → Course [] w (ok false) w
  goes_on :
      (a : Pass) (rest : List Pass) (w u : World)
      → connected_run a (begun w) ≡ (ok false, u)
      → Course (a ∷ rest) w (ok false) u
  shuts_down :
      (a : Pass) (rest : List Pass) (w u : World)
      → connected_run a (begun w) ≡ (ok true, u)
      → EndsByShutdown a (begun w)
      → Course (a ∷ rest) w (ok true) (set_publisher stopped u)
  cancelled_session :
      (a : Pass) (rest : List Pass) (w u : World)
      → connected_run a (begun w) ≡ (err (foreign_error "CancelledError"), u)
      → Course (a ∷ rest) w (err (foreign_error "CancelledError")) (set_publisher stopped u)
  cancelled_sleep :
      (a : Pass) (rest : List Pass) (w u : World) (e : Exception) (n base delay : ℕ)
      → connected_run a (begun w) ≡ (err e, u)
      → ¬ (e ≡ foreign_error "CancelledError")
      → NextTry a u n base delay
      → a.cancelled_in_sleep ≡ true
      → Course
          (a ∷ rest)
          w
          (err (foreign_error "CancelledError"))
          (set_publisher stopped (set_publisher (asleep n delay) u))
  retries :
      (a : Pass) (rest : List Pass) (w u v : World) (e : Exception) (n base delay : ℕ)
      (r : Result Bool)
      → connected_run a (begun w) ≡ (err e, u)
      → ¬ (e ≡ foreign_error "CancelledError")
      → NextTry a u n base delay
      → a.cancelled_in_sleep ≡ false
      → Course rest (set_publisher (asleep n delay) u) r v
      → Course (a ∷ rest) w r v

cancels : (e : Exception) → is_cancellation e ≡ true → e ≡ foreign_error "CancelledError"
cancels (foreign_error name) h = ap foreign_error ((==_iff name "CancelledError").0 h)
cancels (value_error m) h = absurd (cc h)
cancels (runtime_error m) h = absurd (cc h)
cancels (index_error m) h = absurd (cc h)
cancels (key_error m) h = absurd (cc h)
cancels (protocol_error m) h = absurd (cc h)
cancels (adapter_error m) h = absurd (cc h)
cancels (adapter_disconnected m) h = absurd (cc h)
cancels (unsupported_device m) h = absurd (cc h)
cancels (invalid_transition m) h = absurd (cc h)
cancels (state_conflict m) h = absurd (cc h)
cancels (resource_not_found m) h = absurd (cc h)
cancels (configuration_value m) h = absurd (cc h)
cancels (version_conflict n) h = absurd (cc h)

fails : (e : Exception) → is_cancellation e ≡ false → ¬ (e ≡ foreign_error "CancelledError")
fails e h same = absurd (
    cc (
      sym h
      ∙ ap is_cancellation same
      ∙ (==_iff {T = String} "CancelledError" "CancelledError").1 refl))

abbrev pub JittersBelowOne : List Pass → Type 0
JittersBelowOne tries = All (λ a. a.random ≤ unit) tries

slept :
    (a : Pass) (rest : List Pass) (w u : World) (e : Exception) (n base delay : ℕ)
    → connected_run a (begun w) ≡ (err e, u)
    → ¬ (e ≡ foreign_error "CancelledError")
    → NextTry a u n base delay
    → Course rest
        (set_publisher (asleep n delay) u)
        (passes rest (set_publisher (asleep n delay) u)).0
        (passes rest (set_publisher (asleep n delay) u)).1
    → (let x =
          after_sleep
            (ok tt)
            a.cancelled_in_sleep
            (passes rest)
            (set_publisher (asleep n delay) u) in
        Course (a ∷ rest) w x.0 x.1)
slept a rest w u e n base delay failed c p later = at a.cancelled_in_sleep refl
  where
    at :
        (b : Bool)
        → a.cancelled_in_sleep ≡ b
        → (let x = after_sleep (ok tt) b (passes rest) (set_publisher (asleep n delay) u) in
            Course (a ∷ rest) w x.0 x.1)
    at true s = cancelled_sleep a rest w u e n base delay failed c p s
    at false s =
        let y = passes rest (set_publisher (asleep n delay) u) in
        retries a rest w u y.1 e n base delay y.0 failed c p s later

retried :
    (a : Pass) (rest : List Pass) (w : World) (r : Result Bool) (u : World)
    → connected_run a (begun w) ≡ (r, u)
    → IsValidPolicy u.publisher.policy
    → a.random ≤ unit
    → ((v : World)
        → IsValidPolicy v.publisher.policy
        → Course rest v (passes rest v).0 (passes rest v).1)
    → (let x = after_session a r (passes rest) u in Course (a ∷ rest) w x.0 x.1)
retried a rest w (ok true) u same v h next =
    shuts_down a rest w u same (connected_run-EndsByShutdown a (begun w) (ap (λ x. x.0) same))
retried a rest w (ok false) u same v h next = goes_on a rest w u same
retried a rest w (err e) u same v h next = elim (Bool-cases (is_cancellation e)) [
  | inl c ↦ rw c (
      subst (λ x. Course (a ∷ rest) w (err x) (set_publisher stopped u)) (sym (cancels e c))
        (cancelled_session a rest w u (same ∙ ap (λ x. (err x, u)) (cancels e c))))
  | inr c ↦ rw c (
      let (n, base, delay, p) = back_off_plans a u v h in
      subst
        (λ (x : Result (Unit {0}) × World).
          let y = after_sleep x.0 a.cancelled_in_sleep (passes rest) x.1 in
          Course (a ∷ rest) w y.0 y.1)
        (sym p.planned)
        (slept a rest w u e n base delay same (fails e c) p (
          next (set_publisher (asleep n delay) u) (record {
            some_delay = v.some_delay;
            positive = v.positive;
            jitter_capped = v.jitter_capped;
          }))))
]

passes-Course :
    (tries : List Pass) (w : World)
    → IsValidPolicy w.publisher.policy
    → JittersBelowOne tries
    → Course tries w (passes tries w).0 (passes tries w).1
unfolding passes
passes-Course [] w v h = sleeps_on w
passes-Course (a ∷ tries) w v (h, others) =
    retried a tries w (connected_run a (begun w)).0 (connected_run a (begun w)).1 refl
      (subst IsValidPolicy (sym (policy-connected_run a (begun w))) v) h
      (λ u g. passes-Course tries u g others)

-- The publisher gives up for no failure, whatever its sessions come to and however many fail. With a
-- valid policy every session that fails, by anything but a is followed by a sleep of a
-- delay as it is planned, and, unless that is cancelled, by the next session. A run that has ended
-- has seen the shutdown of the service in its last session, or was cancelled, and then it says that
-- it is stopped and plans no retry; else it goes on.
pub run-Course :
    (tries : List Pass) (w : World)
    → IsValidPolicy w.publisher.policy
    → JittersBelowOne tries
    → Course tries
        (set_publisher (λ p. record p { session_id = w.events.session_id }) w)
        (run tries w).0
        (run tries w).1
unfolding run
run-Course tries w v h =
    passes-Course tries (set_publisher (λ p. record p { session_id = w.events.session_id }) w) v h
