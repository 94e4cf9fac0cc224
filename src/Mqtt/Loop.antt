-- ===== src/Mqtt/Loop.antt =====
-- The loop around the sessions, `run` of src/pitblu_core/mqtt.py.
use pitblu_core.Prelude.{
  Bool, Exception, Exec, List, Result, [], err, false, foreign_error, if◌then◌else◌, leb, nat_eq,
  none, ok, some, string_eq, true, ℕ, ◌+◌, ◌==◌, ◌∷◌,
}
use pitblu_core.Connection.{next_delay, reset}
use pitblu_core.Events.{type_eq}
use pitblu_core.Mqtt.Publisher.{MqttPublisher, World}
use pitblu_core.Mqtt.Session.{Pass, connected_run}

-- `self._clock() - self._connected_at >= self.settings.stable_after`
unfoldable pub was_stable : ℕ → MqttPublisher → Bool
was_stable now p = elim p.connected_at [
  | none ↦ false
  | some since ↦ leb (since + p.settings.stable_after) now
]

abbrev pub set_publisher : (MqttPublisher → MqttPublisher) → World → World
set_publisher change w = record w { publisher = change w.publisher }

abbrev pub begin_connecting : MqttPublisher → MqttPublisher
begin_connecting p = record p { connected_at = none; state = "connecting" }

unfoldable pub count_failure : ℕ → MqttPublisher → MqttPublisher
unfolding was_stable
count_failure now p = record p {
  failures = p.failures + 1;
  error_code = some "mqtt_connection_failed";
  state = "backoff";
  policy = if was_stable now p then reset p.policy else p.policy;
}

-- `self.retry_in = self._backoff.next_delay()`
unfoldable pub plan_retry : ℕ → Exec MqttPublisher (Unit {0})
plan_retry random p =
    let (delay, policy) = next_delay random p.policy in
    elim delay [
      | err e ↦ (err e, record p { policy = policy })
      | ok d ↦ (ok tt, record p { policy = policy; retry_in = some d })
    ]

-- The handler of `except Exception`, the sleep aside
unfoldable pub back_off : Pass → Exec World (Unit {0})
unfolding count_failure plan_retry
back_off a w =
    let (r, p) = plan_retry a.random (count_failure a.failed_at w.publisher) in
    (r, record w { publisher = p })

-- The `finally` of `run`
abbrev pub stop : MqttPublisher → MqttPublisher
stop p = record p { state = "stopped"; retry_in = none }

abbrev pub is_cancellation : Exception → Bool
is_cancellation (foreign_error name) = name == "CancelledError"
is_cancellation _ = false

abbrev pub cancellation : Exception
cancellation = foreign_error "CancelledError"

-- The sleep of an attempt that failed, and then the attempts that follow
abbrev pub after_sleep : Result (Unit {0}) → Bool → Exec World Bool → Exec World Bool
after_sleep (err e) asleep again w = (err e, set_publisher stop w)
after_sleep (ok u) true again w = (err cancellation, set_publisher stop w)
after_sleep (ok u) false again w = again w

abbrev pub after_session : Pass → Result Bool → Exec World Bool → Exec World Bool
after_session a (ok true) again w = (ok true, set_publisher stop w)
after_session a (ok false) again w = (ok false, w)
after_session a (err e) again w =
    if is_cancellation e
    then (err e, set_publisher stop w)
    else (let (r, w') = back_off a w in after_sleep r a.cancelled_in_sleep again w')

-- The loop of `run`; with no pass left, it sleeps still.
unfoldable pub passes : List Pass → Exec World Bool
unfolding connected_run back_off
passes [] w = (ok false, w)
passes (a ∷ rest) w =
    let (r, w') = connected_run a (set_publisher begin_connecting w) in
    after_session a r (passes rest) w'

-- `run`
unfoldable pub run : List Pass → Exec World Bool
unfolding passes
run tries w = passes tries (set_publisher (λ p. record p { session_id = w.events.session_id }) w)
