-- ===== src/Mqtt/Contents.antt =====
-- What leaves the house by the publisher of src/pitblu_core/mqtt.py, and what does not.
use pitblu_core.Prelude.{
  All, All-append, Bool, Bool-cases, Exec, List, Result, String, [], ap, err, false, inl, inr, not,
  ok, refl, some, subst, true, ℕ, ◌==◌, ◌∙◌, ◌∷◌, ◌≡◌, ◌⊎◌,
}
use pitblu_core.Events.{TelemetryEvent, is_administrative, probe_temperature, type_eq}
use pitblu_core.Models.{Datetime}
use pitblu_core.Connection.{BackoffPolicy, next_delay}
use pitblu_core.Mqtt.{MqttSettings, mqtt_payload, retained, topic_for}
use pitblu_core.Mqtt.Publisher.{
  MqttPublisher, Sent, World, client_publish, message_of, service_message,
}
use pitblu_core.Mqtt.Session.{Pass, connected_run, enter}
use pitblu_core.Mqtt.Loop.{
  after_session, after_sleep, back_off, begin_connecting, count_failure, is_cancellation, passes,
  plan_retry, run, set_publisher,
}
use pitblu_core.Mqtt.Announcements.{Announces, service_message-Announces}
use pitblu_core.Mqtt.Steps.{IsNumbered, connected_run_preserves}
use pitblu_core.Mqtt.Mirror.Delivery.{attempts-client_publish, client_publish-SendsOnly}

-- A message says whether the service is available, or is that of an event that is not
-- administrative, under the event's topic; its quality of service is the one that is set.
pub record IsOurs (settings : MqttSettings) (session_id : String) (m : Sent) : Type 0 where
  pub origin :
      ((available : Bool) × (sequence : ℕ) × (now : Datetime) × IsNumbered available sequence
        × Announces settings session_id available sequence now m)
      ⊎ ((e : TelemetryEvent) × (is_administrative e.type ≡ false)
          × (topic_for settings.base_topic e ≡ ok m.topic)
          × (m.payload ≡ mqtt_payload e)
          × (m.retain ≡ not (e.type == probe_temperature)))
  pub quality : m.qos ≡ settings.qos

-- The settings and the session are these, and all messages given to the client are ours.
record IsTidy (settings : MqttSettings) (session_id : String) (w : World) : Type 0 where
  same : w.publisher.settings ≡ settings
  session : w.publisher.session_id ≡ session_id
  ours : All (IsOurs settings session_id) w.network.attempts

client_publish-IsTidy :
    (settings : MqttSettings) (session_id : String) (m : Sent) (w : World)
    → IsOurs w.publisher.settings w.publisher.session_id m
    → IsTidy settings session_id w
    → IsTidy settings session_id (client_publish m w).1
client_publish-IsTidy settings session_id m w o h = record {
  same = ap (λ (q : MqttPublisher). q.settings) (client_publish-SendsOnly m w).publisher ∙ h.same;
  session =
      ap (λ (q : MqttPublisher). q.session_id) (client_publish-SendsOnly m w).publisher ∙ h.session;
  ours = rw (attempts-client_publish m w) (
      All-append (IsOurs settings session_id) w.network.attempts m h.ours (
        subst (λ s. IsOurs s session_id m) h.same
          (subst (λ i. IsOurs w.publisher.settings i m) h.session o)));
}

connected_run-IsTidy :
    (settings : MqttSettings) (session_id : String) (a : Pass) (w : World)
    → IsTidy settings session_id w
    → IsTidy settings session_id (connected_run a w).1
connected_run-IsTidy settings session_id a w h =
    connected_run_preserves (IsTidy settings session_id)
      (λ e topic v n t g.
        client_publish-IsTidy settings session_id (message_of v.publisher.settings e topic) v
          (record { origin = inr (e, n, t, refl, unfold retained in refl); quality = refl }) g)
      (λ available sequence now v k g.
        client_publish-IsTidy settings session_id
          (service_message v.publisher available sequence now) v
          (record {
            origin = inl (
              available,
              sequence,
              now,
              k,
              service_message-Announces v.publisher available sequence now,
            );
            quality = refl;
          })
          g)
      (λ b v g. record { same = g.same; session = g.session; ours = g.ours }) a w
      (λ since g. unfold enter in record { same = g.same; session = g.session; ours = g.ours }) h

back_off-IsTidy :
    (settings : MqttSettings) (session_id : String) (a : Pass) (w : World)
    → IsTidy settings session_id w
    → IsTidy settings session_id (back_off a w).1
unfolding back_off plan_retry count_failure
back_off-IsTidy settings session_id a w h =
    planned (next_delay a.random (count_failure a.failed_at w.publisher).policy)
  where
    planned :
        (x : Result ℕ × BackoffPolicy)
        → (let y : Result (Unit {0}) × MqttPublisher = elim x.0 [
          | err e ↦ (err e, record (count_failure a.failed_at w.publisher) { policy = x.1 })
          | ok d ↦ (
            ok tt,
            record (count_failure a.failed_at w.publisher) { policy = x.1; retry_in = some d },
          )
        ] in
            IsTidy settings session_id (record w { publisher = y.1 }))
    planned (ok d, policy) = record { same = h.same; session = h.session; ours = h.ours }
    planned (err e, policy) = record { same = h.same; session = h.session; ours = h.ours }

after_sleep-IsTidy :
    (settings : MqttSettings) (session_id : String) (r : Result (Unit {0})) (b : Bool)
    (again : Exec World Bool) (w : World)
    → ((v : World) → IsTidy settings session_id v → IsTidy settings session_id (again v).1)
    → IsTidy settings session_id w
    → IsTidy settings session_id (after_sleep r b again w).1
after_sleep-IsTidy settings session_id (ok u) true again w next h = record {
  same = h.same;
  session = h.session;
  ours = h.ours;
}
after_sleep-IsTidy settings session_id (ok u) false again w next h = next w h
after_sleep-IsTidy settings session_id (err e) b again w next h = record {
  same = h.same;
  session = h.session;
  ours = h.ours;
}

after_session-IsTidy :
    (settings : MqttSettings) (session_id : String) (a : Pass) (r : Result Bool)
    (again : Exec World Bool) (w : World)
    → ((v : World) → IsTidy settings session_id v → IsTidy settings session_id (again v).1)
    → IsTidy settings session_id w
    → IsTidy settings session_id (after_session a r again w).1
after_session-IsTidy settings session_id a (ok true) again w next h = record {
  same = h.same;
  session = h.session;
  ours = h.ours;
}
after_session-IsTidy settings session_id a (ok false) again w next h = h
after_session-IsTidy settings session_id a (err e) again w next h =
    elim (Bool-cases (is_cancellation e)) [
      | inl c ↦ rw c (record { same = h.same; session = h.session; ours = h.ours })
      | inr c ↦ rw c (
          after_sleep-IsTidy settings session_id (back_off a w).0 a.cancelled_in_sleep again
            (back_off a w).1 next (back_off-IsTidy settings session_id a w h))
    ]

passes-IsTidy :
    (settings : MqttSettings) (session_id : String) (tries : List Pass) (w : World)
    → IsTidy settings session_id w
    → IsTidy settings session_id (passes tries w).1
unfolding passes
passes-IsTidy settings session_id [] w h = h
passes-IsTidy settings session_id (a ∷ tries) w h =
    let begun = set_publisher begin_connecting w in
    after_session-IsTidy settings session_id a (connected_run a begun).0 (passes tries)
      (connected_run a begun).1 (λ v g. passes-IsTidy settings session_id tries v g)
      (connected_run-IsTidy settings session_id a begun
        (record { same = h.same; session = h.session; ours = h.ours }))

-- Over all sessions of a run, every message given to the client either says in full, under the topic
-- of the service and retained, that the service is available or that it is not, in the bus's session,
-- or is that of an event that is neither an operation nor a change of the configuration, under the
-- event's topic and with its payload; of the latter single temperatures alone are not retained. All
-- have the quality of service that is set. It holds also of sessions that fail at any point. (No
-- message had been given before.)
pub run-IsOurs :
    (tries : List Pass) (w : World)
    → w.network.attempts ≡ []
    → All (IsOurs w.publisher.settings w.events.session_id) (run tries w).1.network.attempts
unfolding run
run-IsOurs tries w none_yet =
    (passes-IsTidy w.publisher.settings w.events.session_id tries
      (set_publisher (λ p. record p { session_id = w.events.session_id }) w)
      (record { same = refl; session = refl; ours = rw none_yet tt })).ours
