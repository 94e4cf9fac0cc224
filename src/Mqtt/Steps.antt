-- ===== src/Mqtt/Steps.antt =====
-- What every message and every change of the bus preserves, a session of the publisher of
-- src/pitblu_core/mqtt.py preserves.
use pitblu_core.Prelude.{
  Bool, Bool-cases, Exec, List, Option, Result, String, [], after_result, err, false, foreign_error,
  if◌then◌else◌, inl, inr, none, not, ok, pure, refl, some, true, when, ℕ, ◌==◌, ◌>>=◌, ◌∷◌, ◌≡◌,
  ◌⊎◌,
}
use pitblu_core.Models.{Datetime}
use pitblu_core.Events.{
  EventBus, TelemetryEvent, is_administrative, retained_state, service_availability, type_eq,
}
use pitblu_core.Mqtt.{topic_for}
use pitblu_core.Mqtt.Publisher.{
  World, client_publish, message_of, publish_event, publish_retained, publish_service,
  publish_states, publish_to, service_message,
}
use pitblu_core.Mqtt.Session.{
  Pass, Turn, cancelled, connected_run, enter, forgotten, get_event, greet, handle,
  heartbeat_passed, is_shutdown, leave, pop, published, received, serve, set_will, turn,
}

-- Statements one behind the other
and_then :
    {A B : Type 0} (Q : World → Type 0) (x : Result A × World) (f : A → Exec World B)
    → Q x.1
    → ((a : A) (v : World) → Q v → Q (f a v).1)
    → Q (after_result x.0 f x.1).1
and_then Q (ok a, v) f h g = g a v h
and_then Q (err e, v) f h g = h

-- The service is announced with the number 1, and taken back with the number 2.
abbrev pub IsNumbered : Bool → ℕ → Type 0
IsNumbered available sequence =
    ((available ≡ true) × (sequence ≡ 1)) ⊎ ((available ≡ false) × (sequence ≡ 2))

module _ (Q : World → Type 0)
    (on_event : (e : TelemetryEvent) (topic : String) (w : World)
      → is_administrative e.type ≡ false
      → topic_for w.publisher.settings.base_topic e ≡ ok topic
      → Q w
      → Q (client_publish (message_of w.publisher.settings e topic) w).1)
    (on_service : (available : Bool) (sequence : ℕ) (now : Datetime) (w : World)
      → IsNumbered available sequence
      → Q w
      → Q (client_publish (service_message w.publisher available sequence now) w).1)
    (on_events : (b : EventBus) (w : World) → Q w → Q (record w { events = b })) where
  publish_event_preserves : (e : TelemetryEvent) (w : World) → Q w → Q (publish_event e w).1
  unfolding publish_event
  publish_event_preserves e w h = elim (Bool-cases (is_administrative e.type)) [
    | inl a ↦ rw a h
    | inr a ↦ rw a (to (topic_for w.publisher.settings.base_topic e) refl a)
  ]
    where
      to :
          (r : Result String)
          → topic_for w.publisher.settings.base_topic e ≡ r
          → is_administrative e.type ≡ false
          → Q (publish_to e r w).1
      to (ok topic) t a = on_event e topic w a t h
      to (err x) t a = h

  when_preserves :
      (b : Bool) (e : TelemetryEvent) (w : World) → Q w → Q (when b (publish_event e) w).1
  when_preserves true e w h = publish_event_preserves e w h
  when_preserves false e w h = h

  publish_states_preserves :
      (es : List TelemetryEvent) (w : World) → Q w → Q (publish_states es w).1
  unfolding publish_states
  publish_states_preserves [] w h = h
  publish_states_preserves (e ∷ es) w h =
      and_then Q (when (not (e.type == service_availability)) (publish_event e) w)
        (λ u. publish_states es) (when_preserves (not (e.type == service_availability)) e w h)
        (λ u v g. publish_states_preserves es v g)

  handle_preserves : (o : Option TelemetryEvent) (w : World) → Q w → Q (handle o w).1
  handle_preserves none w h = h
  handle_preserves (some e) w h = elim (Bool-cases (is_shutdown e)) [
    | inl s ↦ rw s (
        and_then Q (publish_retained w) (λ u. pure true)
          (publish_states_preserves (retained_state w.events) w h) (λ u v g. g))
    | inr s ↦ rw s (
        and_then Q (publish_event e w) (λ u. pure false) (publish_event_preserves e w h)
          (λ u v g. g))
  ]

  turn_preserves : (t : Turn) (w : World) → Q w → Q (turn t w).1
  unfolding turn get_event publish_service
  turn_preserves (published e) w h = on_events _ w h
  turn_preserves (forgotten device) w h = on_events _ w h
  turn_preserves received w h =
      let (event, subscribers) = pop w.number w.events.subscribers in
      let b : EventBus = record w.events { subscribers = subscribers } in
      handle_preserves event (record w { events = b }) (on_events b w h)
  turn_preserves (heartbeat_passed now) w h =
      and_then Q (client_publish (service_message w.publisher true 1 now) w) (λ u. pure false)
        (on_service true 1 now w (inl (refl, refl)) h) (λ u v g. g)
  turn_preserves cancelled w h = h

  serve_preserves : (turns : List Turn) (w : World) → Q w → Q (serve turns w).1
  unfolding serve
  serve_preserves [] w h = h
  serve_preserves (t ∷ turns) w h =
      and_then Q (turn t w) (λ ended. if ended then pure true else serve turns)
        (turn_preserves t w h) (λ ended v g. goes_on ended v g (serve_preserves turns v g))
    where
      goes_on :
          (ended : Bool) (v : World)
          → Q v
          → Q (serve turns v).1
          → Q ((if ended then pure true else serve turns) v).1
      goes_on true v g k = g
      goes_on false v g k = k

  pub greet_preserves :
      (now : Datetime) (turns : List Turn) (w : World) → Q w → Q (greet now turns w).1
  unfolding greet publish_service
  greet_preserves now turns w h =
      and_then Q (client_publish (service_message w.publisher true 1 now) w)
        (λ u. publish_retained >>= λ z. serve turns) (on_service true 1 now w (inl (refl, refl)) h)
        (λ u v g.
          and_then Q (publish_retained v) (λ z. serve turns)
            (publish_states_preserves (retained_state v.events) v g)
            (λ z x k. serve_preserves turns x k))

  pub leave_preserves : (later : Datetime) (r : Result Bool) (w : World) → Q w → Q (leave later r w)
  unfolding leave publish_service
  leave_preserves later (ok false) w h = h
  leave_preserves later (ok true) w h =
      on_service false 2 later _ (inr (refl, refl)) (on_events _ w h)
  leave_preserves later (err x) w h =
      on_service false 2 later _ (inr (refl, refl)) (on_events _ w h)

  -- The start of a session changes more: the will, and what the publisher says of itself.
  pub connected_run_preserves :
      (a : Pass) (w : World)
      → ((since : ℕ) → Q w → Q (enter since (set_will a.begins w)))
      → Q w
      → Q (connected_run a w).1
  unfolding connected_run
  connected_run_preserves a w on_enter h = begun a.connects
    where
      begun :
          (o : Option ℕ)
          → (let x : Result Bool × World = elim o [
            | none ↦ (err (foreign_error "MqttError"), w)
            | some now ↦
                (let (r, w') = greet a.begins a.turns (enter now (set_will a.begins w)) in
                  (r, leave a.ends r w'))
          ] in
              Q x.1)
      begun none = h
      begun (some now) =
          let v = enter now (set_will a.begins w) in
          let (r, u) = greet a.begins a.turns v in
          leave_preserves a.ends r u (greet_preserves a.begins a.turns v (on_enter now h))
