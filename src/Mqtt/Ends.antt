-- ===== src/Mqtt/Ends.antt =====
-- What ends a session of the publisher of src/pitblu_core/mqtt.py without a failure.
use pitblu_core.Prelude.{
  Bool, List, Option, Result, [], after_result, ap, arith, err, false, foreign_error, if◌then◌else◌,
  lookup, none, ok, pure, refl, some, string_eq, true, ℕ, ◌++◌, ◌==◌, ◌>>=◌, ◌>>◌, ◌∷◌, ◌≡◌,
}
use pitblu_core.Models.{Datetime}
use pitblu_core.Events.{
  EventBus, Payload, TelemetryEvent, availability, battery_level, configuration_version,
  connection_state, heartbeat_state, operation_state, probe_state, service_availability,
  temperature, type_eq,
}
use pitblu_core.Mqtt.{data_fields, truth}
use pitblu_core.Mqtt.Publisher.{
  World, client_publish, publish_event, publish_retained, publish_service, service_message,
}
use pitblu_core.Mqtt.Session.{
  Pass, Turn, cancelled, connected_run, enter, forgotten, get_event, greet, handle,
  heartbeat_passed, is_shutdown, leave, pop, published, received, says_unavailable, serve, set_will,
  turn,
}

-- The turns lead from one world to another, in which the session still waits.
pub data Waits : List Turn → World → World → Type 0 where
  no_turn : {w : World} → Waits [] w w
  one_more :
      (t : Turn) (ts : List Turn) (u v w : World)
      → turn t w ≡ (ok false, u)
      → Waits ts u v
      → Waits (t ∷ ts) w v

-- Behind some of the turns the session takes an event from its queue that says that the service is no
-- longer available.
pub record SeesShutdown (turns : List Turn) (w : World) : Type 0 where
  pub before : List Turn
  pub rest : List Turn
  pub waiting : World
  pub event : TelemetryEvent
  pub split : turns ≡ before ++ received ∷ rest
  pub waits : Waits before w waiting
  pub taken : (get_event waiting).0 ≡ ok (some event)
  pub kind : (event.type == service_availability) ≡ true
  pub unavailable : lookup "available" (data_fields event.payload) ≡ some (truth false)

says_unavailable_lem :
    (p : Payload)
    → says_unavailable p ≡ true
    → lookup "available" (data_fields p) ≡ some (truth false)
unfolding data_fields lookup
says_unavailable_lem (availability false none) h = refl
says_unavailable_lem (availability false (some reason)) h = refl
says_unavailable_lem (availability true reason) h = absurd (cc h)
says_unavailable_lem (battery_level false percent none) h = refl
says_unavailable_lem (battery_level false percent (some reason)) h = refl
says_unavailable_lem (battery_level true percent reason) h = absurd (cc h)
says_unavailable_lem (probe_state false present none) h = refl
says_unavailable_lem (probe_state false present (some reason)) h = refl
says_unavailable_lem (probe_state true present reason) h = absurd (cc h)
says_unavailable_lem (temperature t) h = absurd (cc h)
says_unavailable_lem (connection_state state) h = absurd (cc h)
says_unavailable_lem (heartbeat_state state last fresh threshold) h = absurd (cc h)
says_unavailable_lem (operation_state id kind state error) h = absurd (cc h)
says_unavailable_lem (configuration_version version settings) h = absurd (cc h)

not_ended :
    (x : Result (Unit {0}) × World) → (after_result x.0 (λ u. pure false) x.1).0 ≡ ok true → ⊥
not_ended (ok u, w) h = cc h
not_ended (err e, w) h = cc h

handle-ended :
    (o : Option TelemetryEvent) (w : World)
    → (handle o w).0 ≡ ok true
    → (e : TelemetryEvent) × (o ≡ some e) × (is_shutdown e ≡ true)
handle-ended none w h = absurd (cc h)
handle-ended (some e) w h = ended (is_shutdown e) refl h
  where
    ended :
        (b : Bool)
        → is_shutdown e ≡ b
        → ((if b then publish_retained >> pure true else publish_event e >> pure false) w).0
          ≡ ok true
        → (f : TelemetryEvent) × (◌≡◌ {A = Option TelemetryEvent} (some e) (some f))
          × (is_shutdown f ≡ true)
    ended true s k = (e, refl, s)
    ended false s k = absurd (not_ended (publish_event e w) k)

turn-ended :
    (t : Turn) (w : World)
    → (turn t w).0 ≡ ok true
    → (t ≡ received)
      × (e : TelemetryEvent) × ((get_event w).0 ≡ ok (some e))
      × (is_shutdown e ≡ true)
unfolding turn get_event publish_service
turn-ended (published e) w h = absurd (cc h)
turn-ended (forgotten device) w h = absurd (cc h)
turn-ended received w h =
    let (event, subscribers) = pop w.number w.events.subscribers in
    let b : EventBus = record w.events { subscribers = subscribers } in
    let (e, found, s) = handle-ended event (record w { events = b }) h in
    (refl, e, ap {B = Result (Option TelemetryEvent)} ok found, s)
turn-ended (heartbeat_passed now) w h =
    absurd (not_ended (client_publish (service_message w.publisher true 1 now) w) h)
turn-ended cancelled w h = absurd (cc h)

shutdown-kind :
    (e : TelemetryEvent)
    → is_shutdown e ≡ true
    → ((e.type == service_availability) ≡ true) × (says_unavailable e.payload ≡ true)
shutdown-kind e h = (ground (arith, h), ground (arith, h))

pub serve-SeesShutdown :
    (turns : List Turn) (w : World) → (serve turns w).0 ≡ ok true → SeesShutdown turns w
unfolding serve
serve-SeesShutdown [] w h = absurd (cc h)
serve-SeesShutdown (t ∷ turns) w h =
    behind (turn t w).0 (turn t w).1 refl (λ u k. serve-SeesShutdown turns u k) h
  where
    behind :
        (r : Result Bool) (u : World)
        → turn t w ≡ (r, u)
        → ((v : World) → (serve turns v).0 ≡ ok true → SeesShutdown turns v)
        → (after_result r (λ ended. if ended then pure true else serve turns) u).0 ≡ ok true
        → SeesShutdown (t ∷ turns) w
    behind (err e) u same goes_on k = absurd (cc k)
    behind (ok true) u same goes_on k =
        let (is_received, e, taken, s) = turn-ended t w (ap (λ x. x.0) same) in
        let (kind, unavailable) = shutdown-kind e s in
        record {
          before = [];
          rest = turns;
          waiting = w;
          event = e;
          split = ap (λ x. x ∷ turns) is_received;
          waits = no_turn;
          taken = taken;
          kind = kind;
          unavailable = says_unavailable_lem e.payload unavailable;
        }
    behind (ok false) u same goes_on k =
        let later = goes_on u k in
        record {
          before = t ∷ later.before;
          rest = later.rest;
          waiting = later.waiting;
          event = later.event;
          split = ap (λ x. t ∷ x) later.split;
          waits = one_more t later.before u later.waiting w same later.waits;
          taken = later.taken;
          kind = later.kind;
          unavailable = later.unavailable;
        }

-- A session that was connected and greeted, and then saw the shutdown
pub record EndsByShutdown (a : Pass) (w : World) : Type 0 where
  pub since : ℕ
  pub greeted : World
  pub connected : a.connects ≡ some since
  pub greets :
      (publish_service true 1 a.begins >> publish_retained) (enter since (set_will a.begins w))
      ≡ (ok tt, greeted)
  pub sees : SeesShutdown a.turns greeted

greet-cases :
    (now : Datetime) (turns : List Turn) (w : World)
    → (greet now turns w).0 ≡ ok true
    → (v : World) × ((publish_service true 1 now >> publish_retained) w ≡ (ok tt, v))
      × ((serve turns v).0 ≡ ok true)
unfolding greet
greet-cases now turns w h =
    first (publish_service true 1 now w).0 (publish_service true 1 now w).1 h
  where
    second :
        (r : Result (Unit {0})) (u : World)
        → (after_result r (λ z. serve turns) u).0 ≡ ok true
        → (v : World) × (◌≡◌ {A = Result (Unit {0}) × World} (r, u) (ok tt, v))
          × ((serve turns v).0 ≡ ok true)
    second (ok tt) u k = (u, refl, k)
    second (err e) u k = absurd (cc k)

    first :
        (r : Result (Unit {0})) (u : World)
        → (after_result r (λ z. publish_retained >>= λ y. serve turns) u).0 ≡ ok true
        → (v : World) × (after_result r (λ z. publish_retained) u ≡ (ok tt, v))
          × ((serve turns v).0 ≡ ok true)
    first (ok z) u k = second (publish_retained u).0 (publish_retained u).1 k
    first (err e) u k = absurd (cc k)

-- A session ends without a failure only by the shutdown that it sees.
pub connected_run-EndsByShutdown :
    (a : Pass) (w : World) → (connected_run a w).0 ≡ ok true → EndsByShutdown a w
unfolding connected_run
connected_run-EndsByShutdown a w h = begun a.connects refl h
  where
    begun :
        (o : Option ℕ)
        → a.connects ≡ o
        → (let x : Result Bool × World = elim o [
          | none ↦ (err (foreign_error "MqttError"), w)
          | some now ↦
              (let (r, w') = greet a.begins a.turns (enter now (set_will a.begins w)) in
                (r, leave a.ends r w'))
        ] in
            x.0 ≡ ok true)
        → EndsByShutdown a w
    begun none c k = absurd (cc k)
    begun (some now) c k =
        let (v, greets, served) =
          greet-cases a.begins a.turns (enter now (set_will a.begins w)) k in
        record {
          since = now;
          greeted = v;
          connected = c;
          greets = greets;
          sees = serve-SeesShutdown a.turns v served;
        }
