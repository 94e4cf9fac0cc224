-- ===== src/Mqtt/Offline.antt =====
-- How each session of the publisher of src/pitblu_core/mqtt.py takes its leave.
use pitblu_core.Prelude.{
  Bool, List, Option, Result, [], any, ap, arith, err, false, foreign_error, keep, nat_eq, none,
  not, ok, refl, some, string_eq, true, ℕ, ◌++◌, ◌==◌, ◌∙◌, ◌∷◌, ◌≡◌, ◌≢◌,
}
use pitblu_core.Models.{Datetime}
use pitblu_core.Events.{Subscriber, type_eq, unsubscribe}
use pitblu_core.Mqtt.Publisher.{
  MqttPublisher, Sent, World, client_publish, message_of, publish_service, service_message,
}
use pitblu_core.Mqtt.Session.{Pass, Turn, connected_run, enter, greet, leave, set_will}
use pitblu_core.Mqtt.Announcements.{Announces, service_message-Announces}
use pitblu_core.Mqtt.Steps.{connected_run_preserves, greet_preserves}
use pitblu_core.Mqtt.Mirror.Delivery.{SendsOnly, attempts-client_publish, client_publish-SendsOnly}

-- The two worlds have the same publisher, the same name of its queue, and the same will.
record Keeps (w v : World) : Type 0 where
  publisher : v.publisher ≡ w.publisher
  number : v.number ≡ w.number
  will : v.network.will ≡ w.network.will

Keeps-trans : (u v w : World) → Keeps u v → Keeps v w → Keeps u w
Keeps-trans u v w a b = record {
  publisher = b.publisher ∙ a.publisher;
  number = b.number ∙ a.number;
  will = b.will ∙ a.will;
}

SendsOnly-Keeps : (w v : World) → SendsOnly w v → Keeps w v
SendsOnly-Keeps w v s = record { publisher = s.publisher; number = s.number; will = s.will }

greet-Keeps : (now : Datetime) (turns : List Turn) (w : World) → Keeps w (greet now turns w).1
greet-Keeps now turns w =
    greet_preserves (Keeps w)
      (λ e topic v a t h. sent (message_of v.publisher.settings e topic) v h)
      (λ available sequence now v k h.
        sent (service_message v.publisher available sequence now) v h)
      (λ b v h. record { publisher = h.publisher; number = h.number; will = h.will }) now turns w
      (record { publisher = refl; number = refl; will = refl })
  where
    sent : (m : Sent) (v : World) → Keeps w v → Keeps w (client_publish m v).1
    sent m v h =
        Keeps-trans w v (client_publish m v).1 h
          (SendsOnly-Keeps v (client_publish m v).1 (client_publish-SendsOnly m v))

-- What is there when a session has ended: the last message given to the client says that the
-- service is unavailable, and so does the will; the publisher's queue is gone from the bus.
pub record SaidGoodbye (now later : Datetime) (p : MqttPublisher) (w : World) : Type 0 where
  pub last_said :
      (before : List Sent) × (m : Sent) × (w.network.attempts ≡ before ++ m ∷ [])
      × Announces p.settings p.session_id false 2 later m
  pub will :
      (m : Sent) × (w.network.will ≡ some m) × Announces p.settings p.session_id false 2 now m
  pub unsubscribed : any (λ s. s.id == w.number) w.events.subscribers ≡ false

discarded :
    (n : ℕ) (ss : List Subscriber) → any (λ s. s.id == n) (keep (λ s. not (s.id == n)) ss) ≡ false
discarded n [] = refl
discarded n (s ∷ ss) = ground (arith, discarded n ss)

leaving : (later : Datetime) (w : World) → World
leaving later w =
    (publish_service false 2 later (record w { events = unsubscribe w.number w.events })).1

leaving-SaidGoodbye :
    (now later : Datetime) (p : MqttPublisher) (w : World)
    → w.publisher ≡ p
    → w.network.will ≡ some (service_message p false 2 now)
    → SaidGoodbye now later p (leaving later w)
unfolding leaving publish_service unsubscribe
leaving-SaidGoodbye now later p w same will =
    let v : World = record w { events = unsubscribe w.number w.events } in
    let m = service_message w.publisher false 2 later in
    let sends = client_publish-SendsOnly m v in
    record {
      last_said = (
        w.network.attempts,
        service_message p false 2 later,
        attempts-client_publish m v
            ∙ ap (λ (q : MqttPublisher). w.network.attempts ++ service_message q false 2 later ∷ [])
                same,
        service_message-Announces p false 2 later,
      );
      will = (
        service_message p false 2 now,
        sends.will ∙ will,
        service_message-Announces p false 2 now,
      );
      unsubscribed =
          (λ i. any (λ s. s.id == sends.number i) (sends.events i).subscribers)
          ∙ discarded w.number w.events.subscribers;
    }

leave-SaidGoodbye :
    (now later : Datetime) (p : MqttPublisher) (r : Result Bool) (w : World)
    → w.publisher ≡ p
    → w.network.will ≡ some (service_message p false 2 now)
    → r ≢ ok false
    → SaidGoodbye now later p (leave later r w)
unfolding leave leaving
leave-SaidGoodbye now later p (ok true) w same will h = leaving-SaidGoodbye now later p w same will
leave-SaidGoodbye now later p (ok false) w same will h = absurd (h refl)
leave-SaidGoodbye now later p (err x) w same will h = leaving-SaidGoodbye now later p w same will

entered-SaidGoodbye :
    (a : Pass) (w : World) (since : ℕ)
    → (let v = enter since (set_will a.begins w) in
        let (r, u) = greet a.begins a.turns v in
        r ≢ ok false → SaidGoodbye a.begins a.ends v.publisher (leave a.ends r u))
entered-SaidGoodbye a w since =
    let v = enter since (set_will a.begins w) in
    let kept = greet-Keeps a.begins a.turns v in
    leave-SaidGoodbye a.begins a.ends v.publisher (greet a.begins a.turns v).0
      (greet a.begins a.turns v).1 kept.publisher (kept.will ∙ entered_will)
  where
    entered_will :
        (enter since (set_will a.begins w)).network.will
        ≡ some (service_message (enter since (set_will a.begins w)).publisher false 2 a.begins)
    entered_will = unfold enter in refl

-- No session touches the delays between sessions.
pub policy-connected_run :
    (a : Pass) (w : World) → (connected_run a w).1.publisher.policy ≡ w.publisher.policy
policy-connected_run a w =
    connected_run_preserves (λ v. v.publisher.policy ≡ w.publisher.policy)
      (λ e topic v n t h. sent (message_of v.publisher.settings e topic) v h)
      (λ available sequence now v k h.
        sent (service_message v.publisher available sequence now) v h)
      (λ b v h. h) a w (λ since h. unfold enter in h) refl
  where
    sent :
        (m : Sent) (v : World)
        → v.publisher.policy ≡ w.publisher.policy
        → (client_publish m v).1.publisher.policy ≡ w.publisher.policy
    sent m v h = ap (λ (q : MqttPublisher). q.policy) (client_publish-SendsOnly m v).publisher ∙ h

-- A session that was connected and ended, by the shutdown, by a refused message at any point, by a
-- topic that could not be formed or by cancellation, said last, as a retained message under the topic
-- of the service, that the service is unavailable. The same, but with the time of the session's start,
-- was registered as the will beforehand, and no queue is left on the bus. (Whether the network took
-- that last message does not matter to what is left.)
pub connected_run-SaidGoodbye :
    (a : Pass) (w : World) (since : ℕ)
    → a.connects ≡ some since
    → (connected_run a w).0 ≢ ok false
    → SaidGoodbye a.begins a.ends w.publisher (connected_run a w).1
unfolding connected_run enter
connected_run-SaidGoodbye a w since c h = begun a.connects c h
  where
    begun :
        (o : Option ℕ)
        → o ≡ some since
        → (let x : Result Bool × World = elim o [
          | none ↦ (err (foreign_error "MqttError"), w)
          | some now ↦
              (let (r, w') = greet a.begins a.turns (enter now (set_will a.begins w)) in
                (r, leave a.ends r w'))
        ] in
            x.0 ≢ ok false → SaidGoodbye a.begins a.ends w.publisher x.1)
    begun none e n = absurd (cc)
    begun (some now) e n =
        let g = entered-SaidGoodbye a w now n in
        record { last_said = g.last_said; will = g.will; unsubscribed = g.unsubscribed }
