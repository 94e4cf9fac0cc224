-- ===== src/Mqtt/Envelope.antt =====
-- What every payload of src/pitblu_core/mqtt.py says of its event.
use pitblu_core.Prelude.{
  Option, String, [], any, arith, false, insert, lookup, lookup-insert, none, refl, some, string_eq,
  ◌==◌, ◌∙◌, ◌∷◌, ◌≡◌,
}
use pitblu_core.Events.{
  Payload, TelemetryEvent, availability, battery_level, configuration_version, connection_state,
  heartbeat_state, operation_state, probe_state, temperature,
}
use pitblu_core.Mqtt.{
  Fields, Json, data_fields, device_field, envelope, mqtt_payload, number, probe_field,
  session_field, set_some, source_value, text, time, update_fields,
}

lookup-update_fields :
    (key : String) (new old : Fields)
    → any (λ x. x.0 == key) new ≡ false
    → lookup key (update_fields new old) ≡ lookup key old
unfolding update_fields
lookup-update_fields key [] old h = refl
lookup-update_fields key ((k, v) ∷ new) old h =
    lookup-update_fields key new (insert k v old) (ground arith)
    ∙ lookup-insert key k v old
    ∙ ground arith

abbrev pub Lacks : Fields → String → Type 0
Lacks fields key = any (λ x. x.0 == key) fields ≡ false

-- None of the keys that the publisher sets itself
abbrev pub LacksEnvelope : Fields → Type 0
LacksEnvelope fields =
    Lacks fields "schemaVersion"
    × Lacks fields "observedAt"
    × Lacks fields "sequence"
    × Lacks fields "source"
    × Lacks fields "sessionId"
    × Lacks fields "deviceId"
    × Lacks fields "probe"

data_fields-Lacks : (p : Payload) → LacksEnvelope (data_fields p)
unfolding data_fields
data_fields-Lacks (availability a none) = (refl, refl, refl, refl, refl, refl, refl)
data_fields-Lacks (availability a (some r)) = (refl, refl, refl, refl, refl, refl, refl)
data_fields-Lacks (battery_level a b none) = (refl, refl, refl, refl, refl, refl, refl)
data_fields-Lacks (battery_level a b (some r)) = (refl, refl, refl, refl, refl, refl, refl)
data_fields-Lacks (probe_state a b none) = (refl, refl, refl, refl, refl, refl, refl)
data_fields-Lacks (probe_state a b (some r)) = (refl, refl, refl, refl, refl, refl, refl)
data_fields-Lacks (temperature t) = (refl, refl, refl, refl, refl, refl, refl)
data_fields-Lacks (connection_state s) = (refl, refl, refl, refl, refl, refl, refl)
data_fields-Lacks (heartbeat_state a b c d) = (refl, refl, refl, refl, refl, refl, refl)
data_fields-Lacks (operation_state a b c d) = (refl, refl, refl, refl, refl, refl, refl)
data_fields-Lacks (configuration_version v s) = (refl, refl, refl, refl, refl, refl, refl)

abbrev set_fields : Option Json → Option Json → Option Json → Fields → Fields
set_fields session device probe fields =
    set_some "probe" probe (set_some "deviceId" device (set_some "sessionId" session fields))

-- What a payload says under the publisher's own keys
pub record Describes (payload : Fields) (e : TelemetryEvent) : Type 0 where
  pub schema : lookup "schemaVersion" payload ≡ some (number 1)
  pub observed : lookup "observedAt" payload ≡ some (time e.observed_at)
  pub numbered : lookup "sequence" payload ≡ some (number e.sequence)
  pub origin : lookup "source" payload ≡ some (text (source_value e.source))
  pub session : lookup "sessionId" payload ≡ session_field e.session_id
  pub device : lookup "deviceId" payload ≡ device_field e.device_id
  pub probe : lookup "probe" payload ≡ probe_field e.probe

set_fields-Describes :
    (e : TelemetryEvent) (session device probe : Option Json)
    → session ≡ session_field e.session_id
    → device ≡ device_field e.device_id
    → probe ≡ probe_field e.probe
    → Describes (set_fields session device probe (envelope e)) e
unfolding lookup insert
set_fields-Describes e session device probe p q r = record {
  schema = ground arith;
  observed = ground arith;
  numbered = ground arith;
  origin = ground arith;
  session = ground (arith, p);
  device = ground (arith, q);
  probe = ground (arith, r);
}

-- Whatever its event carries, a payload names the schema, and the event's time, number, source,
-- device and probe as the event has them, and the session unless it is empty: no key of the event's
-- own data takes the place of one of these.
pub mqtt_payload-Describes : (e : TelemetryEvent) → Describes (mqtt_payload e) e
unfolding mqtt_payload
mqtt_payload-Describes e =
    let old =
      set_fields (session_field e.session_id) (device_field e.device_id) (probe_field e.probe)
        (envelope e) in
    let known : Describes old e = set_fields-Describes e _ _ _ refl refl refl in
    let (a, b, c, d, f, g, h) = data_fields-Lacks e.payload in
    let keeps = λ (key : String) (l : Lacks (data_fields e.payload) key).
      lookup-update_fields key (data_fields e.payload) old l in
    record {
      schema = keeps "schemaVersion" a ∙ known.schema;
      observed = keeps "observedAt" b ∙ known.observed;
      numbered = keeps "sequence" c ∙ known.numbered;
      origin = keeps "source" d ∙ known.origin;
      session = keeps "sessionId" f ∙ known.session;
      device = keeps "deviceId" g ∙ known.device;
      probe = keeps "probe" h ∙ known.probe;
    }
