-- ===== src/Telemetry/Sequences.antt =====
-- The sequence numbers of the published events (src/pitblu_core/telemetry.py, `_sequence`).
pub mod Heartbeats
pub mod Snapshots
use pitblu_core.Prelude.{
  Bool, Dict, List, Option, String, [], ap, arith, false, if◌then◌else◌, insert, lookup,
  lookup-insert, lookup-restrict, nat_eq, none, option_eq, restrict, some, string_eq, true, ℕ, ◌<◌,
  ◌==◌, ◌∙◌, ◌∷◌, ◌≡◌,
}
use pitblu_core.Models.{Datetime}
use pitblu_core.Events.{EventKey, key_eq, key_of, type_eq}
use pitblu_core.Telemetry.{
  BusCall, Draft, HeartbeatState, TelemetryState, announce, announce_all, device_key, forgets,
  last_used, next_sequence, publishes,
}
use pitblu_core.Telemetry.Heartbeats.{publish_heartbeat}

-- The number of the newest event of the key since its device was last forgotten; 0 if there is none.
abbrev pub last_sequence : EventKey → List BusCall → ℕ
last_sequence k [] = 0
last_sequence k (publishes e ∷ calls) = if key_of e == k then e.sequence else last_sequence k calls
last_sequence k (forgets device ∷ calls) =
    if k.device == some device then 0 else last_sequence k calls

-- Every event has a number above that of the event of its key before it.
abbrev pub Increasing : List BusCall → Type 0
Increasing [] = Unit
Increasing (publishes e ∷ calls) = (last_sequence (key_of e) calls < e.sequence) × Increasing calls
Increasing (forgets device ∷ calls) = Increasing calls

pub record Sequenced (calls : List BusCall) (used : Dict EventKey ℕ) : Type 0 where
  pub increasing : Increasing calls
  pub exact : (k : EventKey) → last_used k used ≡ last_sequence k calls

abbrev pub IsSequenced : TelemetryState → Type 0
IsSequenced s = Sequenced s.calls s.event_sequences

or_zero : Option ℕ → ℕ
or_zero none = 0
or_zero (some n) = n

last_used-or_zero : (k : EventKey) (d : Dict EventKey ℕ) → last_used k d ≡ or_zero (lookup k d)
unfolding or_zero
last_used-or_zero k d = ground arith

last_used-insert :
    (k j : EventKey) (n : ℕ) (d : Dict EventKey ℕ)
    → last_used k (insert j n d) ≡ (if j == k then n else last_used k d)
unfolding or_zero
last_used-insert k j n d =
    last_used-or_zero k (insert j n d) ∙ ap or_zero (lookup-insert k j n d) ∙ ground arith

pub last_used-restrict :
    (k : EventKey) (p : EventKey → Bool) (d : Dict EventKey ℕ)
    → last_used k (restrict p d) ≡ (if p k then last_used k d else 0)
unfolding or_zero
last_used-restrict k p d =
    last_used-or_zero k (restrict p d) ∙ ap or_zero (lookup-restrict k p d) ∙ ground arith

pub announce-IsSequenced :
    (device : String) (d : Draft) (s : TelemetryState)
    → IsSequenced s
    → IsSequenced (announce device d s)
unfolding announce
announce-IsSequenced device d s v =
    let key = device_key device d.kind d.probe in
    let n = next_sequence key d.observed_sequence s in
    record {
      increasing = (omega (arith, v.exact key), v.increasing);
      exact = λ k. last_used-insert k key n s.event_sequences ∙ ground (arith, v.exact k);
    }

pub announce_all-IsSequenced :
    (device : String) (ds : List Draft) (s : TelemetryState)
    → IsSequenced s
    → IsSequenced (announce_all device ds s)
unfolding announce_all
announce_all-IsSequenced device [] s v = v
announce_all-IsSequenced device (d ∷ ds) s v =
    announce_all-IsSequenced device ds (announce device d s) (announce-IsSequenced device d s v)

pub if-IsSequenced :
    (b : Bool) (s t : TelemetryState)
    → IsSequenced s
    → IsSequenced t
    → IsSequenced (if b then s else t)
if-IsSequenced true s t v w = v
if-IsSequenced false s t v w = w

pub publish_heartbeat-IsSequenced :
    (device : String) (h : HeartbeatState) (t : Datetime) (s : TelemetryState)
    → IsSequenced s
    → IsSequenced (publish_heartbeat device h t s)
unfolding publish_heartbeat
publish_heartbeat-IsSequenced device h t s v = announce-IsSequenced device _ _ v
