-- ===== src/Service/Identities.antt =====
-- No two devices are the same thermometer (src/pitblu_core/service.py, `register` and
-- `patch_device`).
pub mod Requests
use pitblu_core.Prelude.{
  ==_iff, Bool, Bool-cases, List, Option, String, [], any, ap, arith, false, if◌then◌else◌, inl,
  inr, none, option_eq, some, string_eq, subst, sym, true, ◌&&◌, ◌==◌, ◌∙◌, ◌∷◌, ◌≡◌, ◌≢◌,
}
use pitblu_core.Storage.{DeviceRow, Store}
use pitblu_core.Storage.DeviceTable.{device, find_device}
use pitblu_core.Service.Registration.{has_identity}

-- Devices of one identity are one device.
abbrev pub HasUniqueIdentities : Store → Type 0
HasUniqueIdentities s =
    (j k : String) (r q : DeviceRow) (i : String)
    → device j s ≡ some r
    → device k s ≡ some q
    → r.identity ≡ some i
    → q.identity ≡ some i
    → j ≡ k

-- No other device has the identity of the row.
abbrev pub IsNewIdentity : String → DeviceRow → Store → Type 0
IsNewIdentity key row s =
    (k : String) (q : DeviceRow) (i : String)
    → key ≢ k
    → device k s ≡ some q
    → row.identity ≡ some i
    → q.identity ≢ some i

pub put-HasUniqueIdentities :
    (key : String) (row : DeviceRow) (s t : Store)
    → ((k : String) → device k t ≡ (if key == k then some row else device k s))
    → IsNewIdentity key row s
    → HasUniqueIdentities s
    → HasUniqueIdentities t
put-HasUniqueIdentities key row s t e new u j k r q i d₁ d₂ h₁ h₂ = elim (Bool-cases (key == j)) [
  | inl a ↦ elim (Bool-cases (key == k)) [
    | inl b ↦ sym ((==_iff key j).0 a) ∙ (==_iff key k).0 b
    | inr b ↦
        let own : r ≡ row = ground (arith, e j, a, d₁) in
        absurd (
          new k q i (λ x. ground (arith, ==_iff key k, x, b)) (ground (arith, e k, b, d₂))
            (ap (λ (x : DeviceRow). x.identity) (sym own) ∙ h₁) h₂)
  ]
  | inr a ↦ elim (Bool-cases (key == k)) [
    | inl b ↦
        let own : q ≡ row = ground (arith, e k, b, d₂) in
        absurd (
          new j r i (λ x. ground (arith, ==_iff key j, x, a)) (ground (arith, e j, a, d₁))
            (ap (λ (x : DeviceRow). x.identity) (sym own) ∙ h₂) h₁)
    | inr b ↦ u j k r q i (ground (arith, e j, a, d₁)) (ground (arith, e k, b, d₂)) h₁ h₂
  ]
]

find_device-key :
    (key : String) (rows : List DeviceRow) (q : DeviceRow)
    → find_device key rows ≡ some q
    → q.device_id ≡ key
unfolding find_device
find_device-key key [] q h = cc
find_device-key key (r ∷ rows) q h =
    ground (arith, ==_iff r.device_id key, find_device-key key rows q)

pub device-key :
    (key : String) (s : Store) (q : DeviceRow) → device key s ≡ some q → q.device_id ≡ key
unfolding device
device-key key s q h = find_device-key key s.devices q h

not_identity :
    (i : String) (p : DeviceRow → Bool) (key : String) (rows : List DeviceRow) (q : DeviceRow)
    → any (λ r. p r && r.identity == some i) rows ≡ false
    → find_device key rows ≡ some q
    → p q ≡ true
    → q.identity ≢ some i
unfolding find_device
not_identity i p key [] q h d t e = cc
not_identity i p key (r ∷ rows) q h d t e = elim (Bool-cases (r.device_id == key)) [
  | inl a ↦ ground (arith, a, h, d, t, e, ==_iff q.identity (some i))
  | inr a ↦ not_identity i p key rows q (ground (arith, h)) (ground (arith, a, d)) t e
]

pub untaken :
    (o : Option String) (p : DeviceRow → Bool) (key i : String) (s : Store) (q : DeviceRow)
    → has_identity o p s.devices ≡ false
    → device key s ≡ some q
    → p q ≡ true
    → o ≡ some i
    → q.identity ≢ some i
unfolding device
untaken none p key i s q h d t e = cc
untaken (some j) p key i s q h d t e =
    not_identity i p key s.devices q (subst (λ x. has_identity x p s.devices ≡ false) e h) d t
