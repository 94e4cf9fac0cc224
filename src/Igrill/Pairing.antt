-- ===== src/Igrill/Pairing.antt =====
-- What the adapter of src/pitblu_core/adapters/igrill_v202.py writes to a thermometer.
use pitblu_core.Prelude.{
  ==_iff, Bool-cases, Exception, List, String, [], adapter_error, any, err, inl, inr, length,
  nat_eq, ok, refl, string_eq, true, unsupported_device, ℕ, ◌==◌, ◌∷◌, ◌≡◌, ◌⊎◌,
}
use pitblu_core.Igrill.Discovery.{temperature_service}
use pitblu_core.Igrill.Session.{
  Connecting, Write, app_challenge, authenticate, device_response, open_client, zero_bytes,
}
use pitblu_core.Igrill.{Response, bounded, failed, returned, timed_out}

-- The connection, the services and the whole exchange of the authentication succeed.
pub record Answers (c : Connecting) (challenge : List ℕ) : Type 0 where
  pub opens : (b : List ℕ) × (c.connection ≡ returned b)
  pub serves : any (λ u. u == temperature_service) c.services ≡ true
  pub takes_challenge : (b : List ℕ) × (c.challenge_written ≡ returned b)
  pub challenges : c.challenge ≡ returned challenge
  pub whole : length challenge ≡ 16
  pub takes_response : (b : List ℕ) × (c.response_written ≡ returned b)

abbrev pub exchange : List ℕ → List Write
exchange challenge = app_challenge (zero_bytes 16) ∷ device_response challenge ∷ []

-- What has been written when the connection fails: nothing, the application's challenge, or the
-- whole exchange with the challenge that the thermometer sent.
abbrev pub Stopped : Connecting → List Write → Type 0
Stopped c writes =
    (writes ≡ [])
    ⊎ (writes ≡ app_challenge (zero_bytes 16) ∷ [])
    ⊎ ((challenge : List ℕ) × (c.challenge ≡ returned challenge)
        × (length challenge ≡ 16)
        × (writes ≡ exchange challenge))

abbrev pub Opens : Connecting → Type 0
Opens c =
    (challenge : List ℕ) × Answers c challenge × (open_client c [] ≡ (ok tt, exchange challenge))

abbrev pub Refuses : Connecting → Type 0
Refuses c =
    (e : Exception) × (writes : List Write) × Stopped c writes
    × (open_client c [] ≡ (err e, writes))

Response-cases :
    (x : Response)
    → ((b : List ℕ) × (x ≡ returned b))
      ⊎ ((operation : String) → (e : Exception) × (bounded x operation ≡ err e))
unfolding bounded
Response-cases (returned b) = inl (b, refl)
Response-cases timed_out = inr λ operation. (adapter_error operation, refl)
Response-cases (failed e) = inr λ operation. (e, refl)

authenticate-cases :
    (c : Connecting)
    → ((challenge : List ℕ) × ((b : List ℕ) × (c.challenge_written ≡ returned b))
        × (c.challenge ≡ returned challenge)
        × (length challenge ≡ 16)
        × ((b : List ℕ) × (c.response_written ≡ returned b))
        × (authenticate c [] ≡ (ok tt, exchange challenge)))
      ⊎ ((e : Exception) × (writes : List Write) × Stopped c writes
          × (authenticate c [] ≡ (err e, writes)))
unfolding authenticate bounded
authenticate-cases c = elim (Response-cases c.challenge_written) [
  | inr f ↦
      let (e, p) = f "application challenge write timed out" in
      inr (e, app_challenge (zero_bytes 16) ∷ [], inr (inl refl), rw p)
  | inl (b, p) ↦ elim (Response-cases c.challenge) [
    | inr f ↦
        let (e, q) = f "device challenge read timed out" in
        inr (e, app_challenge (zero_bytes 16) ∷ [], inr (inl refl), rw (p, q, bounded))
    | inl (ch, q) ↦ elim (Bool-cases (length ch == 16)) [
      | inr misfit ↦ inr (
        adapter_error "device challenge has an invalid length",
        app_challenge (zero_bytes 16) ∷ [],
        inr (inl refl),
        rw (p, q, bounded, misfit),
      )
      | inl fits ↦ elim (Response-cases c.response_written) [
        | inr f ↦
            let (e, t) = f "device response write timed out" in
            inr (
              e,
              exchange ch,
              inr (inr (ch, q, (==_iff (length ch) 16).0 fits, refl)),
              rw (p, q, bounded, fits, t),
            )
        | inl (b', t) ↦
            inl
              (ch, (b, p), q, (==_iff (length ch) 16).0 fits, (b', t), rw (p, q, bounded, fits, t))
      ]
    ]
  ]
]

-- Opening a client succeeds only over a thermometer that has the service and answers the whole
-- exchange, and then exactly two values have been written to it: sixteen zero bytes, and back the
-- sixteen bytes of its own challenge. Every other opening raises, and has written no more than a
-- beginning of that.
pub open_client-cases : (c : Connecting) → Opens c ⊎ Refuses c
unfolding open_client bounded
open_client-cases c = elim (Response-cases c.connection) [
  | inr f ↦
      let (e, p) = f "BLE connection and GATT service resolution timed out" in
      inr (e, [], inl refl, rw p)
  | inl (b, p) ↦ elim (Bool-cases (any (λ u. u == temperature_service) c.services)) [
    | inr misfit ↦ inr (
      unsupported_device "device does not expose the V202 service",
      [],
      inl refl,
      rw (p, bounded, misfit),
    )
    | inl fits ↦ elim (authenticate-cases c) [
      | inr (e, writes, stopped, t) ↦ inr (e, writes, stopped, rw (p, bounded, fits, t))
      | inl (ch, w, q, whole, t, done) ↦ inl (
        ch,
        record {
          opens = (b, p);
          serves = fits;
          takes_challenge = w;
          challenges = q;
          whole = whole;
          takes_response = t;
        },
        rw (p, bounded, fits, done),
      )
    ]
  ]
]
