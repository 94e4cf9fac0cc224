-- ===== src/Events/History.antt =====
-- The bounded buffers of src/pitblu_core/events.py: each holds the last events that were put in it.
use mathlib.Core.List.{append-nil, append_assoc}
use pitblu_core.Prelude.{
  Bool-cases, List, String, [], ap, arith, drop, drop-append_short, drop-drop, inl, inr, length,
  length-append, length-drop, ltb, ltb→lt, map, refl, sym, take_last, tests, ℕ, ◌++◌, ◌-◌, ◌∙◌, ◌∷◌,
  ◌≡◌, ◌≤◌,
}
use pitblu_core.Events.{EventBus, TelemetryEvent, append_bounded, publish, publish_all, recent}
use pitblu_core.Events.Key.{history-publish, publish-SameSettings, stamp}

module _ {A : Type 0} where
  -- Keeping the last entries at once or in two goes is the same.
  pub take_last-take_last :
      (n : ℕ) (xs ys : List A) → take_last n (take_last n xs ++ ys) ≡ take_last n (xs ++ ys)
  take_last-take_last n xs ys = rw (← drop-append_short (length xs - n) xs ys (omega arith)) (
      drop-drop (length (drop (length xs - n) (xs ++ ys)) - n) (length xs - n)
        (length (xs ++ ys) - n) (xs ++ ys)
        (omega (arith, length-drop (length xs - n) (xs ++ ys), length-append xs ys)))

  pub take_last_all : (n : ℕ) (xs : List A) → length xs ≤ n → take_last n xs ≡ xs
  take_last_all n xs h = ap (λ (k : ℕ). drop k xs) {y = 0} (omega arith)

  drop-append_drop :
      (xs : List A) (x : A) (n : ℕ)
      → length xs ≡ n
      → 1 ≤ n
      → drop 1 xs ++ x ∷ [] ≡ take_last n (xs ++ x ∷ [])
  drop-append_drop xs x n e h =
      sym (drop-append_short 1 xs (x ∷ []) (omega arith))
      ∙ ap (λ (k : ℕ). drop k (xs ++ x ∷ [])) {x = 1} (omega (arith, length-append xs (x ∷ [])))

  pub append_bounded_lem :
      (n : ℕ) (x : A) (xs : List A)
      → 1 ≤ n
      → length xs ≤ n
      → append_bounded n x xs ≡ take_last n (xs ++ x ∷ [])
  unfolding append_bounded
  append_bounded_lem n x xs h k = elim (Bool-cases (ltb (length xs) n)) [
    | inl e ↦ rw e (
        sym (
          take_last_all n (xs ++ x ∷ [])
            (omega (tests, length-append xs (x ∷ []), ltb→lt (length xs) n e))))
    | inr e ↦ rw e (drop-append_drop xs x n (ground arith) h)
  ]

  pub length-take_last-le : (n : ℕ) (xs : List A) → length (take_last n xs) ≤ n
  length-take_last-le n xs = omega (arith, length-drop (length xs - n) xs)

  -- `append_bounded` for each of the second list.
  abbrev pub append_all : ℕ → List A → List A → List A
  append_all n xs [] = xs
  append_all n xs (y ∷ ys) = append_all n (append_bounded n y xs) ys

  pub append_all_lem :
      (n : ℕ) (xs ys : List A) → 1 ≤ n → length xs ≤ n → append_all n xs ys ≡ take_last n (xs ++ ys)
  append_all_lem n xs [] h k = rw append-nil (sym (take_last_all n xs k))
  append_all_lem n xs (y ∷ ys) h k =
      append_all_lem n (append_bounded n y xs) ys h
        (rw (append_bounded_lem n y xs h k) (length-take_last-le n (xs ++ y ∷ [])))
      ∙ ap (λ (zs : List A). take_last n (zs ++ ys)) (append_bounded_lem n y xs h k)
      ∙ take_last-take_last n (xs ++ y ∷ []) ys
      ∙ ap (take_last n) (append_assoc xs (y ∷ []) ys)

history-publish_all :
    (es : List TelemetryEvent) (b : EventBus) (n : ℕ) (session : String)
    → b.history_size ≡ n
    → b.session_id ≡ session
    → (publish_all es b).history ≡ append_all n b.history (map (stamp session) es)
unfolding publish_all
history-publish_all [] b n session p q = refl
history-publish_all (e ∷ es) b n session p q =
    let same = publish-SameSettings e b in
    history-publish_all es (publish e b) n session (same.history_size ∙ p) (same.session ∙ q)
    ∙ ap (λ (h : List TelemetryEvent). append_all n h (map (stamp session) es))
        (history-publish e b ∙ λ i. append_bounded (p i) (stamp (q i) e) b.history)

-- After any events the history is the last `history_size` of those that it held and those that were
-- published, in order, each stamped with the session, if it had room for one and held no more than
-- its size.
pub recent-publish_all :
    (es : List TelemetryEvent) (b : EventBus)
    → 1 ≤ b.history_size
    → length b.history ≤ b.history_size
    → recent (publish_all es b) ≡ take_last b.history_size (recent b ++ map (stamp b.session_id) es)
unfolding recent
recent-publish_all es b h k =
    history-publish_all es b b.history_size b.session_id refl refl
    ∙ append_all_lem b.history_size b.history (map (stamp b.session_id) es) h k
