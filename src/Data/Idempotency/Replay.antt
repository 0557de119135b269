-- ===== src/Data/Idempotency/Replay.antt =====
-- The life of an idempotency key over any history of calls.
use rust_libraries.Prelude.{
  String, ◌≡◌, ◌≢◌, refl, ◌∙◌, ap, inl, inr, none, some, List, [], ◌∷◌, All, Result, ok, err, arith,
  string_eq, Option-cases,
}
use rust_libraries.Prelude.Map.{get, insert, get-insert, get-insert_self}
use rust_libraries.Time.{Timestamp}
use rust_libraries.Data.Idempotency.{
  IdempotencyRecord, Outcome, IdempotencyError, unknown_key, Store, begin, complete, outcome_of,
  claimed, finished,
}

pub data Call (V : Type 0) : Type 0 where
  begins : String → Call V
  completes : String → V → Call V

module _ {V : Type 0} (null : V) where
  abbrev pub store_of : Store V → Result IdempotencyError (Store V) → Store V
  store_of s (ok t) = t
  store_of s (err e) = s

  pub perform : Store V → Timestamp × Call V → Store V
  perform s (now, begins key) = (begin null s now key).0
  perform s (now, completes key response) = store_of s (complete s now key response)

  pub perform_all : Store V → List (Timestamp × Call V) → Store V
  perform_all s [] = s
  perform_all s (c ∷ rest) = perform_all (perform s c) rest

  -- A call that does not complete this key.
  abbrev pub Leaves : String → Call V → Type 0
  Leaves key (begins k) = Unit
  Leaves key (completes k response) = k ≢ key

  perform-keeps :
      (s : Store V) (c : Timestamp × Call V) (key : String) (r : IdempotencyRecord V)
      → get key s ≡ some r
      → Leaves key c.1
      → get key (perform s c) ≡ some r
  unfolding perform begin complete
  perform-keeps s (now, begins k) key r h l =
      ground (arith, string_eq.beq_iff k key, get-insert k key (claimed now k) s)
  perform-keeps s (now, completes k v) key r h l = elim (Option-cases (get k s)) [
    | inl e ↦ ground arith
    | inr (w, e) ↦ ground (arith, string_eq.beq_iff k key, get-insert k key (finished now v w) s)
  ]

  perform_all-keeps :
      (s : Store V) (calls : List (Timestamp × Call V)) (key : String) (r : IdempotencyRecord V)
      → get key s ≡ some r
      → All (λ c. Leaves key c.1) calls
      → get key (perform_all s calls) ≡ some r
  unfolding perform_all
  perform_all-keeps s [] key r h l = h
  perform_all-keeps s (c ∷ rest) key r h l =
      perform_all-keeps (perform s c) rest key r (perform-keeps s c key r h l.0) l.1

  begin_found :
      (s : Store V) (now : Timestamp) (key : String) (r : IdempotencyRecord V)
      → get key s ≡ some r
      → begin null s now key ≡ (s, outcome_of null r.status r)
  unfolding begin
  begin_found s now key r h = rw (h, begin)

  claim :
      (s : Store V) (now : Timestamp) (key : String)
      → get key s ≡ none
      → (r : IdempotencyRecord V) × (get key (begin null s now key).0 ≡ some r)
        × ((begin null s now key).1 ≡ Outcome.new)
        × (outcome_of null r.status r ≡ Outcome.in_progress)
  unfolding begin
  claim s now key h =
      let r : IdempotencyRecord V = claimed now key in
      (r, rw (h, begin) (get-insert_self key r s), rw (h, begin), refl)

  completed :
      (s t : Store V) (now : Timestamp) (key : String) (response : V)
      → complete s now key response ≡ ok t
      → (r : IdempotencyRecord V) × (get key t ≡ some r)
        × (outcome_of null r.status r ≡ Outcome.completed response)
  unfolding complete outcome_of
  completed s t now key response e = elim (Option-cases (get key s)) [
    | inl g ↦ absurd (ground arith)
    | inr (w, g) ↦
        let r = finished now response w in (r, ground (arith, get-insert_self key r s), refl)
  ]

  -- The first `begin` of a key claims it; until the key is completed every later `begin` of it
  -- answers that it is in progress and changes nothing, whatever happens to other keys in between.
  pub begin_claims_once :
      (s : Store V) (now later : Timestamp) (key : String) (calls : List (Timestamp × Call V))
      → get key s ≡ none
      → All (λ c. Leaves key c.1) calls
      → ((begin null s now key).1 ≡ Outcome.new)
        × (begin null (perform_all (begin null s now key).0 calls) later key
            ≡ (perform_all (begin null s now key).0 calls, Outcome.in_progress))
  begin_claims_once s now later key calls h l =
      let (r, e, f, p) = claim s now key h in
      (
        f,
        begin_found (perform_all (begin null s now key).0 calls) later key r
              (perform_all-keeps (begin null s now key).0 calls key r e l)
            ∙ ap (λ o. (perform_all (begin null s now key).0 calls, o)) p,
      )

  -- Once `complete` has stored a response, every later `begin` of the key replays this response and
  -- changes nothing, as long as the key is not completed again.
  pub complete-replays :
      (s t : Store V) (now later : Timestamp) (key : String) (response : V)
      (calls : List (Timestamp × Call V))
      → complete s now key response ≡ ok t
      → All (λ c. Leaves key c.1) calls
      → begin null (perform_all t calls) later key
        ≡ (perform_all t calls, Outcome.completed response)
  complete-replays s t now later key response calls e l =
      let (r, g, p) = completed s t now key response e in
      begin_found (perform_all t calls) later key r (perform_all-keeps t calls key r g l)
      ∙ ap (λ o. (perform_all t calls, o)) p

  -- A key can be completed exactly when it was claimed before; an unknown key is an error, which
  -- changes nothing.
  pub complete_iff_claimed :
      (s : Store V) (now : Timestamp) (key : String) (response : V)
      → ((get key s ≡ none) → complete s now key response ≡ err (unknown_key key))
        × ((r : IdempotencyRecord V)
            → get key s ≡ some r
            → (t : Store V) × (w : IdempotencyRecord V) × (complete s now key response ≡ ok t)
              × (get key t ≡ some w)
              × (w.response ≡ some response)
              × (w.created_at ≡ r.created_at))
  unfolding complete
  complete_iff_claimed s now key response = (
    λ h. rw (h, complete),
    λ r h.
        let w = finished now response r in
        (insert key w s, w, rw (h, complete), get-insert_self key w s, refl, refl),
  )
