-- ===== src/Domain/Sequence.antt =====
-- The numbers of the events over any history of an aggregate.
use native.Mathlib.Nat.{mod-eq_of_lt}
use rust_libraries.Prelude.{
  ℕ, suc, ◌+◌, ◌%◌, ◌<◌, ◌≡◌, refl, sym, ◌∙◌, ap, Option, none, some, List, [], ◌∷◌, ◌++◌, map,
  length, length-append, arith,
}
use rust_libraries.Time.{Timestamp}
use rust_libraries.Domain.{
  u64_mod, EventEnvelope, EventLog, Aggregate, with_version, record_event, take_events, envelope,
  start_of, envelopes_from, drain_envelopes,
}

pub data Call (E : Type 0) : Type 0 where
  records : E → Call E
  drains : (ℕ → ℕ) → Timestamp → Call E

module _ {E : Type 0} where
  abbrev prepend :
      List (EventEnvelope E)
      → Option (EventLog E × List (EventEnvelope E))
      → Option (EventLog E × List (EventEnvelope E))
  prepend envs none = none
  prepend envs (some (log, out)) = some (log, envs ++ out)

  -- The log after the calls and all drained envelopes; `none` is an overflow.
  pub run : Aggregate E → EventLog E → List (Call E) → Option (EventLog E × List (EventEnvelope E))
  run a log [] = some (log, [])
  run a log (records e ∷ calls) = run a (record_event log e) calls
  run a log (drains ids at ∷ calls) = elim (drain_envelopes a ids log at) [
    | none ↦ none
    | some (later, envs) ↦ prepend envs (run a later calls)
  ]

  abbrev pub recorded : List (Call E) → List E
  recorded [] = []
  recorded (records e ∷ calls) = e ∷ recorded calls
  recorded (drains _ _ ∷ calls) = recorded calls

  -- The events numbered from a number on.
  abbrev pub numbered : ℕ → List E → List (ℕ × E)
  numbered n [] = []
  numbered n (e ∷ es) = (n, e) ∷ numbered (suc n) es

  abbrev pub number : EventEnvelope E → ℕ × E
  number env = (env.sequence, env.payload)

  numbered-append :
      (n : ℕ) (xs ys : List E)
      → numbered n (xs ++ ys) ≡ numbered n xs ++ numbered (n + length xs) ys
  numbered-append n [] ys = ap (λ m. numbered m ys) (omega arith)
  numbered-append n (x ∷ xs) ys =
      let next : suc n + length xs ≡ n + suc (length xs) = omega arith in
      ap (λ l. (n, x) ∷ l)
        (numbered-append (suc n) xs ys ∙ ap (λ m. numbered (suc n) xs ++ numbered m ys) next)

  number-envelopes_from :
      (a : Aggregate E) (ids : ℕ → ℕ) (start offset : ℕ) (at : Timestamp) (es : List E)
      → map number (envelopes_from a ids start offset at es) ≡ numbered (start + offset) es
  unfolding envelopes_from envelope
  number-envelopes_from a ids start offset at [] = refl
  number-envelopes_from a ids start offset at (e ∷ es) =
      let next : start + suc offset ≡ suc (start + offset) = omega arith in
      ap (λ l. (start + offset, e) ∷ l)
        (number-envelopes_from a ids start (suc offset) at es ∙ ap (λ m. numbered m es) next)

  map-append :
      (xs ys : List (EventEnvelope E)) → map number (xs ++ ys) ≡ map number xs ++ map number ys
  map-append [] ys = refl
  map-append (x ∷ xs) ys = ap (λ l. number x ∷ l) (map-append xs ys)

  push_on : (xs : List E) (x : E) (ys : List E) → (xs ++ x ∷ []) ++ ys ≡ xs ++ x ∷ ys
  push_on [] x ys = refl
  push_on (y ∷ xs) x ys = ap (λ l. y ∷ l) (push_on xs x ys)

  assoc_pairs : (xs ys zs : List (ℕ × E)) → (xs ++ ys) ++ zs ≡ xs ++ (ys ++ zs)
  assoc_pairs [] ys zs = refl
  assoc_pairs (x ∷ xs) ys zs = ap (λ l. x ∷ l) (assoc_pairs xs ys zs)

  append_nil : (xs : List E) → xs ++ [] ≡ xs
  append_nil [] = refl
  append_nil (x ∷ xs) = ap (λ l. x ∷ l) (append_nil xs)

  drained :
      (a : Aggregate E) (ids : ℕ → ℕ) (log : EventLog E) (at : Timestamp) (n : ℕ)
      → log.version + 1 ≡ n + length log.pending
      → log.version + 1 < u64_mod
      → (envs : List (EventEnvelope E)) × (drain_envelopes a ids log at
          ≡ some (record log { pending = [] }, envs))
        × (map number envs ≡ numbered n log.pending)
  unfolding drain_envelopes take_events
  drained a ids log at n e fits =
      let begins : start_of log.version (length log.pending) ≡ some n = ground arith in
      let zero_on : n + 0 ≡ n = omega arith in
      (
        envelopes_from a ids n 0 at log.pending,
        rw (begins, drain_envelopes) refl,
        number-envelopes_from a ids n 0 at log.pending ∙ ap (λ m. numbered m log.pending) zero_on,
      )

  run_from :
      (a : Aggregate E) (log : EventLog E) (calls : List (Call E)) (n : ℕ)
      → log.version + 1 ≡ n + length log.pending
      → log.version + length (recorded calls) + 1 < u64_mod
      → (later : EventLog E) × (out : List (EventEnvelope E)) × (m : ℕ) × (run a log calls
          ≡ some (later, out))
        × (later.version + 1 ≡ m + length later.pending)
        × (map number out ++ numbered m later.pending ≡ numbered n (log.pending ++ recorded calls))
  unfolding run record_event
  run_from a log [] n e fits = (log, [], n, refl, e, ap (numbered n) (sym (append_nil log.pending)))
  run_from a log (records x ∷ calls) n e fits =
      let counted : (log.version + 1) % u64_mod ≡ log.version + 1 = mod-eq_of_lt (omega arith) in
      let sizes = length-append log.pending (x ∷ []) in
      let here : (record_event log x).version + 1 ≡ n + length (record_event log x).pending =
        omega (arith, counted, sizes, e) in
      let room : (record_event log x).version + length (recorded calls) + 1 < u64_mod =
        omega (arith, counted, fits) in
      let (later, out, m, r, f, numbers) = run_from a (record_event log x) calls n here room in
      (later, out, m, r, f, numbers ∙ ap (numbered n) (push_on log.pending x (recorded calls)))
  run_from a log (drains ids at ∷ calls) n e fits =
      let (envs, d, first) = drained a ids log at n e (omega arith) in
      let (later, out, m, r, f, numbers) =
        run_from a (record log { pending = [] }) calls (n + length log.pending) (omega (arith, e))
          (omega (arith, fits)) in
      (
        later,
        envs ++ out,
        m,
        rw (d, run) (rw r refl),
        f,
        ap (λ l. l ++ numbered m later.pending) (map-append envs out)
            ∙ assoc_pairs (map number envs) (map number out) (numbered m later.pending)
            ∙ ap (λ l. map number envs ++ l) numbers
            ∙ ap (λ l. l ++ numbered (n + length log.pending) (recorded calls)) first
            ∙ sym (numbered-append n log.pending (recorded calls)),
      )

  -- From a log loaded at a version, over any history of recorded and drained events below 2^64, no
  -- draining overflows, and the drained events followed by the pending ones are all recorded events
  -- in order, numbered without gap from the version on.
  pub events_numbered :
      (a : Aggregate E) (version : ℕ) (calls : List (Call E))
      → version + length (recorded calls) + 1 < u64_mod
      → (later : EventLog E) × (out : List (EventEnvelope E)) × (m : ℕ) × (run a
            (with_version version)
            calls
          ≡ some (later, out))
        × (later.version + 1 ≡ m + length later.pending)
        × (map number out ++ numbered m later.pending ≡ numbered (version + 1) (recorded calls))
  unfolding with_version
  events_numbered a version calls fits =
      run_from a (record { pending = []; version = version }) calls (version + 1) (omega arith) fits
