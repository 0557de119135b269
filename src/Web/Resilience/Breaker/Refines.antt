-- ===== src/Web/Resilience/Breaker/Refines.antt =====
-- A circuit breaker keeps its promise over every sequence of calls.
use rust_libraries.Prelude.{
  ℕ, suc, ◌+◌, ◌^◌, ◌<◌, ◌≤◌, Bool, true, false, Option, none, some, List, [], ◌∷◌, Result, ok, err,
  ◌≡◌, refl, ap, ◌∙◌, arith, leb, ltb, max, if◌then◌else◌, ◌&&◌, subst, sym, not, Bool-cases, inl,
  inr,
}
use rust_libraries.Time.{Timestamp, TimeApi}
use rust_libraries.Web.Resilience.Breaker.{
  CircuitError, State, closed, opened, half_open, CircuitBreaker, new, elapsed, allow,
  record_success, record_failure, call, failed, run_allowed, allow_after, open_circuit, inner,
}
use rust_libraries.Web.Resilience.Breaker.Spec.{
  Outcome, success, failure, streak, resting, logged, told, spec_call,
}

-- A breaker in this state stands for the log.
abbrev pub StandsFor : ℕ → State → List Outcome → Type 0
StandsFor threshold (closed failures) log = (failures ≡ streak log) × (failures < threshold)
StandsFor threshold half_open log = ⊥
StandsFor threshold (opened at) [] = ⊥
StandsFor threshold (opened at) (success ∷ log) = ⊥
StandsFor threshold (opened at) (failure last ∷ log) = (at ≡ last) × (threshold ≤ suc (streak log))

-- The threshold is a u32 and at least one.
abbrev pub IsValid : CircuitBreaker → Type 0
IsValid b = (1 ≤ b.failure_threshold) × (b.failure_threshold < 2 ^ 32)

abbrev breaker : ℕ → ℕ → State → CircuitBreaker
breaker threshold cooldown state = record {
  failure_threshold = threshold;
  cooldown = cooldown;
  state = state;
}

not_resting :
    ⦃time : TimeApi⦄ (threshold cooldown : ℕ) (now : Timestamp) (log : List Outcome)
    → streak log < threshold
    → resting threshold cooldown now log ≡ false
not_resting threshold cooldown now [] h = refl
not_resting threshold cooldown now (success ∷ log) h = refl
not_resting threshold cooldown now (failure at ∷ log) h = ground arith

cooled :
    (failures threshold cooldown passed : ℕ)
    → threshold ≤ suc failures
    → (leb threshold (suc failures) && ltb passed cooldown) ≡ not (leb cooldown passed)
cooled failures threshold cooldown passed many = ground arith

-- The state after a failure in the closed state.
abbrev counted : ℕ → ℕ → Timestamp → State
counted threshold failures later =
    if leb threshold (failures + 1) then opened later else closed (failures + 1)

record_failure-counted :
    (threshold cooldown failures : ℕ) (later : Timestamp)
    → threshold < 2 ^ 32
    → failures < threshold
    → record_failure (breaker threshold cooldown (closed failures)) later
      ≡ some (breaker threshold cooldown (counted threshold failures later))
unfolding record_failure
record_failure-counted threshold cooldown failures later fits below = ground arith

counted-StandsFor :
    (threshold failures : ℕ) (later : Timestamp) (log : List Outcome)
    → failures ≡ streak log
    → StandsFor threshold (counted threshold failures later) (failure later ∷ log)
counted-StandsFor threshold failures later log same =
    elim (Bool-cases (leb threshold (failures + 1))) [
      | inl h ↦
          subst
            (λ x.
              StandsFor threshold (if x then opened later else closed (failures + 1))
                (failure later ∷ log))
            (sym h) (refl, ground arith)
      | inr h ↦
          subst
            (λ x.
              StandsFor threshold (if x then opened later else closed (failures + 1))
                (failure later ∷ log))
            (sym h) (ground arith, ground arith)
    ]

breaker_eq :
    (threshold cooldown : ℕ) (c : CircuitBreaker)
    → c.failure_threshold ≡ threshold
    → c.cooldown ≡ cooldown
    → c ≡ breaker threshold cooldown c.state
breaker_eq threshold cooldown c t d = ground arith

module _ {T E : Type 0} ⦃time : TimeApi⦄ where
  -- What a call came to is what the specification says, and the breaker stands for the new log.
  abbrev pub Agrees :
      ℕ
      → ℕ
      → Option (CircuitBreaker × Result (CircuitError E) T)
      → List Outcome × Result (CircuitError E) T
      → Type 0
  Agrees threshold cooldown none spec = ⊥
  Agrees threshold cooldown (some (c, r)) spec =
      (r ≡ spec.1)
      × (c.failure_threshold ≡ threshold)
      × (c.cooldown ≡ cooldown)
      × StandsFor threshold c.state spec.0

  -- A call in the open state, by whether the cooldown is over.
  opened-Agrees :
      (threshold cooldown : ℕ) (last : Timestamp) (log : List Outcome) (op : Result E T)
      (later : Timestamp) (over resting : Bool)
      → 1 ≤ threshold
      → threshold ≤ suc (streak log)
      → resting ≡ not over
      → Agrees threshold cooldown
          (run_allowed (allow_after (breaker threshold cooldown (opened last)) over) later op)
          (if resting then (failure last ∷ log, err open_circuit) else (
            logged threshold cooldown later op (failure last ∷ log),
            told threshold cooldown op,
          ))
  unfolding record_success record_failure
  opened-Agrees threshold cooldown last log op later true true positive many e = ground arith
  opened-Agrees threshold cooldown last log (ok value) later true false positive many e =
      (refl, refl, refl, (refl, positive))
  opened-Agrees threshold cooldown last log (err error) later true false positive many e =
      (refl, refl, refl, (refl, omega arith))
  opened-Agrees threshold cooldown last log op later false true positive many e =
      (refl, refl, refl, (refl, many))
  opened-Agrees threshold cooldown last log op later false false positive many e = ground arith

  call-Agrees :
      (threshold cooldown : ℕ) (state : State) (log : List Outcome) (now : Timestamp)
      (op : Result E T) (later : Timestamp)
      → IsValid (breaker threshold cooldown state)
      → StandsFor threshold state log
      → Agrees threshold cooldown
          (call (breaker threshold cooldown state) now op later)
          (spec_call threshold cooldown log now op later)
  unfolding call allow record_success record_failure spec_call
  call-Agrees threshold cooldown (closed failures) log now (ok value) later v (same, below) =
      rw (not_resting threshold cooldown now log (omega arith))
        (refl, refl, refl, (refl, omega arith))
  call-Agrees threshold cooldown (closed failures) log now (err error) later v (same, below) =
      rw (not_resting threshold cooldown now log (omega arith)) (
        subst
          (λ r. Agrees threshold cooldown (failed error r) (failure later ∷ log, err (inner error)))
          (sym (record_failure-counted threshold cooldown failures later v.1 below))
          (refl, refl, refl, counted-StandsFor threshold failures later log same))
  call-Agrees threshold cooldown half_open log now op later v stands = absurd stands
  call-Agrees threshold cooldown (opened at) [] now op later v stands = absurd stands
  call-Agrees threshold cooldown (opened at) (success ∷ log) now op later v stands = absurd stands
  call-Agrees threshold cooldown (opened at) (failure last ∷ log) now op later v (same, many) =
      subst
        (λ a.
          Agrees threshold cooldown (call (breaker threshold cooldown (opened a)) now op later)
            (spec_call threshold cooldown (failure last ∷ log) now op later))
        (sym same)
        (opened-Agrees threshold cooldown last log op later (leb cooldown (elapsed now last))
          (resting threshold cooldown now (failure last ∷ log)) v.0 many
          (cooled (streak log) threshold cooldown (elapsed now last) many))

  abbrev answers_of :
      Result (CircuitError E) T
      → Option (List (Result (CircuitError E) T))
      → Option (List (Result (CircuitError E) T))
  answers_of r none = none
  answers_of r (some rs) = some (r ∷ rs)

  -- The answers of a sequence of calls, each with its start, its operation's result and its end.
  unfoldable pub call_all :
      CircuitBreaker
      → List (Timestamp × Result E T × Timestamp)
      → Option (List (Result (CircuitError E) T))
  call_all b [] = some []
  call_all b ((now, op, later) ∷ rest) = elim (call b now op later) [
    | none ↦ none
    | some (c, r) ↦ answers_of r (call_all c rest)
  ]

  unfoldable pub spec_all :
      ℕ
      → ℕ
      → List Outcome
      → List (Timestamp × Result E T × Timestamp)
      → List (Result (CircuitError E) T)
  spec_all threshold cooldown log [] = []
  spec_all threshold cooldown log ((now, op, later) ∷ rest) =
      (spec_call threshold cooldown log now op later).1
      ∷ spec_all threshold cooldown (spec_call threshold cooldown log now op later).0 rest

  after_call :
      (threshold cooldown : ℕ) (o : Option (CircuitBreaker × Result (CircuitError E) T))
      (spec : List Outcome × Result (CircuitError E) T)
      (rest : List (Timestamp × Result E T × Timestamp))
      → ((state : State)
          → StandsFor threshold state spec.0
          → call_all (breaker threshold cooldown state) rest
            ≡ some (spec_all threshold cooldown spec.0 rest))
      → Agrees threshold cooldown o spec
      → elim o [ none ↦ none | some (c, r) ↦ answers_of r (call_all c rest) ]
        ≡ some (spec.1 ∷ spec_all threshold cooldown spec.0 rest)
  after_call threshold cooldown none spec rest below agrees = absurd agrees
  after_call threshold cooldown (some (c, r)) spec rest below (same, t, d, stands) =
      ap (answers_of r)
        (ap (λ x. call_all x rest) (breaker_eq threshold cooldown c t d) ∙ below c.state stands)
      ∙ rw same refl

  call_all-StandsFor :
      (threshold cooldown : ℕ) (state : State) (log : List Outcome)
      (calls : List (Timestamp × Result E T × Timestamp))
      → IsValid (breaker threshold cooldown state)
      → StandsFor threshold state log
      → call_all (breaker threshold cooldown state) calls
        ≡ some (spec_all threshold cooldown log calls)
  unfolding call_all spec_all
  call_all-StandsFor threshold cooldown state log [] v stands = refl
  call_all-StandsFor threshold cooldown state log ((now, op, later) ∷ rest) v stands =
      after_call threshold cooldown (call (breaker threshold cooldown state) now op later)
        (spec_call threshold cooldown log now op later) rest
        (λ c.
          call_all-StandsFor threshold cooldown c (spec_call threshold cooldown log now op later).0
            rest v)
        (call-Agrees threshold cooldown state log now op later v stands)

  -- Over every sequence of calls, one after the other, a new breaker answers as its specification
  -- does: it refuses exactly while the failures since the last success are as many as the threshold,
  -- at least one, and the last of them is less than the cooldown ago. Its counter never overflows.
  pub new-call_all :
      (threshold cooldown : ℕ) (calls : List (Timestamp × Result E T × Timestamp))
      → threshold < 2 ^ 32
      → call_all (new threshold cooldown) calls
        ≡ some (spec_all (max threshold 1) cooldown [] calls)
  unfolding new
  new-call_all threshold cooldown calls fits =
      call_all-StandsFor (max threshold 1) cooldown (closed 0) [] calls (omega arith, omega arith)
        (refl, omega arith)
