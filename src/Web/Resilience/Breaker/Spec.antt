-- ===== src/Web/Resilience/Breaker/Spec.antt =====
-- What a circuit breaker promises, over the log of the outcomes of the calls that ran: it refuses a
-- call exactly if the last failures without a success are as many as the threshold and the last of
-- them is less than the cooldown ago.
use rust_libraries.Prelude.{
  ℕ, suc, Bool, false, List, [], ◌∷◌, Result, ok, err, leb, ltb, ◌&&◌, if◌then◌else◌,
}
use rust_libraries.Time.{Timestamp, TimeApi}
use rust_libraries.Web.Resilience.Breaker.{CircuitError, open_circuit, inner, elapsed}

-- The last outcome comes first; a failure carries its instant.
pub data Outcome : Type 0 where
  success : Outcome
  failure : Timestamp → Outcome

abbrev pub streak : List Outcome → ℕ
streak [] = 0
streak (success ∷ log) = 0
streak (failure at ∷ log) = suc (streak log)

module _ ⦃time : TimeApi⦄ (threshold cooldown : ℕ) where
  abbrev pub resting : Timestamp → List Outcome → Bool
  resting now [] = false
  resting now (success ∷ log) = false
  resting now (failure at ∷ log) =
      leb threshold (streak (failure at ∷ log)) && ltb (elapsed now at) cooldown

  module _ {T E : Type 0} where
    abbrev pub logged : Timestamp → Result E T → List Outcome → List Outcome
    logged later (ok value) log = success ∷ log
    logged later (err error) log = failure later ∷ log

    abbrev pub told : Result E T → Result (CircuitError E) T
    told (ok value) = ok value
    told (err error) = err (inner error)

    unfoldable pub spec_call :
        List Outcome → Timestamp → Result E T → Timestamp → List Outcome × Result (CircuitError E) T
    spec_call log now op later =
        if resting now log then (log, err open_circuit) else (logged later op log, told op)
