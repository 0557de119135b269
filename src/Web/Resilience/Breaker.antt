-- ===== src/Web/Resilience/Breaker.antt =====
-- klauthed-web/src/resilience/circuit_breaker.rs: `CircuitBreaker`. Its u32 counter panics where it
-- overflows, for which the answer is none. The clock's readings are arguments, and an operation is
-- the result that it gives.
pub mod Spec
pub mod Refines
use rust_libraries.Prelude.{
  ℕ, suc, ◌+◌, ◌^◌, Bool, true, false, Option, none, some, Result, ok, err, leb, ltb, max,
  if◌then◌else◌,
}
use rust_libraries.Prelude.Int.{pos_part}
use rust_libraries.Time.{Timestamp, TimeApi, duration_since}

pub data CircuitError (E : Type 0) : Type 0 where
  open_circuit : CircuitError E
  inner : E → CircuitError E

pub data State : Type 0 where
  closed : ℕ → State
  opened : Timestamp → State
  half_open : State

-- The cooldown is a `std::time::Duration`, in nanoseconds.
pub record CircuitBreaker : Type 0 where
  pub failure_threshold : ℕ
  pub cooldown : ℕ
  pub state : State

unfoldable pub new : ℕ → ℕ → CircuitBreaker
new failure_threshold cooldown = record {
  failure_threshold = max failure_threshold 1;
  cooldown = cooldown;
  state = closed 0;
}

-- Whether the cooldown is over decides on a call in the open state.
abbrev pub allow_after : CircuitBreaker → Bool → CircuitBreaker × Bool
allow_after b true = (record b { state = half_open }, true)
allow_after b false = (b, false)

module _ ⦃time : TimeApi⦄ where
  -- `std::time::Duration::try_from(now.duration_since(opened_at)).unwrap_or_default()`.
  abbrev pub elapsed : Timestamp → Timestamp → ℕ
  elapsed now opened_at = pos_part (duration_since now opened_at)

  abbrev allow_in : CircuitBreaker → Timestamp → State → CircuitBreaker × Bool
  allow_in b now (closed failures) = (b, true)
  allow_in b now half_open = (b, true)
  allow_in b now (opened opened_at) = allow_after b (leb b.cooldown (elapsed now opened_at))

  unfoldable pub allow : CircuitBreaker → Timestamp → CircuitBreaker × Bool
  allow b now = allow_in b now b.state

  abbrev is_open_in : CircuitBreaker → Timestamp → State → Bool
  is_open_in b now (closed failures) = false
  is_open_in b now half_open = false
  is_open_in b now (opened opened_at) = ltb (elapsed now opened_at) b.cooldown

  unfoldable pub is_open : CircuitBreaker → Timestamp → Bool
  is_open b now = is_open_in b now b.state

unfoldable pub record_success : CircuitBreaker → CircuitBreaker
record_success b = record b { state = closed 0 }

-- `failures + 1` in u32.
abbrev pub next_failures : ℕ → Option ℕ
next_failures failures = if ltb (failures + 1) (2 ^ 32) then some (failures + 1) else none

abbrev count_failure : CircuitBreaker → Timestamp → Option ℕ → Option CircuitBreaker
count_failure b now none = none
count_failure b now (some failures) =
    if leb b.failure_threshold failures
    then some (record b { state = opened now })
    else some (record b { state = closed failures })

abbrev failure_in : CircuitBreaker → Timestamp → State → Option CircuitBreaker
failure_in b now (closed failures) = count_failure b now (next_failures failures)
failure_in b now half_open = some (record b { state = opened now })
failure_in b now (opened opened_at) = some (record b { state = opened now })

unfoldable pub record_failure : CircuitBreaker → Timestamp → Option CircuitBreaker
record_failure b now = failure_in b now b.state

abbrev pub failed :
    {T E : Type 0} → E → Option CircuitBreaker → Option (CircuitBreaker × Result (CircuitError E) T)
failed error none = none
failed error (some c) = some (c, err (inner error))

abbrev pub settle :
    {T E : Type 0}
    → CircuitBreaker
    → Timestamp
    → Result E T
    → Option (CircuitBreaker × Result (CircuitError E) T)
settle b later (ok value) = some (record_success b, ok value)
settle b later (err error) = failed error (record_failure b later)

abbrev pub run_allowed :
    {T E : Type 0}
    → CircuitBreaker × Bool
    → Timestamp
    → Result E T
    → Option (CircuitBreaker × Result (CircuitError E) T)
run_allowed (b, true) later op = settle b later op
run_allowed (b, false) later op = some (b, err open_circuit)

-- `call`: the clock is read at the start and, after a failure, at the end.
unfoldable pub call :
    {T E : Type 0} ⦃time : TimeApi⦄
    → CircuitBreaker
    → Timestamp
    → Result E T
    → Timestamp
    → Option (CircuitBreaker × Result (CircuitError E) T)
call b now op later = run_allowed (allow b now) later op
