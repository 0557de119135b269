-- ===== src/Examples/Web.antt =====
-- The circuit breaker, the retry policy and the origin cache at concrete inputs.
use rust_libraries.Prelude.{
  ℕ, ◌+◌, ◌*◌, ◌^◌, String, Bool, some, List, [], ◌∷◌, Result, ok, err, ◌≡◌, arith, All, leb, eqb,
  min, max, if◌then◌else◌,
}
use rust_libraries.Time.{Timestamp}
use rust_libraries.Web.Resilience.Breaker as Breaker
use rust_libraries.Web.Resilience.Breaker.Refines as Refines
use rust_libraries.Web.Resilience.Retry as Retry
use rust_libraries.Web.Resilience.Retry.Attempts as Attempts
use rust_libraries.Web.Cors as Cors
use rust_libraries.Web.Cors.Freshness as Freshness
use rust_libraries.Examples.Clock.{utc}

-- Two failures, a refused call, a trial that succeeds and a call after it.
abbrev calls : List (Timestamp × Result ℕ String × Timestamp)
calls =
    (1, err 7, 2)
    ∷ (3, err 8, 4)
    ∷ (5, ok "late", 6)
    ∷ (40, ok "back", 41)
    ∷ (42, ok "fine", 43)
    ∷ []

new-call_all_example :
    Refines.call_all (Breaker.new 2 30) calls ≡ some (Refines.spec_all (max 2 1) 30 [] calls)
new-call_all_example = Refines.new-call_all 2 30 calls (omega arith)

-- A stand-in for f64 that counts in nanoseconds.
instance abbrev whole : Retry.FloatApi ℕ
whole = record {
  two = 2;
  times = λ a b. a * b;
  powi = λ a n. a ^ n;
  least = λ a b. min a b;
  as_secs_f64 = λ n. n;
  try_from_secs_f64 = λ n. some n;
}

abbrev policy : Retry.RetryPolicy ℕ
policy = Retry.new

-- An operation that succeeds at its third run.
abbrev third_time : ℕ → ℕ × Result ℕ String
third_time n = if eqb n 2 then (n + 1, ok "done") else (n + 1, err n)

retry-Settles_example :
    (n : ℕ) × (out : ℕ × List ℕ × Result ℕ String) × (Retry.retry third_time
        (max policy.max_attempts 1)
        policy
        0
      ≡ some out)
    × Attempts.Settles third_time policy 1 0 [] n out
retry-Settles_example = Attempts.retry-Settles third_time policy 0

-- The inner registry allows every origin from the instant 10 on.
abbrev from_ten : ℕ → String → Bool
from_ten t origin = leb 10 t

abbrev lookups : List Freshness.Call
lookups = Freshness.looks "a" 1 1 2 ∷ Freshness.drops "b" ∷ Freshness.looks "a" 3 3 4 ∷ []

lookups-InOrder : All Freshness.InOrder lookups
lookups-InOrder = (omega arith, (tt, (omega arith, tt)))

cached_is_allowed-Recent_example :
    Freshness.Recent from_ten lookups "a" 30 12 12
      (Cors.cached_is_allowed
        (Freshness.perform_all from_ten (Cors.with_ttl 30) lookups)
        "a"
        12
        (from_ten 12 "a")
        13).1
cached_is_allowed-Recent_example =
    Freshness.cached_is_allowed-Recent from_ten 30 lookups "a" 12 12 13 lookups-InOrder
