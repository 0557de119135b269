-- ===== src/Data/RateLimit.antt =====
-- klauthed-data/src/rate_limit/memory.rs: the fixed-window `InMemoryRateLimiter`. A window is a
-- number of nanoseconds (`std::time::Duration`). The token bucket counts in `f64` and is left out.
pub mod Budget
use rust_libraries.Prelude.{
  ℕ, ◌+◌, ◌-◌, ◌*◌, ◌/◌, min, max, String, Bool, true, false, Option, none, some, List, [], leb,
  if◌then◌else◌, string_eq,
}
use rust_libraries.Prelude.Int.{ℤ, pos, pos_part, leb_ℤ}
use rust_libraries.Prelude.Map.{Map, get, insert}
use rust_libraries.Time.{Timestamp, Duration, TimeApi, duration_since}

pub record Window : Type 0 where
  pub started : Timestamp
  pub count : ℕ

pub data RateLimitOutcome : Type 0 where
  allowed : ℕ → RateLimitOutcome
  limited : ℕ → RateLimitOutcome

unfoldable pub is_allowed : RateLimitOutcome → Bool
is_allowed (allowed _) = true
is_allowed (limited _) = false

abbrev pub i64_max : ℕ
i64_max = 9223372036854775807

abbrev pub nanos_per_milli : ℕ
nanos_per_milli = 1000000

-- `Duration::milliseconds(window.as_millis().min(i64::MAX as u128) as i64)`.
abbrev pub window_core : ℕ → Duration
window_core window = pos (min (window / nanos_per_milli) i64_max * nanos_per_milli)

-- `entry(key).or_insert(Window { started: now, count: 0 })`.
abbrev pub or_insert : Timestamp → Option Window → Window
or_insert now none = record { started = now; count = 0 }
or_insert now (some w) = w

unfoldable pub new : Map String Window
new = []

module _ ⦃time : TimeApi⦄ where
  -- Reset the window if it has elapsed.
  unfoldable pub refresh : Timestamp → Duration → Window → Window
  refresh now span w =
      if leb_ℤ span (duration_since now w.started) then record { started = now; count = 0 } else w

  -- `remaining.whole_milliseconds().max(0) as u64`, in the nanoseconds of the outcome.
  unfoldable pub retry_after : Timestamp → Duration → Window → ℕ
  retry_after now span w =
      pos_part (time.whole_millis (time.diff span (duration_since now w.started))) * nanos_per_milli

  -- The window after one more request, and the answer.
  unfoldable pub admit : Timestamp → ℕ → Duration → Window → Window × RateLimitOutcome
  admit now limit span w =
      if leb limit w.count
      then (w, limited (retry_after now span w))
      else (record w { count = w.count + 1 }, allowed (limit - (w.count + 1)))

  unfoldable pub check :
      Map String Window → Timestamp → String → ℕ → ℕ → Map String Window × RateLimitOutcome
  unfolding refresh admit
  check s now key limit window =
      let span = window_core window in
      let (w, outcome) =
        admit now (max limit 1) span (refresh now span (or_insert now (get key s))) in
      (insert key w s, outcome)
