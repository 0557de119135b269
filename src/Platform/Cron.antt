-- ===== src/Platform/Cron.antt =====
-- klauthed-platform/src/cron.rs: the fields of a schedule, its matching, and the search for the next
-- occurrence. What an instant reads on the calendar of the schedule's zone, and the truncation to
-- the minute, belong to the `time` crate and are parameters.
pub mod Bits
pub mod Parse
pub mod Search
use rust_libraries.Prelude.{
  ℕ, zero, suc, ◌+◌, ◌*◌, ◌/◌, ◌%◌, ◌≤◌, ◌<◌, ◌≡◌, Bool, true, false, ◌&&◌, ◌||◌, Option, none,
  some, ltb, eqb, if◌then◌else◌,
}
use rust_libraries.Prelude.Int.{pos}
use rust_libraries.Time.{Timestamp, TimeApi, checked_add}

-- `(mask & (1 << v)) != 0`, digit by digit.
unfoldable pub test_bit : ℕ → ℕ → Bool
test_bit mask zero = eqb (mask % 2) 1
test_bit mask (suc v) = test_bit (mask / 2) v

-- `mask | (1 << v)`, digit by digit.
unfoldable pub set_bit : ℕ → ℕ → ℕ
set_bit mask zero = mask / 2 * 2 + 1
set_bit mask (suc v) = set_bit (mask / 2) v * 2 + mask % 2

-- `if wrap { v % 7 } else { v }`.
abbrev pub bit_of : Bool → ℕ → ℕ
bit_of wrap v = if wrap then v % 7 else v

-- The loop `while v <= hi` of `parse_field`, on fuel. `none` is also the overflow of `v += step`,
-- which is a `u8`.
unfoldable pub fill : ℕ → Bool → ℕ → ℕ → ℕ → ℕ → Option ℕ
unfolding set_bit
fill zero wrap step hi v mask = none
fill (suc fuel) wrap step hi v mask =
    let rest = fill fuel wrap step hi (v + step) (set_bit mask (bit_of wrap v)) in
    if ltb hi v then some mask else if ltb 255 (v + step) then none else rest

-- A pass of the loop takes `v` up by at least one, so this fuel is enough for a `u8`.
abbrev pub fill_fuel : ℕ
fill_fuel = 257

pub record Field : Type 0 where
  pub mask : ℕ
  pub is_star : Bool

unfoldable pub contains_value : Field → ℕ → Bool
contains_value f value = if ltb value 64 then test_bit f.mask value else false

pub record Cron : Type 0 where
  pub minute : Field
  pub hour : Field
  pub dom : Field
  pub month : Field
  pub dow : Field

-- An instant on the calendar of the zone, and `replace_second(0).ok()?.replace_nanosecond(0).ok()`.
pub record CalendarApi : Type 0 where
  pub minute : Timestamp → ℕ
  pub hour : Timestamp → ℕ
  pub day : Timestamp → ℕ
  pub month : Timestamp → ℕ
  pub days_from_sunday : Timestamp → ℕ
  pub whole_minute : Timestamp → Option Timestamp
  pub whole_minute_lem :
      (t m : Timestamp) → whole_minute t ≡ some m → (m ≤ t) × (t < m + 60000000000)

abbrev day_rule : Bool → Bool → Bool → Bool → Bool
day_rule true true dom_ok dow_ok = true
day_rule false true dom_ok dow_ok = dom_ok
day_rule true false dom_ok dow_ok = dow_ok
day_rule false false dom_ok dow_ok = dom_ok || dow_ok

-- `5 * 366 * 24 * 60`.
abbrev pub max_minutes : ℕ
max_minutes = 2635200

module _ ⦃time : TimeApi⦄ ⦃calendar : CalendarApi⦄ where
  unfoldable pub day_matches : Cron → Timestamp → Bool
  day_matches c t =
      day_rule c.dom.is_star c.dow.is_star (contains_value c.dom (calendar.day t))
        (contains_value c.dow (calendar.days_from_sunday t))

  unfoldable pub matches : Cron → Timestamp → Bool
  unfolding day_matches
  matches c t =
      contains_value c.minute (calendar.minute t)
      && contains_value c.hour (calendar.hour t)
      && contains_value c.month (calendar.month t)
      && day_matches c t

  -- `t + Duration::minutes(1)`; `none` is its panic.
  abbrev pub next_minute : Timestamp → Option Timestamp
  next_minute t = checked_add t (pos 60000000000)

  -- The loop over the minutes.
  unfoldable pub search_from : Cron → ℕ → Timestamp → Option (Option Timestamp)
  search_from c zero t = some none
  search_from c (suc n) t = elim (matches c t) [
    | true ↦ some (some t)
    | false ↦ elim (next_minute t) [ none ↦ none | some u ↦ search_from c n u ]
  ]

  -- The outer `none` is a panic, the inner one the answer.
  unfoldable pub next_after : Cron → Timestamp → Option (Option Timestamp)
  unfolding search_from
  next_after c after = elim (calendar.whole_minute after) [
    | none ↦ some none
    | some m ↦ elim (next_minute m) [ none ↦ none | some t ↦ search_from c max_minutes t ]
  ]
