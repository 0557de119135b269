-- ===== src/Examples/Schedule.antt =====
-- A cron schedule on a concrete calendar.
use native.Mathlib.Nat.{div-mul-le_self}
use rust_libraries.Prelude.Text.{split_whitespace, trim}
use rust_libraries.Platform.Cron.Parse
use rust_libraries.Prelude.{
  ℕ, ◌+◌, ◌*◌, ◌/◌, ◌%◌, ◌≤◌, ◌<◌, ◌≡◌, refl, true, false, Option, none, some, arith, ok, err,
}
use rust_libraries.Time.{Timestamp}
use rust_libraries.Platform.Cron.{
  test_bit, set_bit, fill, Field, contains_value, Cron, CalendarApi, day_matches, matches,
  search_from, next_after, max_minutes,
}
use rust_libraries.Platform.Cron.Search.{Answers, next_after_least}
use rust_libraries.Examples.Clock.{utc}

abbrev minute_nanos : ℕ
minute_nanos = 60000000000

abbrev whole : Timestamp → Option Timestamp
whole t = some (t / minute_nanos * minute_nanos)

pub whole_lem : (t m : Timestamp) → whole t ≡ some m → (m ≤ t) × (t < m + minute_nanos)
whole_lem t m e =
    let same : t / minute_nanos * minute_nanos ≡ m = ground arith in
    (omega (arith, div-mul-le_self t minute_nanos), omega arith)

-- Months of 28 days.
instance abbrev calendar : CalendarApi
calendar = record {
  minute = λ t. t / minute_nanos % 60;
  hour = λ t. t / 3600000000000 % 24;
  day = λ t. t / 86400000000000 % 28 + 1;
  month = λ t. t / 2419200000000000 % 12 + 1;
  days_from_sunday = λ t. t / 86400000000000 % 7;
  whole_minute = whole;
  whole_minute_lem = whole_lem;
}

abbrev star_to : ℕ → Field
star_to mask = record { mask = mask; is_star = true }

-- `*/15 * * * *`.
abbrev quarters : Cron
quarters = record {
  minute = record { mask = 35185445863425; is_star = false };
  hour = star_to 16777215;
  dom = star_to 4294967294;
  month = star_to 8190;
  dow = star_to 127;
}

fifteen : next_after quarters 61000000000 ≡ some (some 900000000000)
unfolding next_after search_from matches day_matches contains_value test_bit
fifteen = refl

next_after_least_example :
    (61000000000 < 120000000000) × Answers quarters max_minutes 120000000000 (some 900000000000)
next_after_least_example =
    next_after_least quarters 61000000000 60000000000 120000000000 (some 900000000000) refl refl
      fifteen

quarters_parsed : Parse.parse_fields "*/15 * * * *" ≡ some (ok quarters)
unfolding Parse.parse_fields Parse.parse_field Parse.parse_terms Parse.parse_term Parse.parse_step
    Parse.parse_range Parse.parse_num Parse.parse_u8 Parse.read_digits Parse.split Parse.split_once
    split_whitespace trim fill set_bit
quarters_parsed = refl

four_fields : Parse.parse_fields "* * * *" ≡ some (err (Parse.five_fields 4))
unfolding Parse.parse_fields Parse.parse_field Parse.parse_terms Parse.parse_term Parse.parse_step
    Parse.parse_range Parse.parse_num Parse.parse_u8 Parse.read_digits Parse.split Parse.split_once
    split_whitespace trim fill set_bit
four_fields = refl

-- The step is added to a `u8`.
long_step : Parse.parse_fields "59/255 * * * *" ≡ none
unfolding Parse.parse_fields Parse.parse_field Parse.parse_terms Parse.parse_term Parse.parse_step
    Parse.parse_range Parse.parse_num Parse.parse_u8 Parse.read_digits Parse.split Parse.split_once
    split_whitespace trim fill set_bit
long_step = refl
