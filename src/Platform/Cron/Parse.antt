-- ===== src/Platform/Cron/Parse.antt =====
-- klauthed-platform/src/cron.rs: the parser of a schedule's five fields. A field is a list of
-- characters, and an error keeps what its message names.
use rust_libraries.Prelude.{
  ℕ, ◌+◌, ◌*◌, ◌-◌, ◌≤◌, ◌≡◌, String, Bool, true, false, ◌&&◌, ◌||◌, Option, none, some, List, [],
  ◌∷◌, Result, ok, err, ltb, leb, eqb, if◌then◌else◌, arith, map, length, ◌>>=◌,
}
use Prim.Native.Char.{Char, code}
use rust_libraries.Prelude.Text.{chars, trim, split_whitespace}
use rust_libraries.Platform.Cron.{Field, Cron, fill, fill_fuel}

pub data CronError : Type 0 where
  five_fields : ℕ → CronError
  invalid_step : List Char → CronError
  zero_step : CronError
  start_after_end : ℕ → ℕ → CronError
  not_a_number : List Char → CronError
  out_of_range : ℕ → ℕ → ℕ → CronError

-- The answer of a part of the parser; `none` is its panic.
abbrev pub Parsed : Type 0 → Type 0
Parsed A = Option (Result CronError A)

abbrev then_parse : {A B : Type 0} → Parsed A → (A → Parsed B) → Parsed B
then_parse none next = none
then_parse (some (err e)) next = some (err e)
then_parse (some (ok a)) next = next a

abbrev first_part : Char → List (List Char) → List (List Char)
first_part c [] = (c ∷ []) ∷ []
first_part c (s ∷ ss) = (c ∷ s) ∷ ss

-- `spec.split(',')`.
unfoldable pub split : ℕ → List Char → List (List Char)
split sep [] = [] ∷ []
split sep (c ∷ cs) =
    let rest = split sep cs in if eqb (code c) sep then [] ∷ rest else first_part c rest

abbrev in_front : Char → Option (List Char × List Char) → Option (List Char × List Char)
in_front c none = none
in_front c (some (before, after)) = some (c ∷ before, after)

unfoldable pub split_once : ℕ → List Char → Option (List Char × List Char)
split_once sep [] = none
split_once sep (c ∷ cs) =
    let rest = split_once sep cs in if eqb (code c) sep then some ([], cs) else in_front c rest

-- The digits of a `u8` after those whose value is given.
unfoldable pub read_digits : ℕ → List Char → Option ℕ
read_digits value [] = some value
read_digits value (c ∷ cs) =
    let next = value * 10 + (code c - b'0') in
    let rest = read_digits next cs in
    if leb b'0' (code c) && leb (code c) b'9' && leb next 255 then rest else none

-- `str::parse::<u8>()`: one sign `+` may stand in front of the digits.
unfoldable pub parse_u8 : List Char → Option ℕ
parse_u8 [] = none
parse_u8 (c ∷ []) = read_digits 0 (c ∷ [])
parse_u8 (c ∷ d ∷ cs) =
    if eqb (code c) b'+' then read_digits 0 (d ∷ cs) else read_digits 0 (c ∷ d ∷ cs)

abbrev in_range : List Char → ℕ → ℕ → Option ℕ → Result CronError ℕ
in_range s min max none = err (not_a_number s)
in_range s min max (some v) = if ltb v min || ltb max v then err (out_of_range v min max) else ok v

unfoldable pub parse_num : List Char → ℕ → ℕ → Result CronError ℕ
parse_num s min max = in_range s min max (parse_u8 (trim s))

abbrev is_star_text : List Char → Bool
is_star_text [] = false
is_star_text (c ∷ []) = eqb (code c) b'*'
is_star_text (c ∷ d ∷ cs) = false

abbrev checked_step : List Char → List Char → Option ℕ → Result CronError (List Char × ℕ)
checked_step range step_str none = err (invalid_step step_str)
checked_step range step_str (some step) = if eqb step 0 then err zero_step else ok (range, step)

abbrev step_of : List Char → Option (List Char × List Char) → Result CronError (List Char × ℕ)
step_of term none = ok (term, 1)
step_of term (some (range, step_str)) = checked_step range step_str (parse_u8 step_str)

-- The range of a term and its step.
unfoldable pub parse_step : List Char → Result CronError (List Char × ℕ)
parse_step term = step_of term (split_once b'/' term)

abbrev bounds_of : List Char → ℕ → ℕ → Option (List Char × List Char) → Result CronError (ℕ × ℕ)
bounds_of range min max none = do v ← parse_num range min max; ok (v, v)
bounds_of range min max (some (a, b)) = do
  lo ← parse_num a min max
  hi ← parse_num b min max
  ok (lo, hi)

unfoldable pub parse_range : List Char → ℕ → ℕ → Result CronError (ℕ × ℕ)
parse_range range min max =
    let named = bounds_of range min max (split_once b'-' range) in
    if is_star_text range then ok (min, max) else named

abbrev filled : Option ℕ → Parsed ℕ
filled none = none
filled (some mask) = some (ok mask)

-- One term, which adds its values to the mask.
unfoldable pub parse_term : ℕ → ℕ → Bool → ℕ → List Char → Parsed ℕ
parse_term min max wrap mask term = then_parse (some (parse_step term)) (λ (range, step).
    then_parse (some (parse_range range min max)) (λ (lo, hi).
      if ltb hi lo
      then some (err (start_after_end lo hi))
      else filled (fill fill_fuel wrap step hi lo mask)))

unfoldable pub parse_terms : ℕ → ℕ → Bool → ℕ → List (List Char) → Parsed ℕ
parse_terms min max wrap mask [] = some (ok mask)
parse_terms min max wrap mask (term ∷ rest) =
    then_parse (parse_term min max wrap mask term) (λ next. parse_terms min max wrap next rest)

unfoldable pub parse_field : List Char → ℕ → ℕ → Bool → Parsed Field
parse_field spec min max wrap =
    then_parse (parse_terms min max wrap 0 (split b',' spec))
      (λ mask. some (ok (record { mask = mask; is_star = is_star_text spec })))

abbrev five_parts : List (List Char) → Parsed Cron
five_parts (minute ∷ hour ∷ dom ∷ month ∷ dow ∷ []) =
    then_parse (parse_field minute 0 59 false) (λ minute.
      then_parse (parse_field hour 0 23 false) (λ hour.
        then_parse (parse_field dom 1 31 false) (λ dom.
          then_parse (parse_field month 1 12 false) (λ month.
            then_parse (parse_field dow 0 7 true) (λ dow. some (
              ok
                (record { minute = minute; hour = hour; dom = dom; month = month; dow = dow })))))))
five_parts parts = some (err (five_fields (length parts)))

-- The schedule's zone is left to the calendar.
unfoldable pub parse_fields : String → Parsed Cron
parse_fields expr = five_parts (map chars (split_whitespace expr))

in_range-bounds :
    (s : List Char) (min max v : ℕ) (o : Option ℕ)
    → in_range s min max o ≡ ok v
    → (min ≤ v) × (v ≤ max)
in_range-bounds s min max v none e = ground arith
in_range-bounds s min max v (some w) e = ground arith

-- A number that is read lies in the field's range.
pub parse_num-bounds :
    (s : List Char) (min max v : ℕ) → parse_num s min max ≡ ok v → (min ≤ v) × (v ≤ max)
unfolding parse_num
parse_num-bounds s min max v e = in_range-bounds s min max v (parse_u8 (trim s)) e
