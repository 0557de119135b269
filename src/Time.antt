-- ===== src/Time.antt =====
-- klauthed-core/src/time: `Timestamp`, `Clock` and the test clock `FixedClock`.
use rust_libraries.Prelude.{ℕ, ◌+◌, ◌/◌, ◌≡◌, Option, some}
use rust_libraries.Prelude.Int.{ℤ, pos, pos_part, neg_part}

-- An instant: nanoseconds since the earliest instant that the `time` crate represents.
abbrev pub Timestamp : Type 0
Timestamp = ℕ

-- A signed span of nanoseconds.
abbrev pub Duration : Type 0
Duration = ℤ

-- What the code uses of the `time` crate: `a - b` and `checked_add` on `OffsetDateTime`, `d - e`
-- and `whole_milliseconds` on `Duration`.
pub record TimeApi : Type 0 where
  pub sub : Timestamp → Timestamp → Duration
  pub add : Timestamp → Duration → Option Timestamp
  pub sub_parts : (a b : Timestamp) → b + pos_part (sub a b) ≡ a + neg_part (sub a b)
  pub add_parts :
      (a : Timestamp) (d : Duration) (t : Timestamp)
      → add a d ≡ some t
      → t + neg_part d ≡ a + pos_part d
  pub diff : Duration → Duration → Duration
  pub diff_parts :
      (d e : Duration)
      → pos_part (diff d e) + neg_part d + pos_part e
        ≡ neg_part (diff d e) + pos_part d + neg_part e
  pub whole_millis : Duration → ℤ
  pub whole_millis_pos : (n : ℕ) → whole_millis (pos n) ≡ pos (n / 1000000)

module _ ⦃time : TimeApi⦄ where
  abbrev pub duration_since : Timestamp → Timestamp → Duration
  duration_since t earlier = time.sub t earlier

  abbrev pub checked_add : Timestamp → Duration → Option Timestamp
  checked_add t delta = time.add t delta
