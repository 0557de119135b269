-- ===== src/Examples/Clock.antt =====
-- A concrete time crate, whose latest instant is `last`, and a byte comparison.
use rust_libraries.Prelude.{
  ℕ, suc, ◌+◌, ◌-◌, ◌/◌, Option, none, some, ◌≡◌, refl, arith, leb, if◌then◌else◌,
}
use rust_libraries.Prelude.Int.{ℤ, pos, negsuc, pos_part, neg_part, sub_ℕ}
use rust_libraries.Time.{Timestamp, Duration, TimeApi}
use rust_libraries.Security.Compare.{SubtleApi}
use rust_libraries.Security.Authz.Permission.{text_eq, text_eq_iff}

abbrev last : ℕ
last = 1000000000000000000000

abbrev add : Timestamp → Duration → Option Timestamp
add a (pos n) = if leb (a + n) last then some (a + n) else none
add a (negsuc n) = if leb (suc n) a then some (a - suc n) else none

pub add_parts :
    (a : Timestamp) (d : Duration) (t : Timestamp)
    → add a d ≡ some t
    → t + neg_part d ≡ a + pos_part d
add_parts a (pos n) t e = ground arith
add_parts a (negsuc n) t e = ground arith

abbrev diff : Duration → Duration → Duration
diff d e = sub_ℕ (pos_part d + neg_part e) (neg_part d + pos_part e)

pub sub_ℕ_parts : (a b : ℕ) → b + pos_part (sub_ℕ a b) ≡ a + neg_part (sub_ℕ a b)
sub_ℕ_parts a b = ground arith

pub diff_lem :
    (d e : Duration)
    → pos_part (diff d e) + neg_part d + pos_part e ≡ neg_part (diff d e) + pos_part d + neg_part e
diff_lem d e = ground arith

abbrev whole_millis : Duration → ℤ
whole_millis (pos n) = pos (n / 1000000)
whole_millis (negsuc n) = sub_ℕ 0 (suc n / 1000000)

instance abbrev pub utc : TimeApi
utc = record {
  sub = sub_ℕ;
  add = add;
  sub_parts = sub_ℕ_parts;
  add_parts = add_parts;
  diff = diff;
  diff_parts = diff_lem;
  whole_millis = whole_millis;
  whole_millis_pos = λ n. refl;
}

instance abbrev pub plain_bytes : SubtleApi
plain_bytes = record { ct_eq = text_eq; ct_eq_iff = λ a b h. text_eq_iff a b }
