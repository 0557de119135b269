-- ===== src/Platform/Metering.antt =====
-- klauthed-platform/src/metering/memory.rs: usage counters per tenant and metric. An addition that
-- does not fit a `u64` panics in a build with overflow checks: `none` is that panic.
pub mod Totals
use rust_libraries.Prelude.{
  ℕ, ◌+◌, String, Option, none, some, List, [], ◌∷◌, ◌≡◌, refl, Bool, true, ◌&&◌, ◌↔◌, arith, ltb,
  ap, if◌then◌else◌, ◌==◌, string_eq, Eq, eq_of_==, ==_refl, ◌∙◌, subst, false,
}
use rust_libraries.Prelude.Map.{Map, get, insert, remove}

abbrev pub u64_mod : ℕ
u64_mod = 18446744073709551616

-- A tenant's id and the name of a metric.
abbrev pub Key : Type 0
Key = String × String

abbrev pub key_beq : Key → Key → Bool
key_beq (a, m) (b, n) = a == b && m == n

key_beq_sound : (j k : Key) → key_beq j k ≡ true → j ≡ k
key_beq_sound (a, m) (b, n) h =
    ap (λ x. (x, m)) (eq_of_== a b (ground arith)) ∙ ap (λ y. (b, y)) (eq_of_== m n (ground arith))

key_beq_refl : (k : Key) → key_beq k k ≡ true
key_beq_refl (a, m) = rw (==_refl a, ==_refl m) refl

pub key_beq_iff : (j k : Key) → (key_beq j k ≡ true) ↔ (j ≡ k)
key_beq_iff j k = (key_beq_sound j k, λ e. subst (λ x. key_beq j x ≡ true) e (key_beq_refl j))

instance abbrev pub key_eq : Eq Key
key_eq = record { beq = key_beq; beq_iff = key_beq_iff }

abbrev pub Meter : Type 0
Meter = Map Key ℕ

unfoldable pub new : Meter
new = []

abbrev pub or_zero : Option ℕ → ℕ
or_zero none = 0
or_zero (some n) = n

unfoldable pub record_usage : Meter → Key → ℕ → Option Meter
record_usage meter key amount =
    let total = or_zero (get key meter) + amount in
    if ltb total u64_mod then some (insert key total meter) else none

unfoldable pub usage : Meter → Key → ℕ
usage meter key = or_zero (get key meter)

unfoldable pub reset : Meter → Key → Meter
reset meter key = remove key meter
