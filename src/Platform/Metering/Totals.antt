-- ===== src/Platform/Metering/Totals.antt =====
-- The usage is the sum of what was recorded since the last reset.
use rust_libraries.Prelude.{
  ℕ, ◌+◌, ◌<◌, ◌≤◌, Option, none, some, List, [], ◌∷◌, ◌≡◌, refl, ap, ◌∙◌, arith, lt→ltb,
  if◌then◌else◌, ◌==◌,
}
use rust_libraries.Prelude.Map.{get, insert, get-insert, get-remove}
use rust_libraries.Platform.Metering.{
  Key, key_eq, Meter, new, record_usage, usage, reset, or_zero, u64_mod,
}

pub data Call : Type 0 where
  records : Key → ℕ → Call
  resets : Key → Call

unfoldable pub perform : Meter → Call → Option Meter
perform meter (records key amount) = record_usage meter key amount
perform meter (resets key) = some (reset meter key)

unfoldable pub perform_all : Meter → List Call → Option Meter
perform_all meter [] = some meter
perform_all meter (c ∷ rest) = elim (perform meter c) [
  | none ↦ none
  | some next ↦ perform_all next rest
]

-- What one call makes of the usage of a key.
abbrev pub counts : Key → ℕ → Call → ℕ
counts key n (records k amount) = if k == key then n + amount else n
counts key n (resets k) = if k == key then 0 else n

-- The sum of what was recorded for a key since it was last reset.
abbrev pub counted : Key → ℕ → List Call → ℕ
counted key n [] = n
counted key n (c ∷ rest) = counted key (counts key n c) rest

-- All that is recorded, for any key.
abbrev pub amount_of : Call → ℕ
amount_of (records k amount) = amount
amount_of (resets k) = 0

abbrev pub recorded : List Call → ℕ
recorded [] = 0
recorded (c ∷ rest) = amount_of c + recorded rest

insert-usage :
    (meter : Meter) (k key : Key) (amount : ℕ)
    → usage (insert k (usage meter k + amount) meter) key
      ≡ counts key (usage meter key) (records k amount)
unfolding usage
insert-usage meter k key amount =
    ground (arith, key_eq.beq_iff k key, get-insert k key (usage meter k + amount) meter)

reset-usage :
    (meter : Meter) (k key : Key)
    → usage (reset meter k) key ≡ counts key (usage meter key) (resets k)
unfolding usage reset
reset-usage meter k key = ground (arith, key_eq.beq_iff k key, get-remove k key meter)

-- A call that fits does not panic, and counts.
Counts : Meter → Call → Type 0
Counts meter c =
    (next : Meter) × (perform meter c ≡ some next)
    × ((key : Key) → usage next key ≡ counts key (usage meter key) c)

perform-Counts :
    (meter : Meter) (c : Call) (bound : ℕ)
    → ((key : Key) → usage meter key ≤ bound)
    → bound + amount_of c < u64_mod
    → Counts meter c
unfolding Counts perform record_usage usage
perform-Counts meter (records k amount) bound below fits =
    let low = below k in
    (
      insert k (usage meter k + amount) meter,
      rw (lt→ltb (or_zero (get k meter) + amount) u64_mod (omega arith)) refl,
      λ key. insert-usage meter k key amount,
    )
perform-Counts meter (resets k) bound below fits =
    (reset meter k, refl, λ key. reset-usage meter k key)

counts-bound :
    (key : Key) (n bound : ℕ) (c : Call) → n ≤ bound → counts key n c ≤ bound + amount_of c
counts-bound key n bound (records k amount) h = ground arith
counts-bound key n bound (resets k) h = ground arith

perform_all-counted :
    (meter : Meter) (calls : List Call) (bound : ℕ)
    → ((key : Key) → usage meter key ≤ bound)
    → bound + recorded calls < u64_mod
    → (last : Meter) × (perform_all meter calls ≡ some last)
      × ((key : Key) → usage last key ≡ counted key (usage meter key) calls)
unfolding perform_all Counts
perform_all-counted meter [] bound below fits = (meter, refl, λ key. refl)
perform_all-counted meter (c ∷ rest) bound below fits =
    let (next, went, counting) = perform-Counts meter c bound below (omega arith) in
    let (last, ran, counted_rest) =
      perform_all-counted next rest (bound + amount_of c)
        (λ key. rw (counting key) (counts-bound key (usage meter key) bound c (below key)))
        (omega arith) in
    (
      last,
      rw (perform_all, went) ran,
      λ key. counted_rest key ∙ ap (λ n. counted key n rest) (counting key),
    )

-- If all that is recorded sums up to less than 2^64, a new meter never panics, and the usage of a
-- tenant's metric is the sum of what was recorded for it since its last reset; records and resets
-- of other tenants or metrics do not count.
pub new-counted :
    (calls : List Call)
    → recorded calls < u64_mod
    → (last : Meter) × (perform_all new calls ≡ some last)
      × ((key : Key) → usage last key ≡ counted key 0 calls)
unfolding new usage get
new-counted calls fits = perform_all-counted new calls 0 (λ key. omega arith) (omega arith)
