-- ===== src/Prelude/Sort.antt =====
-- `sort_by` and `sort_by_key` of the standard library: a stable sort by a total order, with the
-- number of elements that pass a test as the view that forgets the order.
use Prim.Native.Nat.{ℕ, zero, suc, ◌+◌, ◌≤◌}
use mathlib.Core.Path.{◌≡◌, refl}
use mathlib.Core.Logic.{inl, inr}
use mathlib.Core.Bool.{Bool, true, false}
use mathlib.Core.List.{List, [], ◌∷◌}
use native.Mathlib.Omega.{arith}
use rust_libraries.Prelude.Tests.{if◌then◌else◌, Bool-cases}
use rust_libraries.Prelude.Lists.{take, drop, All, All-imp, All-take}

module _ {ℓ} {A : Type ℓ} where
  -- How many elements pass the test.
  abbrev pub tally : (A → Bool) → List A → ℕ
  tally p [] = 0
  tally p (x ∷ xs) = (if p x then 1 else 0) + tally p xs

  pub tally-take-le : (p : A → Bool) (n : ℕ) (xs : List A) → tally p (take n xs) ≤ tally p xs
  tally-take-le p zero xs = omega arith
  tally-take-le p (suc n) [] = omega arith
  tally-take-le p (suc n) (x ∷ xs) = omega (arith, tally-take-le p n xs)

  pub insert_sorted : (A → A → Bool) → A → List A → List A
  insert_sorted le x [] = x ∷ []
  insert_sorted le x (y ∷ ys) = if le x y then x ∷ y ∷ ys else y ∷ insert_sorted le x ys

  unfoldable pub sort_by : (A → A → Bool) → List A → List A
  unfolding insert_sorted
  sort_by le [] = []
  sort_by le (x ∷ xs) = insert_sorted le x (sort_by le xs)

  tally-insert_sorted :
      (le : A → A → Bool) (p : A → Bool) (x : A) (xs : List A)
      → tally p (insert_sorted le x xs) ≡ tally p (x ∷ xs)
  unfolding insert_sorted
  tally-insert_sorted le p x [] = refl
  tally-insert_sorted le p x (y ∷ ys) = ground (arith, tally-insert_sorted le p x ys)

  pub tally-sort_by :
      (le : A → A → Bool) (p : A → Bool) (xs : List A) → tally p (sort_by le xs) ≡ tally p xs
  unfolding sort_by
  tally-sort_by le p [] = refl
  tally-sort_by le p (x ∷ xs) =
      omega (arith, tally-insert_sorted le p x (sort_by le xs), tally-sort_by le p xs)

  abbrev pub IsSorted : (A → A → Bool) → List A → Type 0
  IsSorted le [] = Unit
  IsSorted le (x ∷ xs) = All (λ y. le x y ≡ true) xs × IsSorted le xs

  pub take-IsSorted :
      (le : A → A → Bool) (n : ℕ) (xs : List A) → IsSorted le xs → IsSorted le (take n xs)
  take-IsSorted le zero xs h = tt
  take-IsSorted le (suc n) [] h = tt
  take-IsSorted le (suc n) (x ∷ xs) h = (All-take _ n xs h.0, take-IsSorted le n xs h.1)

  pub All-drop {κ} : (P : A → Type κ) (n : ℕ) (xs : List A) → All P xs → All P (drop n xs)
  All-drop P zero xs h = h
  All-drop P (suc n) [] h = tt
  All-drop P (suc n) (x ∷ xs) h = All-drop P n xs h.1

  All-insert_sorted {κ} :
      (P : A → Type κ) (le : A → A → Bool) (x : A) (xs : List A)
      → P x
      → All P xs
      → All P (insert_sorted le x xs)
  unfolding insert_sorted
  All-insert_sorted P le x [] p h = (p, tt)
  All-insert_sorted P le x (y ∷ ys) p h = elim (Bool-cases (le x y)) [
    | inl e ↦ rw e (p, h)
    | inr n ↦ rw n (h.0, All-insert_sorted P le x ys p h.1)
  ]

  -- Every element before a cut precedes every element behind it.
  pub take_before_drop :
      (le : A → A → Bool) (n : ℕ) (xs : List A)
      → IsSorted le xs
      → All (λ x. All (λ y. le x y ≡ true) (drop n xs)) (take n xs)
  take_before_drop le zero xs h = tt
  take_before_drop le (suc n) [] h = tt
  take_before_drop le (suc n) (x ∷ xs) h = (All-drop _ n xs h.0, take_before_drop le n xs h.1)

  pub All-sort_by {κ} :
      (P : A → Type κ) (le : A → A → Bool) (xs : List A) → All P xs → All P (sort_by le xs)
  unfolding sort_by
  All-sort_by P le [] h = tt
  All-sort_by P le (x ∷ xs) h =
      All-insert_sorted P le x (sort_by le xs) h.0 (All-sort_by P le xs h.1)

  -- A list none of whose elements passes is empty, if all do.
  pub All-pass_none_pass :
      (p : A → Bool) (xs : List A) → All (λ x. p x ≡ true) xs → tally p xs ≡ 0 → xs ≡ []
  All-pass_none_pass p [] h z = refl
  All-pass_none_pass p (x ∷ xs) h z = ground arith

-- A total order, as the standard library asks of a comparison.
module _ {ℓ} {A : Type ℓ} (le : A → A → Bool)
    (trans : (x y z : A) → le x y ≡ true → le y z ≡ true → le x z ≡ true)
    (total : (x y : A) → le x y ≡ false → le y x ≡ true) where
  insert_sorted-IsSorted :
      (x : A) (xs : List A) → IsSorted le xs → IsSorted le (insert_sorted le x xs)
  unfolding insert_sorted
  insert_sorted-IsSorted x [] h = (tt, tt)
  insert_sorted-IsSorted x (y ∷ ys) h = elim (Bool-cases (le x y)) [
    | inl e ↦ rw e ((e, All-imp (λ z g. trans x y z e g) ys h.0), h)
    | inr n ↦ rw n (All-insert_sorted _ le x ys (total x y n) h.0, insert_sorted-IsSorted x ys h.1)
  ]

  pub sort_by-IsSorted : (xs : List A) → IsSorted le (sort_by le xs)
  unfolding sort_by
  sort_by-IsSorted [] = tt
  sort_by-IsSorted (x ∷ xs) = insert_sorted-IsSorted x (sort_by le xs) (sort_by-IsSorted xs)
