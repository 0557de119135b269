-- ===== src/Prelude/Sets.antt =====
-- `HashSet` and `BTreeSet` of the standard library, as lists that no insertion repeats.
use mathlib.Core.Path.{◌≡◌}
use mathlib.Core.Bool.{Bool, true, false, ◌||◌}
use mathlib.Core.List.{List, [], ◌∷◌}
use native.Mathlib.Omega.{arith}
use rust_libraries.Prelude.Tests.{if◌then◌else◌}
use rust_libraries.Prelude.Keys.{Eq, ◌==◌, ==_refl}

module _ {ℓ} {A : Type ℓ} ⦃e : Eq A⦄ where
  abbrev pub contains : A → List A → Bool
  contains a [] = false
  contains a (x ∷ xs) = x == a || contains a xs

  -- `BTreeSet::insert`.
  abbrev pub set_insert : A → List A → List A
  set_insert a xs = if contains a xs then xs else a ∷ xs

  -- `BTreeSet::extend`.
  abbrev pub set_extend : List A → List A → List A
  set_extend xs [] = xs
  set_extend xs (a ∷ more) = set_extend (set_insert a xs) more

  pub contains-set_insert :
      (p a : A) (xs : List A) → contains p (set_insert a xs) ≡ (a == p || contains p xs)
  contains-set_insert p a xs = ground (arith, e.beq_iff a p)

  pub contains-set_extend :
      (p : A) (xs more : List A)
      → contains p (set_extend xs more) ≡ (contains p xs || contains p more)
  contains-set_extend p xs [] = ground arith
  contains-set_extend p xs (a ∷ more) =
      ground (arith, contains-set_extend p (set_insert a xs) more, contains-set_insert p a xs)

  pub contains-set_insert_self : (a : A) (xs : List A) → contains a (set_insert a xs) ≡ true
  contains-set_insert_self a xs = ground (arith, contains-set_insert a a xs, ==_refl a)
