-- ===== src/Security/Compare.antt =====
-- klauthed-security/src/compare/equal.rs: byte strings compared in constant time.
use rust_libraries.Prelude.{
  ℕ, List, Bool, true, false, ◌≡◌, ◌↔◌, arith, length, eqb, if◌then◌else◌, ap,
}

-- What the code uses of the `subtle` crate: `ct_eq` on byte slices of one length.
pub record SubtleApi : Type 0 where
  pub ct_eq : List ℕ → List ℕ → Bool
  pub ct_eq_iff : (a b : List ℕ) → length a ≡ length b → (ct_eq a b ≡ true) ↔ (a ≡ b)

module _ ⦃subtle : SubtleApi⦄ where
  unfoldable pub constant_time_eq : List ℕ → List ℕ → Bool
  constant_time_eq a b = if eqb (length a) (length b) then subtle.ct_eq a b else false

  -- The constant-time comparison decides equality of byte strings, of any lengths.
  pub constant_time_eq_iff : (a b : List ℕ) → (constant_time_eq a b ≡ true) ↔ (a ≡ b)
  unfolding constant_time_eq
  constant_time_eq_iff a b = (
    λ h. ground (arith, subtle.ct_eq_iff a b),
    λ h. ground (arith, subtle.ct_eq_iff a b, ap length h),
  )
