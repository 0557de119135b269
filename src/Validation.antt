-- ===== src/Validation.antt =====
-- klauthed-core/src/validation/errors.rs: the collection of validation problems.
use rust_libraries.Prelude.{
  ℕ, String, Bool, Option, none, some, List, [], ◌∷◌, ◌++◌, ◌≡◌, ◌↔◌, refl, arith, Result, ok, err,
  length, eqb, if◌then◌else◌,
}

pub record ValidationError : Type 0 where
  pub field : Option String
  pub code : String
  pub message : String

unfoldable pub new : String → String → String → ValidationError
new field code message = record { field = some field; code = code; message = message }

unfoldable pub global : String → String → ValidationError
global code message = record { field = none; code = code; message = message }

-- The problems in the order in which they were recorded.
abbrev pub ValidationErrors : Type 0
ValidationErrors = List ValidationError

abbrev pub no_errors : ValidationErrors
no_errors = []

abbrev pub is_empty : ValidationErrors → Bool
is_empty errors = eqb (length errors) 0

abbrev pub len : ValidationErrors → ℕ
len errors = length errors

unfoldable pub push : ValidationErrors → ValidationError → ValidationErrors
push errors error = errors ++ (error ∷ [])

unfoldable pub add : ValidationErrors → String → String → String → ValidationErrors
unfolding push
add errors field code message = push errors (new field code message)

unfoldable pub add_global : ValidationErrors → String → String → ValidationErrors
unfolding push
add_global errors code message = push errors (global code message)

unfoldable pub merge : ValidationErrors → ValidationErrors → ValidationErrors
merge errors other = errors ++ other

unfoldable pub into_result : ValidationErrors → Result {0, 0} ValidationErrors (Unit {0})
into_result errors = if is_empty errors then ok tt else err errors

-- A merged collection passes exactly if both do.
pub merge-into_result :
    (errors other : ValidationErrors)
    → (into_result (merge errors other) ≡ ok tt)
      ↔ ((into_result errors ≡ ok tt) × (into_result other ≡ ok tt))
unfolding merge into_result
merge-into_result [] other = (λ e. (refl, e), λ h. h.1)
merge-into_result (error ∷ errors) other = (λ e. ground arith, λ h. ground arith)
