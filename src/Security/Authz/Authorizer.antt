-- ===== src/Security/Authz/Authorizer.antt =====
-- klauthed-security/src/authz/authorizer.rs: the stateless RBAC check.
use rust_libraries.Prelude.{
  String, Bool, true, false, List, [], ◌∷◌, ◌++◌, ◌≡◌, ◌↔◌, ◌⊎◌, arith, if◌then◌else◌, ◌==◌,
  string_eq, any, Result, ok, err,
}
use rust_libraries.Security.Error.{SecurityError, forbidden}
use rust_libraries.Security.Authz.Permission.{Text, Permission, colon, grants}

unfoldable pub is_authorized : List Permission → Permission → Bool
is_authorized granted required = any (λ g. grants g required) granted

abbrev pub require : Bool → Result SecurityError (Unit {0})
require true = ok tt
require false = err forbidden

unfoldable pub authorize : List Permission → Permission → Result SecurityError (Unit {0})
unfolding is_authorized
authorize granted required = require (is_authorized granted required)

abbrev own_suffix : Text
own_suffix = colon ∷ b'o' ∷ b'w' ∷ b'n' ∷ []

-- `format!("{}:own", required)`.
abbrev pub own : Permission → Permission
own required = required ++ own_suffix

unfoldable pub is_authorized_for_resource : List Permission → Permission → String → String → Bool
unfolding is_authorized
is_authorized_for_resource granted required principal owner =
    if is_authorized granted required
    then true
    else if principal == owner
    then is_authorized granted (own required)
    else false

unfoldable pub authorize_for_resource :
    List Permission → Permission → String → String → Result SecurityError (Unit {0})
unfolding is_authorized_for_resource
authorize_for_resource granted required principal owner =
    require (is_authorized_for_resource granted required principal owner)

-- Some element has the property.
abbrev pub Exists {ℓ} : {A : Type ℓ} → (A → Type 0) → List A → Type 0
Exists P [] = ⊥
Exists P (x ∷ xs) = P x ⊎ Exists P xs

is_authorized_iff :
    (granted : List Permission) (required : Permission)
    → (is_authorized granted required ≡ true) ↔ Exists (λ g. grants g required ≡ true) granted
unfolding is_authorized
is_authorized_iff [] required = (λ h. ground arith, λ h. absurd h)
is_authorized_iff (g ∷ granted) required = (
  λ h. ground (arith, is_authorized_iff granted required),
  λ h. ground (arith, is_authorized_iff granted required),
)

-- A principal may act on a resource exactly if some grant covers the permission, or the principal
-- owns the resource and some grant covers the permission's `:own` form; otherwise the answer is
-- `Forbidden`.
pub authorize_for_resource_iff :
    (granted : List Permission) (required : Permission) (principal owner : String)
    → ((authorize_for_resource granted required principal owner ≡ ok tt) ↔ (
        Exists (λ g. grants g required ≡ true) granted
        ⊎ ((principal ≡ owner) × Exists (λ g. grants g (own required) ≡ true) granted)))
      × ((authorize_for_resource granted required principal owner ≡ ok tt)
          ⊎ (authorize_for_resource granted required principal owner ≡ err forbidden))
unfolding authorize_for_resource
authorize_for_resource_iff granted required principal owner = (
  (
    λ h. ground (
      arith,
      is_authorized_iff granted required,
      is_authorized_iff granted (own required),
      string_eq.beq_iff principal owner,
    ),
    λ h. ground (
      arith,
      is_authorized_iff granted required,
      is_authorized_iff granted (own required),
      string_eq.beq_iff principal owner,
    ),
  ),
  ground arith,
)
