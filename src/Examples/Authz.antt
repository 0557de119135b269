-- ===== src/Examples/Authz.antt =====
-- Permissions, roles and policies at concrete inputs.
use rust_libraries.Prelude.{
  true, String, some, List, [], ◌∷◌, ◌≡◌, refl, ◌↔◌, ◌⊎◌, ok, err, string_eq, contains,
}
use rust_libraries.Security.Error.{forbidden}
use rust_libraries.Security.Authz.Permission.{
  Permission, star, colon, split, grants, grants_from, text_eq, text_instance,
}
use rust_libraries.Security.Authz.Covers.{Covers, grants_iff}
use rust_libraries.Security.Authz.Roles.{RoleRegistry, effective_permissions}
use rust_libraries.Security.Authz.Walk.{Granted, effective_permissions_iff}
use rust_libraries.Security.Authz.Authorizer.{
  Exists, own, authorize_for_resource, authorize_for_resource_iff,
}
use rust_libraries.Security.Authz.Policy.{
  str, Attributes, Conditions, nil, cons, present, equals, Effect, PolicySet, authorize_policies,
}
use rust_libraries.Security.Authz.Combining.{Matches, authorize_policies_iff}
use rust_libraries.Examples.Clock.{plain_bytes}

-- `a:*`, `a:b`, `a:b:c`.
abbrev a_any : Permission
a_any = b'a' ∷ colon ∷ star

abbrev a_b : Permission
a_b = b'a' ∷ colon ∷ b'b' ∷ []

abbrev a_b_c : Permission
a_b_c = b'a' ∷ colon ∷ b'b' ∷ colon ∷ b'c' ∷ []

covers_deep : grants a_any a_b_c ≡ true
unfolding grants split grants_from text_eq
covers_deep = refl

grants_iff_example :
    (grants a_any a_b_c ≡ true) ↔ ((a_any ≡ star) ⊎ Covers (split a_any) (split a_b_c))
grants_iff_example = grants_iff a_any a_b_c

-- `editor` and `viewer` inherit from each other, and `editor` from an undefined role.
abbrev roles : RoleRegistry
roles =
    ("editor", record { name = "editor"; permissions = a_b ∷ []; parents = "viewer" ∷ "gone" ∷ [] })
    ∷ ("viewer", record { name = "viewer"; permissions = a_b_c ∷ []; parents = "editor" ∷ [] })
    ∷ []

effective_permissions_iff_example :
    (out : List Permission) × (effective_permissions roles ("editor" ∷ []) ≡ some out)
    × ((p : Permission) → (contains p out ≡ true) ↔ Granted roles ("editor" ∷ []) p)
effective_permissions_iff_example = effective_permissions_iff roles ("editor" ∷ [])

abbrev ann : String
ann = "ann"

authorize_for_resource_iff_example :
    ((authorize_for_resource (own a_b ∷ []) a_b ann ann ≡ ok tt) ↔ (
      Exists (λ g. grants g a_b ≡ true) (own a_b ∷ [])
      ⊎ ((ann ≡ ann) × Exists (λ g. grants g (own a_b) ≡ true) (own a_b ∷ []))))
    × ((authorize_for_resource (own a_b ∷ []) a_b ann ann ≡ ok tt)
        ⊎ (authorize_for_resource (own a_b ∷ []) a_b ann ann ≡ err forbidden))
authorize_for_resource_iff_example = authorize_for_resource_iff (own a_b ∷ []) a_b ann ann

abbrev policies : PolicySet
policies =
    record { effect = Effect.allow; condition = present "user" }
    ∷ record { effect = Effect.deny; condition = equals "user" (str "eve") }
    ∷ []

abbrev eve : Attributes
eve = ("user", str "eve") ∷ []

authorize_policies_iff_example :
    ((authorize_policies policies eve ≡ ok tt) ↔ (
      Exists (Matches Effect.allow eve) policies × ¬ (Exists (Matches Effect.deny eve) policies)))
    × ((authorize_policies policies eve ≡ ok tt)
        ⊎ (authorize_policies policies eve ≡ err forbidden))
authorize_policies_iff_example = authorize_policies_iff policies eve

abbrev both : Conditions
both = cons (present "user") (cons (present "team") nil)
