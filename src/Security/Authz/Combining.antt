-- ===== src/Security/Authz/Combining.antt =====
-- How policies combine: deny overrides, and the default is deny.
use rust_libraries.Prelude.{Bool, true, false, [], ◌∷◌, ◌≡◌, refl, ◌↔◌, ◌⊎◌, arith, ok, err}
use rust_libraries.Security.Authz.Authorizer.{Exists}
use rust_libraries.Security.Error.{forbidden}
use rust_libraries.Security.Authz.Policy.{
  Attributes, Conditions, nil, cons, all_of, any_of, negate, evaluate, evaluate_all, evaluate_any,
  Effect, Policy, Decision, PolicySet, decide_from, authorize_policies,
}

-- A policy with this effect matches the request.
abbrev pub Matches : Effect → Attributes → Policy → Type 0
Matches effect attrs p = (p.effect ≡ effect) × (evaluate p.condition attrs ≡ true)

decide_from_iff :
    (permitted : Bool) (ps : PolicySet) (attrs : Attributes)
    → (decide_from permitted ps attrs ≡ Decision.permit) ↔ (
        ((permitted ≡ true) ⊎ Exists (Matches Effect.allow attrs) ps)
        × ¬ (Exists (Matches Effect.deny attrs) ps))
unfolding decide_from
decide_from_iff permitted [] attrs = (λ h. ground arith, λ h. ground arith)
decide_from_iff permitted (p ∷ ps) attrs = (
  λ h. ground (arith, decide_from_iff permitted ps attrs, decide_from_iff true ps attrs),
  λ h. ground (arith, decide_from_iff permitted ps attrs, decide_from_iff true ps attrs),
)

-- A request is permitted exactly if some `Allow` policy matches it and no `Deny` policy does; every
-- other request is `Forbidden`.
pub authorize_policies_iff :
    (ps : PolicySet) (attrs : Attributes)
    → ((authorize_policies ps attrs ≡ ok tt)
        ↔ (Exists (Matches Effect.allow attrs) ps × ¬ (Exists (Matches Effect.deny attrs) ps)))
      × ((authorize_policies ps attrs ≡ ok tt) ⊎ (authorize_policies ps attrs ≡ err forbidden))
unfolding authorize_policies
authorize_policies_iff ps attrs = (
  (
    λ h. ground (arith, decide_from_iff false ps attrs),
    λ h. ground (arith, decide_from_iff false ps attrs),
  ),
  ground arith,
)

abbrev pub negate_all : Conditions → Conditions
negate_all nil = nil
negate_all (cons c cs) = cons (negate c) (negate_all cs)

-- De Morgan's laws: the negation of `All` is `Any` of the negations, and the negation of `Any` is
-- `All` of them.
pub negate_all_of :
    (cs : Conditions) (attrs : Attributes)
    → (evaluate (negate (all_of cs)) attrs ≡ evaluate (any_of (negate_all cs)) attrs)
      × (evaluate (negate (any_of cs)) attrs ≡ evaluate (all_of (negate_all cs)) attrs)
unfolding evaluate evaluate_all evaluate_any
negate_all_of nil attrs = (refl, refl)
negate_all_of (cons c cs) attrs =
    (ground (arith, negate_all_of cs attrs), ground (arith, negate_all_of cs attrs))
