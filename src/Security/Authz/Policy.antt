-- ===== src/Security/Authz/Policy.antt =====
-- klauthed-security/src/authz/policy.rs: attribute-based access control.
use rust_libraries.Prelude.{
  String, Bool, true, false, not, ◌&&◌, ◌||◌, Option, none, some, List, [], ◌∷◌, ◌++◌, ◌==◌, eqb,
  string_eq, contains, if◌then◌else◌, Result, ok, err, is_some,
}
use rust_libraries.Prelude.Int.{ℤ, pos, negsuc}
use rust_libraries.Prelude.Map.{Map, get, insert}
use rust_libraries.Security.Error.{SecurityError, forbidden}

pub data AttrValue : Type 0 where
  str : String → AttrValue
  int : ℤ → AttrValue
  bool : Bool → AttrValue
  list : List String → AttrValue

int_eq : ℤ → ℤ → Bool
int_eq (pos a) (pos b) = eqb a b
int_eq (negsuc a) (negsuc b) = eqb a b
int_eq _ _ = false

bool_eq : Bool → Bool → Bool
bool_eq true b = b
bool_eq false b = not b

list_eq : List String → List String → Bool
list_eq [] [] = true
list_eq (a ∷ s) (b ∷ t) = a == b && list_eq s t
list_eq _ _ = false

-- The derived `PartialEq`.
unfoldable pub attr_eq : AttrValue → AttrValue → Bool
unfolding int_eq bool_eq list_eq
attr_eq (str a) (str b) = a == b
attr_eq (int a) (int b) = int_eq a b
attr_eq (bool a) (bool b) = bool_eq a b
attr_eq (list a) (list b) = list_eq a b
attr_eq _ _ = false

abbrev pub Attributes : Type 0
Attributes = Map String AttrValue

unfoldable pub with_attribute : Attributes → String → AttrValue → Attributes
with_attribute attrs key value = insert key value attrs

mutual
  pub data Condition : Type 0 where
    always : Condition
    equals : String → AttrValue → Condition
    is_in : String → List String → Condition
    contains_item : String → String → Condition
    present : String → Condition
    all_of : Conditions → Condition
    any_of : Conditions → Condition
    negate : Condition → Condition

  pub data Conditions : Type 0 where
    nil : Conditions
    cons : Condition → Conditions → Conditions

abbrev equals_value : AttrValue → Option AttrValue → Bool
equals_value value none = false
equals_value value (some v) = attr_eq v value

abbrev str_in : List String → Option AttrValue → Bool
str_in values (some (str s)) = contains s values
str_in values _ = false

abbrev list_has : String → Option AttrValue → Bool
list_has item (some (list l)) = contains item l
list_has item _ = false

unfoldable mutual
  pub evaluate : Condition → Attributes → Bool
  evaluate always attrs = true
  evaluate (equals key value) attrs = equals_value value (get key attrs)
  evaluate (is_in key values) attrs = str_in values (get key attrs)
  evaluate (contains_item key item) attrs = list_has item (get key attrs)
  evaluate (present key) attrs = is_some (get key attrs)
  evaluate (all_of cs) attrs = evaluate_all cs attrs
  evaluate (any_of cs) attrs = evaluate_any cs attrs
  evaluate (negate c) attrs = not (evaluate c attrs)

  pub evaluate_all : Conditions → Attributes → Bool
  evaluate_all nil attrs = true
  evaluate_all (cons c cs) attrs = evaluate c attrs && evaluate_all cs attrs

  pub evaluate_any : Conditions → Attributes → Bool
  evaluate_any nil attrs = false
  evaluate_any (cons c cs) attrs = evaluate c attrs || evaluate_any cs attrs

pub data Effect : Type 0 where
  allow deny : Effect

pub record Policy : Type 0 where
  pub effect : Effect
  pub condition : Condition

pub data Decision : Type 0 where
  permit : Decision
  deny : Decision

unfoldable pub is_permit : Decision → Bool
is_permit Decision.permit = true
is_permit Decision.deny = false

abbrev pub PolicySet : Type 0
PolicySet = List Policy

unfoldable pub with_policy : PolicySet → Policy → PolicySet
with_policy ps p = ps ++ p ∷ []

-- The effect of a policy that matches, on the rest of the loop.
abbrev combine : Effect → Decision → Decision
combine Effect.deny rest = Decision.deny
combine Effect.allow rest = rest

-- The loop with its flag; a matching `Deny` returns at once.
unfoldable pub decide_from : Bool → PolicySet → Attributes → Decision
decide_from permitted [] attrs = if permitted then Decision.permit else Decision.deny
decide_from permitted (p ∷ ps) attrs =
    let skipped = decide_from permitted ps attrs in
    let allowed = decide_from true ps attrs in
    if evaluate p.condition attrs then combine p.effect allowed else skipped

unfoldable pub decide_policies : PolicySet → Attributes → Decision
unfolding decide_from
decide_policies ps attrs = decide_from false ps attrs

abbrev to_result : Decision → Result SecurityError (Unit {0})
to_result Decision.permit = ok tt
to_result Decision.deny = err forbidden

unfoldable pub authorize_policies : PolicySet → Attributes → Result SecurityError (Unit {0})
unfolding decide_policies
authorize_policies ps attrs = to_result (decide_policies ps attrs)
