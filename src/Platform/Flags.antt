-- ===== src/Platform/Flags.antt =====
-- klauthed-platform/src/featureflag/memory.rs: the in-memory provider of feature flags. A request
-- is given by the tenant of its context.
pub mod Overrides
use rust_libraries.Prelude.{
  String, Bool, false, Option, none, some, List, [], ◌∷◌, if◌then◌else◌, string_eq,
}
use rust_libraries.Prelude.Map.{Map, get, insert}

pub record FlagRule : Type 0 where
  pub global : Bool
  pub tenant_enabled : Map String Bool
  pub global_variant : Option String
  pub tenant_variant : Map String String

abbrev pub default_rule : FlagRule
default_rule = record {
  global = false;
  tenant_enabled = [];
  global_variant = none;
  tenant_variant = [];
}

-- The rules by flag.
abbrev pub Flags : Type 0
Flags = Map String FlagRule

unfoldable pub new : Flags
new = []

abbrev pub or_default : Option FlagRule → FlagRule
or_default none = default_rule
or_default (some rule) = rule

-- `entry(flag).or_default()`, written through by `change`.
unfoldable pub change_rule : (FlagRule → FlagRule) → Flags → String → Flags
change_rule change flags flag = insert flag (change (or_default (get flag flags))) flags

unfoldable pub with_global : Flags → String → Bool → Flags
with_global flags flag enabled = change_rule (λ r. record r { global = enabled }) flags flag

unfoldable pub with_tenant_override : Flags → String → String → Bool → Flags
with_tenant_override flags tenant flag enabled =
    change_rule (λ r. record r { tenant_enabled = insert tenant enabled r.tenant_enabled }) flags
      flag

unfoldable pub with_global_variant : Flags → String → String → Flags
with_global_variant flags flag variant =
    change_rule (λ r. record r { global_variant = some variant }) flags flag

unfoldable pub with_tenant_variant : Flags → String → String → String → Flags
with_tenant_variant flags tenant flag variant =
    change_rule (λ r. record r { tenant_variant = insert tenant variant r.tenant_variant }) flags
      flag

abbrev pub overridden_or {ℓ} : {A : Type ℓ} → A → Option A → A
overridden_or otherwise (some overridden) = overridden
overridden_or otherwise none = otherwise

abbrev pub for_tenant {ℓ} : {A : Type ℓ} → Map String A → Option String → Option A
for_tenant overrides none = none
for_tenant overrides (some tenant) = get tenant overrides

abbrev pub rule_enabled : Option String → Option FlagRule → Bool
rule_enabled tenant none = false
rule_enabled tenant (some rule) = overridden_or rule.global (for_tenant rule.tenant_enabled tenant)

unfoldable pub is_enabled : Flags → String → Option String → Bool
is_enabled flags flag tenant = rule_enabled tenant (get flag flags)

abbrev pub selected : Option String → Option String → Option String
selected otherwise (some value) = some value
selected otherwise none = otherwise

abbrev pub rule_variant : Option String → Option FlagRule → Option String
rule_variant tenant none = none
rule_variant tenant (some rule) =
    selected rule.global_variant (for_tenant rule.tenant_variant tenant)

unfoldable pub variant_of : Flags → String → Option String → Option String
variant_of flags flag tenant = rule_variant tenant (get flag flags)
