-- ===== src/Platform/Flags/Overrides.antt =====
-- What each call of the builder changes.
use rust_libraries.Prelude.{
  String, Bool, false, ◌&&◌, Option, none, some, ◌≡◌, refl, arith, if◌then◌else◌, ◌==◌, string_eq,
  [],
}
use rust_libraries.Prelude.Map.{get, insert, get-insert}
use rust_libraries.Platform.Flags.{
  Flags, FlagRule, or_default, change_rule, with_tenant_override, rule_enabled, is_enabled,
}

abbrev is_tenant : String → Option String → Bool
is_tenant tenant none = false
is_tenant tenant (some t) = tenant == t

overridden :
    (tenant : String) (enabled : Bool) (o : Option FlagRule) (t : Option String)
    → rule_enabled t (
        some (record (or_default o) {
          tenant_enabled = insert tenant enabled (or_default o).tenant_enabled;
        }))
      ≡ (if is_tenant tenant t then enabled else rule_enabled t o)
unfolding get
overridden tenant enabled none none = refl
overridden tenant enabled (some rule) none = refl
overridden tenant enabled none (some t) = ground (arith, get-insert tenant t enabled [])
overridden tenant enabled (some rule) (some t) =
    ground (arith, get-insert tenant t enabled rule.tenant_enabled)

-- An override decides the requests of its tenant, and no other answer changes.
pub with_tenant_override-is_enabled :
    (flags : Flags) (tenant flag asked : String) (enabled : Bool) (t : Option String)
    → is_enabled (with_tenant_override flags tenant flag enabled) asked t
      ≡ (if flag == asked && is_tenant tenant t then enabled else is_enabled flags asked t)
unfolding with_tenant_override change_rule is_enabled
with_tenant_override-is_enabled flags tenant flag asked enabled t = ground (
  arith,
  string_eq.beq_iff flag asked,
  overridden tenant enabled (get flag flags) t,
  get-insert flag asked
      (record (or_default (get flag flags)) {
        tenant_enabled = insert tenant enabled (or_default (get flag flags)).tenant_enabled;
      })
      flags,
)
