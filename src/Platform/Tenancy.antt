-- ===== src/Platform/Tenancy.antt =====
-- klauthed-platform/src/tenancy: tenants and their in-memory resolver. The crate's ids are given by
-- their printed form, and the draw of a new one and the clock's reading are arguments.
pub mod Lookup
use rust_libraries.Prelude.{
  ℕ, String, Bool, true, false, ◌||◌, Option, none, some, List, [], ◌∷◌, ◌≡◌, refl, if◌then◌else◌,
  ◌==◌, string_eq, Result, ok, err, length, eqb, arith, eq_of_==, ◌<◌, ◌+◌, ◌⊎◌,
}
use rust_libraries.Prelude.Map.{Map, get, insert}
use rust_libraries.Time.{Timestamp}

pub data TenantStatus : Type 0 where
  active : TenantStatus
  pending : TenantStatus
  suspended : TenantStatus

pub record Tenant : Type 0 where
  pub id : String
  pub slug : String
  pub name : Option String
  pub status : TenantStatus
  pub created_at : Timestamp
  pub metadata : Map String String

pub data PlatformError : Type 0 where
  tenant_not_found : String → PlatformError
  tenant_suspended : String → PlatformError

abbrev pub is_active : TenantStatus → Bool
is_active active = true
is_active pending = false
is_active suspended = false

unfoldable pub new_at : String → String → Timestamp → Tenant
new_at drawn slug now = record {
  id = drawn;
  slug = slug;
  name = none;
  status = active;
  created_at = now;
  metadata = [];
}

unfoldable pub with_id : Tenant → String → Tenant
with_id t id = record t { id = id }

unfoldable pub with_name : Tenant → String → Tenant
with_name t name = record t { name = some name }

unfoldable pub with_created_at : Tenant → Timestamp → Tenant
with_created_at t at = record t { created_at = at }

unfoldable pub with_status : Tenant → TenantStatus → Tenant
with_status t status = record t { status = status }

unfoldable pub with_metadata : Tenant → String → String → Tenant
with_metadata t key value = record t { metadata = insert key value t.metadata }

abbrev pub metadata_get : Tenant → String → Option String
metadata_get t key = get key t.metadata

unfoldable pub ensure_active : Tenant → Result PlatformError Tenant
ensure_active t = if is_active t.status then ok t else err (tenant_suspended t.slug)

-- The tenants in the order in which they were put in.
abbrev pub Tenants : Type 0
Tenants = List Tenant

-- `insert` of the resolver: in the slot of the first tenant with this id, or behind all.
unfoldable pub insert_tenant : Tenants → Tenant → Tenants
insert_tenant [] tenant = tenant ∷ []
insert_tenant (t ∷ ts) tenant =
    let rest = insert_tenant ts tenant in if t.id == tenant.id then tenant ∷ ts else t ∷ rest

abbrev pub answers_to : String → Tenant → Bool
answers_to id_or_slug t = t.slug == id_or_slug || t.id == id_or_slug

unfoldable pub resolve : Tenants → String → Option Tenant
resolve [] id_or_slug = none
resolve (t ∷ ts) id_or_slug =
    let rest = resolve ts id_or_slug in if answers_to id_or_slug t then some t else rest

abbrev pub found_or_error : String → Option Tenant → Result PlatformError Tenant
found_or_error id_or_slug (some tenant) = ok tenant
found_or_error id_or_slug none = err (tenant_not_found id_or_slug)

unfoldable pub require : Tenants → String → Result PlatformError Tenant
require tenants id_or_slug = found_or_error id_or_slug (resolve tenants id_or_slug)

-- The tenant of a request's context.
unfoldable pub tenant_from_context : Tenants → Option String → Option Tenant
tenant_from_context tenants none = none
tenant_from_context tenants (some id_or_slug) = resolve tenants id_or_slug
