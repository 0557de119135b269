-- ===== src/Platform/Tenancy/Lookup.antt =====
-- What the in-memory resolver finds after an insertion.
use rust_libraries.Prelude.{
  String, true, false, some, [], ◌∷◌, ◌≡◌, refl, arith, ◌==◌, ==_refl, string_eq, All,
}
use rust_libraries.Platform.Tenancy.{Tenant, Tenants, insert_tenant, resolve, answers_to}

-- No other tenant's slug reads like this.
abbrev pub SlugApart : String → Tenant → Type 0
SlugApart name t = t.slug == name ≡ false

answers_to-id : (t : Tenant) → answers_to t.id t ≡ true
answers_to-id t = ground (arith, ==_refl t.id)

-- A tenant that was inserted is resolved by its id, if no tenant's slug reads like that id.
pub insert_tenant-resolve_id :
    (ts : Tenants) (tenant : Tenant)
    → All (SlugApart tenant.id) ts
    → resolve (insert_tenant ts tenant) tenant.id ≡ some tenant
unfolding insert_tenant resolve
insert_tenant-resolve_id [] tenant h = rw (answers_to-id tenant) refl
insert_tenant-resolve_id (t ∷ ts) tenant h =
    ground (arith, ==_refl tenant.id, insert_tenant-resolve_id ts tenant h.1)

-- A name that neither the inserted tenant nor the one it replaces answers to finds what it found.
pub insert_tenant-resolve_apart :
    (ts : Tenants) (tenant : Tenant) (name : String)
    → answers_to name tenant ≡ false
    → All (λ t. (t.id == tenant.id) ≡ true → answers_to name t ≡ false) ts
    → resolve (insert_tenant ts tenant) name ≡ resolve ts name
unfolding insert_tenant resolve
insert_tenant-resolve_apart [] tenant name h g = rw h refl
insert_tenant-resolve_apart (t ∷ ts) tenant name h g =
    ground (arith, g.0, insert_tenant-resolve_apart ts tenant name h g.1)
