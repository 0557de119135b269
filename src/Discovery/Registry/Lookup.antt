-- ===== src/Discovery/Registry/Lookup.antt =====
-- What the registry lists after a registration or a deregistration.
use rust_libraries.Prelude.{
  String, Option, none, some, List, [], ◌∷◌, ◌≡◌, ◌≢◌, refl, ◌∙◌, ap, inl, inr, if◌then◌else◌, ◌==◌,
  string_eq, arith, Option-cases, ==_refl,
}
use rust_libraries.Prelude.Map.{get, get-insert, get-remove}
use rust_libraries.Discovery.Instance.{ServiceInstance}
use rust_libraries.Discovery.Registry.{
  InMemoryRegistry, or_default, upsert, register, without, deregister, instances,
}

-- The first instance with an id.
abbrev pub find : String → List ServiceInstance → Option ServiceInstance
find id [] = none
find id (x ∷ list) = if x.instance_id == id then some x else find id list

-- No id stands twice.
abbrev pub Distinct : List ServiceInstance → Type 0
Distinct [] = Unit
Distinct (x ∷ list) = (find x.instance_id list ≡ none) × Distinct list

find-upsert :
    (id : String) (i : ServiceInstance) (list : List ServiceInstance)
    → find id (upsert i list) ≡ (if i.instance_id == id then some i else find id list)
unfolding upsert
find-upsert id i [] = refl
find-upsert id i (x ∷ list) = ground (
  arith,
  find-upsert id i list,
  string_eq.beq_iff x.instance_id i.instance_id,
  string_eq.beq_iff i.instance_id id,
  string_eq.beq_iff x.instance_id id,
)

upsert-Distinct :
    (i : ServiceInstance) (list : List ServiceInstance) → Distinct list → Distinct (upsert i list)
unfolding upsert
upsert-Distinct i [] d = (refl, tt)
upsert-Distinct i (x ∷ list) d = ground (
  arith,
  upsert-Distinct i list d.1,
  find-upsert x.instance_id i list,
  string_eq.beq_iff x.instance_id i.instance_id,
  string_eq.beq_iff i.instance_id x.instance_id,
)

find-without :
    (id other : String) (list : List ServiceInstance)
    → find other (without id list) ≡ (if id == other then none else find other list)
find-without id other [] = ground arith
find-without id other (x ∷ list) = ground (
  arith,
  find-without id other list,
  string_eq.beq_iff x.instance_id id,
  string_eq.beq_iff x.instance_id other,
  string_eq.beq_iff id other,
)

without-Distinct :
    (id : String) (list : List ServiceInstance) → Distinct list → Distinct (without id list)
without-Distinct id [] d = tt
without-Distinct id (x ∷ list) d =
    ground (arith, without-Distinct id list d.1, find-without id x.instance_id list)

-- If the service lists no id twice, it lists after a registration this instance under its id,
-- once; its other instances and all other services are listed as before.
pub register-instances :
    (reg : InMemoryRegistry) (i : ServiceInstance) (id service : String)
    → Distinct (instances reg i.service_name)
    → (find id (instances (register reg i) i.service_name)
        ≡ (if i.instance_id == id then some i else find id (instances reg i.service_name)))
      × Distinct (instances (register reg i) i.service_name)
      × (i.service_name ≢ service → instances (register reg i) service ≡ instances reg service)
unfolding register instances
register-instances reg i id service d =
    let list = or_default (get i.service_name reg) in
    let stored : get i.service_name (register reg i) ≡ some (upsert i list) = ground (
      arith,
      get-insert i.service_name i.service_name (upsert i list) reg,
      ==_refl i.service_name,
    ) in
    (
      ap (λ o. find id (or_default o)) stored ∙ find-upsert id i list,
      rw stored (upsert-Distinct i list d),
      λ n. ground (
        arith,
        get-insert i.service_name service (upsert i list) reg,
        string_eq.beq_iff i.service_name service,
      ),
    )

listed_after :
    (reg : InMemoryRegistry) (service id : String)
    → instances (deregister reg service id) service ≡ without id (instances reg service)
unfolding deregister instances
listed_after reg service id = elim (Option-cases (get service reg)) [
  | inl e ↦ rw (e, deregister) (rw e refl)
  | inr (list, e) ↦ ground (
    arith,
    get-insert service service (without id list) reg,
    get-remove service service reg,
    ==_refl service,
  )
]

elsewhere_same :
    (reg : InMemoryRegistry) (service id elsewhere : String)
    → service ≢ elsewhere
    → instances (deregister reg service id) elsewhere ≡ instances reg elsewhere
unfolding deregister instances
elsewhere_same reg service id elsewhere n = elim (Option-cases (get service reg)) [
  | inl e ↦ rw (e, deregister) refl
  | inr (list, e) ↦ ground (
    arith,
    get-insert service elsewhere (without id list) reg,
    get-remove service elsewhere reg,
    string_eq.beq_iff service elsewhere,
  )
]

-- If the service lists no id twice, it no longer lists the id after a deregistration; its other
-- instances and all other services are listed as before.
pub deregister-instances :
    (reg : InMemoryRegistry) (service id other elsewhere : String)
    → Distinct (instances reg service)
    → (find other (instances (deregister reg service id) service)
        ≡ (if id == other then none else find other (instances reg service)))
      × Distinct (instances (deregister reg service id) service)
      × (service ≢ elsewhere
          → instances (deregister reg service id) elsewhere ≡ instances reg elsewhere)
deregister-instances reg service id other elsewhere d = (
  ap (find other) (listed_after reg service id) ∙ find-without id other (instances reg service),
  rw (listed_after reg service id) (without-Distinct id (instances reg service) d),
  λ n. elsewhere_same reg service id elsewhere n,
)
