-- ===== src/Discovery/Registry.antt =====
-- klauthed-discovery/src/registry.rs: `InMemoryRegistry`.
pub mod Lookup
use rust_libraries.Prelude.{
  ℕ, ◌+◌, String, Bool, true, false, not, Option, none, some, List, [], ◌∷◌, length, keep,
  if◌then◌else◌, ◌==◌, string_eq,
}
use rust_libraries.Prelude.Map.{Map, get, insert, remove}
use rust_libraries.Discovery.Instance.{ServiceInstance}

abbrev pub InMemoryRegistry : Type 0
InMemoryRegistry = Map String (List ServiceInstance)

unfoldable pub new : InMemoryRegistry
new = []

unfoldable pub len : InMemoryRegistry → ℕ
len [] = 0
len ((_, list) ∷ reg) = length list + len reg

-- `unwrap_or_default`, and `or_default` on an entry.
abbrev pub or_default : Option (List ServiceInstance) → List ServiceInstance
or_default none = []
or_default (some list) = list

-- Replace the first instance with the same id, or push at the end.
unfoldable pub upsert : ServiceInstance → List ServiceInstance → List ServiceInstance
upsert i [] = i ∷ []
upsert i (x ∷ list) =
    let rest = upsert i list in if x.instance_id == i.instance_id then i ∷ list else x ∷ rest

unfoldable pub register : InMemoryRegistry → ServiceInstance → InMemoryRegistry
unfolding upsert
register reg i = insert i.service_name (upsert i (or_default (get i.service_name reg))) reg

abbrev pub without : String → List ServiceInstance → List ServiceInstance
without id = keep (λ i. not (i.instance_id == id))

abbrev put_back : String → List ServiceInstance → InMemoryRegistry → InMemoryRegistry
put_back service [] reg = remove service reg
put_back service (i ∷ list) reg = insert service (i ∷ list) reg

unfoldable pub deregister : InMemoryRegistry → String → String → InMemoryRegistry
deregister reg service id = elim (get service reg) [
  | none ↦ reg
  | some list ↦ put_back service (without id list) reg
]

unfoldable pub heartbeat : InMemoryRegistry → String → String → InMemoryRegistry
heartbeat reg service id = reg

unfoldable pub instances : InMemoryRegistry → String → List ServiceInstance
instances reg service = or_default (get service reg)
