-- ===== src/Security/Authz/Roles.antt =====
-- klauthed-security/src/authz/role.rs. A `BTreeSet` is a list that no insertion repeats; its
-- iteration order, which only the order of the walk depends on, is the order of insertion here.
use rust_libraries.Prelude.{
  ℕ, zero, suc, String, Option, none, some, List, [], ◌∷◌, if◌then◌else◌, contains, set_insert,
  set_extend, string_eq, length, ◌+◌,
}
use rust_libraries.Prelude.Map.{Map, get, insert}
use rust_libraries.Security.Authz.Permission.{Permission, text_instance}

pub record Role : Type 0 where
  pub name : String
  pub permissions : List Permission
  pub parents : List String

unfoldable pub new_role : String → Role
new_role name = record { name = name; permissions = []; parents = [] }

unfoldable pub with_permissions : Role → List Permission → Role
with_permissions r ps = record r { permissions = set_extend r.permissions ps }

unfoldable pub inherits : Role → List String → Role
inherits r parents = record r { parents = set_extend r.parents parents }

unfoldable pub grant : Role → Permission → Role
grant r p = record r { permissions = set_insert p r.permissions }

unfoldable pub inherit : Role → String → Role
inherit r parent = record r { parents = set_insert parent r.parents }

abbrev pub RoleRegistry : Type 0
RoleRegistry = Map String Role

unfoldable pub define : RoleRegistry → Role → RoleRegistry
define reg role = insert role.name role reg

unfoldable pub role : RoleRegistry → String → Option Role
role reg name = get name reg

-- `Vec::extend` on a stack whose top is the head of the list: the last one pushed is on top.
abbrev pub push_all : List String → List String → List String
push_all [] stack = stack
push_all (x ∷ xs) stack = push_all xs (x ∷ stack)

-- The `while let Some(name) = stack.pop()` loop, on fuel; `none` means that the fuel ran out.
unfoldable pub walk :
    RoleRegistry → ℕ → List String → List String → List Permission → Option (List Permission)
walk reg zero stack visited perms = none
walk reg (suc fuel) [] visited perms = some perms
walk reg (suc fuel) (name ∷ stack) visited perms =
    let skip = walk reg fuel stack visited perms in
    let unknown = walk reg fuel stack (name ∷ visited) perms in
    if contains name visited then skip else elim (get name reg) [
      | none ↦ unknown
      | some r ↦
          walk reg fuel (push_all r.parents stack) (name ∷ visited) (set_extend perms r.permissions)
    ]

unfoldable pub parents_total : RoleRegistry → ℕ
parents_total [] = 0
parents_total ((_, r) ∷ reg) = length r.parents + parents_total reg

-- Every pop takes a name off, and each role pushes its parents once: this fuel is enough.
unfoldable pub effective_permissions : RoleRegistry → List String → Option (List Permission)
unfolding walk parents_total
effective_permissions reg names =
    walk reg (suc (length names + parents_total reg)) (push_all names []) [] []
