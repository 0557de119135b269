-- ===== src/Security/Authz/Walk.antt =====
-- The inheritance walk of `effective_permissions` against reachability.
use rust_libraries.Prelude.{
  ℕ, zero, suc, ◌+◌, ◌≤◌, ◌<◌, String, true, false, ◌||◌, none, some, List, [], ◌∷◌, ◌≡◌, refl, sym,
  ◌∙◌, subst, inl, inr, ◌↔◌, arith, length, if◌then◌else◌, string_eq, Bool-cases, Option-cases,
  ==_refl, contains, set_extend, contains-set_extend,
}
use rust_libraries.Prelude.Map.{get}
use rust_libraries.Security.Authz.Permission.{Permission, text_instance}
use rust_libraries.Security.Authz.Roles.{
  Role, RoleRegistry, push_all, walk, parents_total, effective_permissions,
}

contains-push_all :
    (m : String) (xs stack : List String)
    → contains m (push_all xs stack) ≡ (contains m xs || contains m stack)
contains-push_all m [] stack = refl
contains-push_all m (x ∷ xs) stack = ground (arith, contains-push_all m xs (x ∷ stack))

length-push_all : (xs stack : List String) → length (push_all xs stack) ≡ length xs + length stack
length-push_all [] stack = omega arith
length-push_all (x ∷ xs) stack = omega (arith, length-push_all xs (x ∷ stack))

-- The parents of the roles that are still to be visited.
weight : List String → RoleRegistry → ℕ
weight visited [] = 0
weight visited ((k, r) ∷ reg) =
    (if contains k visited then 0 else length r.parents) + weight visited reg

weight-visit-le :
    (name : String) (visited : List String) (reg : RoleRegistry)
    → weight (name ∷ visited) reg ≤ weight visited reg
unfolding weight
weight-visit-le name visited [] = omega arith
weight-visit-le name visited ((k, r) ∷ reg) = ground (arith, weight-visit-le name visited reg)

weight-visit :
    (name : String) (visited : List String) (reg : RoleRegistry) (r : Role)
    → contains name visited ≡ false
    → get name reg ≡ some r
    → weight (name ∷ visited) reg + length r.parents ≤ weight visited reg
unfolding weight get
weight-visit name visited [] r n g = absurd (ground arith)
weight-visit name visited ((k, w) ∷ reg) r n g = ground (
  arith,
  string_eq.beq_iff k name,
  string_eq.beq_iff name k,
  weight-visit-le name visited reg,
  weight-visit name visited reg r n,
)

weight-parents_total : (reg : RoleRegistry) → weight [] reg ≡ parents_total reg
unfolding weight parents_total
weight-parents_total [] = refl
weight-parents_total ((k, r) ∷ reg) = omega (arith, weight-parents_total reg)

walk_total :
    (reg : RoleRegistry) (fuel : ℕ) (stack visited : List String) (perms : List Permission)
    → length stack + weight visited reg < fuel
    → (out : List Permission) × (walk reg fuel stack visited perms ≡ some out)
unfolding walk
walk_total reg zero stack visited perms h = absurd (omega arith)
walk_total reg (suc fuel) [] visited perms h = (perms, refl)
walk_total reg (suc fuel) (name ∷ stack) visited perms h =
    elim (Bool-cases (contains name visited)) [
      | inl seen ↦ rw seen (walk_total reg fuel stack visited perms (omega arith))
      | inr new ↦ elim (Option-cases (get name reg)) [
        | inl g ↦
            rw (new, g)
              (walk_total reg fuel stack (name ∷ visited) perms
                (omega (arith, weight-visit-le name visited reg)))
        | inr (r, g) ↦
            rw (new, g)
              (walk_total reg fuel (push_all r.parents stack) (name ∷ visited)
                (set_extend perms r.permissions)
                (omega
                  (arith, length-push_all r.parents stack, weight-visit name visited reg r new g)))
      ]
    ]

-- A role is reached if it is named, or is a parent of a reached role that is defined.
pub data Reach (reg : RoleRegistry) (names : List String) : String → Type 0 where
  named : {n : String} → contains n names ≡ true → Reach reg names n
  parent :
      {m : String} (n : String) (r : Role)
      → Reach reg names n
      → get n reg ≡ some r
      → contains m r.parents ≡ true
      → Reach reg names m

-- A reached role holds the permission.
pub record Granted (reg : RoleRegistry) (names : List String) (p : Permission) : Type 0 where
  pub by : String
  pub role : Role
  pub reached : Reach reg names by
  pub defined : get by reg ≡ some role
  pub holds : contains p role.permissions ≡ true

module _ (reg : RoleRegistry) (fuel : ℕ) (name : String) (stack visited : List String)
    (perms : List Permission) where
  walk-seen :
      contains name visited ≡ true
      → walk reg (suc fuel) (name ∷ stack) visited perms ≡ walk reg fuel stack visited perms
  unfolding walk
  walk-seen h = rw h refl

  walk-unknown :
      contains name visited ≡ false
      → get name reg ≡ none
      → walk reg (suc fuel) (name ∷ stack) visited perms
        ≡ walk reg fuel stack (name ∷ visited) perms
  unfolding walk
  walk-unknown h g = rw (h, g) refl

  walk-known :
      (r : Role)
      → contains name visited ≡ false
      → get name reg ≡ some r
      → walk reg (suc fuel) (name ∷ stack) visited perms
        ≡ walk reg fuel (push_all r.parents stack) (name ∷ visited) (set_extend perms r.permissions)
  unfolding walk
  walk-known r h g = rw (h, g) refl

walk_sound :
    (reg : RoleRegistry) (names : List String) (fuel : ℕ) (stack visited : List String)
    (perms out : List Permission)
    → ((n : String) → contains n stack ≡ true → Reach reg names n)
    → ((p : Permission) → contains p perms ≡ true → Granted reg names p)
    → walk reg fuel stack visited perms ≡ some out
    → (p : Permission) → contains p out ≡ true
    → Granted reg names p
unfolding walk
walk_sound reg names zero stack visited perms out s g e p c = absurd (ground arith)
walk_sound reg names (suc fuel) [] visited perms out s g e p c = g p (ground arith)
walk_sound reg names (suc fuel) (name ∷ stack) visited perms out s g e p c =
    let below : (n : String) → contains n stack ≡ true → Reach reg names n =
      λ n h. s n (ground (arith)) in
    elim (Bool-cases (contains name visited)) [
      | inl seen ↦
          walk_sound reg names fuel stack visited perms out below g
            (sym (walk-seen reg fuel name stack visited perms seen) ∙ e) p c
      | inr new ↦ elim (Option-cases (get name reg)) [
        | inl f ↦
            walk_sound reg names fuel stack (name ∷ visited) perms out below g
              (sym (walk-unknown reg fuel name stack visited perms new f) ∙ e) p c
        | inr (r, f) ↦
            let here : Reach reg names name = s name (ground (arith, ==_refl name)) in
            walk_sound reg names fuel (push_all r.parents stack) (name ∷ visited)
              (set_extend perms r.permissions) out
              (λ n h. elim (Bool-cases (contains n r.parents)) [
                | inl q ↦ parent name r here f q
                | inr q ↦ below n (ground (arith, contains-push_all n r.parents stack))
              ])
              (λ q h. elim (Bool-cases (contains q r.permissions)) [
                | inl k ↦ record { by = name; role = r; reached = here; defined = f; holds = k }
                | inr k ↦ g q (ground (arith, contains-set_extend q perms r.permissions))
              ])
              (sym (walk-known reg fuel name stack visited perms r new f) ∙ e) p c
      ]
    ]

-- What the walk has still to do: every named role, and every parent of a visited role, is visited
-- or on the stack, and the permissions of the visited roles are collected.
record Progress (reg : RoleRegistry) (names stack visited : List String) (perms : List Permission)
    : Type 0 where
  begun : (n : String) → contains n names ≡ true → (contains n visited || contains n stack) ≡ true
  pushed :
      (n m : String) (r : Role)
      → contains n visited ≡ true
      → get n reg ≡ some r
      → contains m r.parents ≡ true
      → (contains m visited || contains m stack) ≡ true
  collected :
      (n : String) (r : Role) (p : Permission)
      → contains n visited ≡ true
      → get n reg ≡ some r
      → contains p r.permissions ≡ true
      → contains p perms ≡ true

Progress-seen :
    (reg : RoleRegistry) (names stack visited : List String) (perms : List Permission)
    (name : String)
    → contains name visited ≡ true
    → Progress reg names (name ∷ stack) visited perms
    → Progress reg names stack visited perms
Progress-seen reg names stack visited perms name seen i = record {
  begun = λ n h. ground (arith, i.begun n h, string_eq.beq_iff name n);
  pushed = λ n m r v g h. ground (arith, i.pushed n m r v g h, string_eq.beq_iff name m);
  collected = i.collected;
}

Progress-unknown :
    (reg : RoleRegistry) (names stack visited : List String) (perms : List Permission)
    (name : String)
    → get name reg ≡ none
    → Progress reg names (name ∷ stack) visited perms
    → Progress reg names stack (name ∷ visited) perms
Progress-unknown reg names stack visited perms name none_there i = record {
  begun = λ n h. ground (arith, i.begun n h);
  pushed = λ n m r v g h. ground (arith, i.pushed n m r, string_eq.beq_iff name n);
  collected = λ n r p v g h. ground (arith, i.collected n r p, string_eq.beq_iff name n);
}

Progress-known :
    (reg : RoleRegistry) (names stack visited : List String) (perms : List Permission)
    (name : String) (role : Role)
    → get name reg ≡ some role
    → Progress reg names (name ∷ stack) visited perms
    → Progress reg names
        (push_all role.parents stack)
        (name ∷ visited)
        (set_extend perms role.permissions)
Progress-known reg names stack visited perms name role there i = record {
  begun = λ n h. ground (arith, i.begun n h, contains-push_all n role.parents stack);
  pushed = λ n m r v g h.
      ground
        (arith, i.pushed n m r, string_eq.beq_iff name n, contains-push_all m role.parents stack);
  collected = λ n r p v g h. ground (
    arith,
    i.collected n r p,
    string_eq.beq_iff name n,
    contains-set_extend p perms role.permissions,
  );
}

walk_complete :
    (reg : RoleRegistry) (names : List String) (fuel : ℕ) (stack visited : List String)
    (perms out : List Permission)
    → Progress reg names stack visited perms
    → walk reg fuel stack visited perms ≡ some out
    → (final : List String) × Progress reg names [] final out
unfolding walk
walk_complete reg names zero stack visited perms out i e = absurd (ground arith)
walk_complete reg names (suc fuel) [] visited perms out i e =
    (visited, subst (Progress reg names [] visited) (ground arith) i)
walk_complete reg names (suc fuel) (name ∷ stack) visited perms out i e =
    elim (Bool-cases (contains name visited)) [
      | inl seen ↦
          walk_complete reg names fuel stack visited perms out
            (Progress-seen reg names stack visited perms name seen i)
            (sym (walk-seen reg fuel name stack visited perms seen) ∙ e)
      | inr new ↦ elim (Option-cases (get name reg)) [
        | inl f ↦
            walk_complete reg names fuel stack (name ∷ visited) perms out
              (Progress-unknown reg names stack visited perms name f i)
              (sym (walk-unknown reg fuel name stack visited perms new f) ∙ e)
        | inr (r, f) ↦
            walk_complete reg names fuel (push_all r.parents stack) (name ∷ visited)
              (set_extend perms r.permissions) out
              (Progress-known reg names stack visited perms name r f i)
              (sym (walk-known reg fuel name stack visited perms r new f) ∙ e)
      ]
    ]

Reach-visited :
    (reg : RoleRegistry) (names final : List String) (out : List Permission)
    → Progress reg names [] final out
    → {n : String} → Reach reg names n
    → contains n final ≡ true
Reach-visited reg names final out i (named {n} h) = ground (arith, i.begun n h)
Reach-visited reg names final out i (parent {m} n r at g h) =
    ground (arith, i.pushed n m r (Reach-visited reg names final out i at) g h)

-- `effective_permissions` returns for every registry, cyclic inheritance and undefined names
-- included, and its result holds a permission exactly if a role that is reached from the names by
-- inheritance holds it.
pub effective_permissions_iff :
    (reg : RoleRegistry) (names : List String)
    → (out : List Permission) × (effective_permissions reg names ≡ some out)
      × ((p : Permission) → (contains p out ≡ true) ↔ Granted reg names p)
unfolding effective_permissions
effective_permissions_iff reg names =
    let stack = push_all names [] in
    let fuel = suc (length names + parents_total reg) in
    let (out, e) =
      walk_total reg fuel stack [] []
        (omega (arith, length-push_all names [], weight-parents_total reg)) in
    let (final, i) =
      walk_complete reg names fuel stack [] [] out
        (record {
          begun = λ n h. ground (arith, contains-push_all n names []);
          pushed = λ n m r v g h. absurd (ground arith);
          collected = λ n r p v g h. absurd (ground arith);
        })
        e in
    (
      out,
      e,
      λ p. (
        walk_sound reg names fuel stack [] [] out
            (λ n h. named (ground (arith, contains-push_all n names [])))
            (λ q h. absurd (ground arith)) e p,
        λ d.
            i.collected d.by d.role p (Reach-visited reg names final out i d.reached) d.defined
              d.holds,
      ),
    )
