-- ===== src/Platform/Jobs/Claim.antt =====
-- `dequeue_due` hands out the due jobs, each once, in order, and touches no other.
use rust_libraries.Prelude.{
  ℕ, zero, suc, ◌+◌, ◌≡◌, refl, ◌∙◌, ap, inl, inr, Bool, Option, none, some, List, [], ◌∷◌, map,
  All, arith, eqb, eqb_iff, if◌then◌else◌, Bool-cases, All-imp, sym, subst, nat_eq,
}
use rust_libraries.Prelude.Map.{Map, get, insert, get-insert, get-insert_self, IsMap, insert-IsMap}
use rust_libraries.Prelude.Sort.{tally}
use rust_libraries.Time.{Timestamp}
use rust_libraries.Platform.Jobs.Model.{JobId, EnqueuedJob}
use rust_libraries.Platform.Jobs.Queue.{InMemoryJobQueue, start, claim}

abbrev pub has_id : JobId → Timestamp × JobId → Bool
has_id k d = eqb d.1 k

-- How often the loop reaches the job `k`.
abbrev pub claims : JobId → List (Timestamp × JobId) → ℕ
claims k = tally (has_id k)

-- No id stands twice.
abbrev pub Once : List (Timestamp × JobId) → Type 0
Once [] = Unit
Once (d ∷ ds) = (claims d.1 ds ≡ 0) × Once ds

module _ {P : Type 0} where
  -- Every job stands under its own id, and no id stands twice.
  abbrev pub Keyed : Map JobId (EnqueuedJob P) → Type 0
  Keyed m = All (λ e. e.1.id ≡ e.0) m

  pub record IsValid (q : InMemoryJobQueue P) : Type 0 where
    pub distinct : IsMap q.jobs
    pub keyed : Keyed q.jobs

  abbrev pub map_some :
      (EnqueuedJob P → EnqueuedJob P) → Option (EnqueuedJob P) → Option (EnqueuedJob P)
  map_some f none = none
  map_some f (some j) = some (f j)

  abbrev pub started : ℕ → Option (EnqueuedJob P) → Option (EnqueuedJob P)
  started zero o = o
  started (suc n) o = started n (map_some start o)

  pub insert-Keyed :
      (k : JobId) (j : EnqueuedJob P) (m : Map JobId (EnqueuedJob P))
      → j.id ≡ k
      → Keyed m
      → Keyed (insert k j m)
  unfolding insert
  insert-Keyed k j [] e h = (e, tt)
  insert-Keyed k j ((i, w) ∷ m) e h = ground (arith, insert-Keyed k j m e)

  -- What `claim` needs of an entry: the job is there, with this time and id.
  abbrev pub Found : Map JobId (EnqueuedJob P) → Timestamp × JobId → Type 0
  Found m (t, k) = (j : EnqueuedJob P) × (get k m ≡ some j) × (j.run_at ≡ t) × (j.id ≡ k)

  Found-start :
      (m : Map JobId (EnqueuedJob P)) (i : JobId) (j : EnqueuedJob P)
      → get i m ≡ some j
      → (d : Timestamp × JobId) → Found m d
      → Found (insert i (start j) m) d
  Found-start m i j e (t, k) (w, g, a, b) = elim (Bool-cases (eqb i k)) [
    | inl p ↦ (start j, ground (arith, get-insert i k (start j) m), ground arith, ground arith)
    | inr n ↦ (w, ground (arith, get-insert i k (start j) m), a, b)
  ]

  started_here :
      (n : ℕ) (k i : JobId) (o : Option (EnqueuedJob P))
      → started ((if eqb i k then 1 else 0) + n) o
        ≡ started n (if eqb i k then map_some start o else o)
  started_here n k i o =
      let one : 1 + n ≡ suc n = omega arith in
      let nought : 0 + n ≡ n = omega arith in
      elim (Bool-cases (eqb i k)) [
        | inl p ↦ rw p (ap (λ x. started x o) one)
        | inr p ↦ rw p (ap (λ x. started x o) nought)
      ]

  get-start :
      (k i : JobId) (j : EnqueuedJob P) (m : Map JobId (EnqueuedJob P))
      → get i m ≡ some j
      → get k (insert i (start j) m) ≡ (if eqb i k then map_some start (get k m) else get k m)
  get-start k i j m e = ground (arith, get-insert i k (start j) m, eqb_iff i k)

  pub claim_total :
      (due : List (Timestamp × JobId)) (m : Map JobId (EnqueuedJob P))
      → All (Found m) due
      → (js : List (EnqueuedJob P)) × (m' : Map JobId (EnqueuedJob P)) × (claim due m
          ≡ some (js, m'))
        × (map (λ j. (j.run_at, j.id)) js ≡ due)
        × ((k : JobId) → get k m' ≡ started (claims k due) (get k m))
        × (IsMap m → Keyed m → IsMap m' × Keyed m')
        × (Once due → All (λ w. get w.id m' ≡ some w) js)
  unfolding claim
  claim_total [] m h = ([], m, refl, refl, λ k. refl, λ d h. (d, h), λ d. tt)
  claim_total ((t, i) ∷ due) m ((j, e, a, b), h) =
      let r = claim_total due (insert i (start j) m) (All-imp (Found-start m i j e) due h) in
      (
        start j ∷ r.0,
        r.1,
        rw (e, claim) (rw r.2),
        rw (r.3, a, b),
        λ k.
            r.4 k
            ∙ ap (started (claims k due)) (get-start k i j m e)
            ∙ sym (started_here (claims k due) k i (get k m)),
        λ d h. r.5 (insert-IsMap i (start j) m d) (insert-Keyed i (start j) m b h),
        λ o. (
          r.4 (start j).id
              ∙ ap (λ n. started n (get j.id (insert i (start j) m)))
                  (subst (λ x. claims x due ≡ 0) (sym b) o.0)
              ∙ subst (λ x. get j.id (insert x (start j) m) ≡ some (start j)) b
                  (get-insert_self j.id (start j) m),
          r.6 o.1,
        ),
      )
