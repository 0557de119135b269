-- ===== src/Platform/Jobs/Due.antt =====
-- The due jobs of a queue, and what `dequeue_due` makes of them.
use rust_libraries.Prelude.{
  ℕ, ◌≤◌, ◌≡◌, refl, ◌∙◌, ap, inl, inr, true, false, Option, none, some, List, [], ◌∷◌, map, All,
  arith, if◌then◌else◌, All-take, nat_eq, Bool-cases, All-imp, subst,
}
use rust_libraries.Prelude.Map.{Map, get, IsMap}
use rust_libraries.Prelude.Sort.{
  sort_by, tally-take-le, tally-sort_by, All-sort_by, IsSorted, sort_by-IsSorted,
}
use rust_libraries.Time.{Timestamp}
use rust_libraries.Platform.Jobs.Model.{JobId, EnqueuedJob}
use rust_libraries.Platform.Jobs.Queue.{
  InMemoryJobQueue, due_le, is_due, due_keys, truncate, start, claim, dequeue_due, get_job,
}
use rust_libraries.Platform.Jobs.Claim.{
  Keyed, IsValid, map_some, started, has_id, claims, Found, Once, claim_total,
}

due_le_trans :
    (x y z : Timestamp × JobId) → due_le x y ≡ true → due_le y z ≡ true → due_le x z ≡ true
due_le_trans (t, i) (u, j) (v, k) h g = ground arith

due_le_total : (x y : Timestamp × JobId) → due_le x y ≡ false → due_le y x ≡ true
due_le_total (t, i) (u, j) h = ground arith

-- The due jobs in the order in which they are handed out.
abbrev pub in_order : {P : Type 0} → Timestamp → InMemoryJobQueue P → List (Timestamp × JobId)
in_order now q = sort_by due_le (due_keys now q.jobs)

pub in_order-IsSorted :
    {P : Type 0} (now : Timestamp) (q : InMemoryJobQueue P) → IsSorted due_le (in_order now q)
in_order-IsSorted now q = sort_by-IsSorted due_le due_le_trans due_le_total (due_keys now q.jobs)

claims_tail :
    (k : JobId) (d : Timestamp × JobId) (ds : List (Timestamp × JobId))
    → claims k ds ≤ claims k (d ∷ ds)
claims_tail k d ds = omega arith

Once-of_claims : (ds : List (Timestamp × JobId)) → ((k : JobId) → claims k ds ≤ 1) → Once ds
Once-of_claims [] h = tt
Once-of_claims (d ∷ ds) h =
    (ground (arith, h d.1), Once-of_claims ds (λ k. omega (arith, claims_tail k d ds, h k)))

no_claims : (ds : List (Timestamp × JobId)) → ((k : JobId) → claims k ds ≡ 0) → ds ≡ []
no_claims [] h = refl
no_claims (d ∷ ds) h = absurd (ground (arith, h d.1))

module _ {P : Type 0} where
  abbrev pub due_count : Timestamp → Option (EnqueuedJob P) → ℕ
  due_count now none = 0
  due_count now (some j) = if is_due now j then 1 else 0

  Found-cons :
      (i : JobId) (j : EnqueuedJob P) (m : Map JobId (EnqueuedJob P))
      → get i m ≡ none
      → (d : Timestamp × JobId) → Found m d
      → Found ((i, j) ∷ m) d
  unfolding get
  Found-cons i j m n (t, k) (w, g, a, b) = (w, ground arith, a, b)

  pub due_keys-Found :
      (now : Timestamp) (m : Map JobId (EnqueuedJob P))
      → IsMap m
      → Keyed m
      → All (Found m) (due_keys now m)
  unfolding due_keys
  due_keys-Found now [] d k = tt
  due_keys-Found now ((i, j) ∷ m) d k =
      let rest = All-imp (Found-cons i j m d.0) (due_keys now m) (due_keys-Found now m d.1 k.1) in
      elim (Bool-cases (is_due now j)) [
        | inl p ↦ rw p ((j, unfold get in ground arith, refl, refl), rest)
        | inr p ↦ rw p rest
      ]

  claims-due_keys :
      (now : Timestamp) (k : JobId) (m : Map JobId (EnqueuedJob P))
      → IsMap m
      → Keyed m
      → claims k (due_keys now m) ≡ due_count now (get k m)
  unfolding due_keys get
  claims-due_keys now k [] d h = refl
  claims-due_keys now k ((i, j) ∷ m) d h = ground (arith, claims-due_keys now k m d.1 h.1)

  truncate-Found :
      (m : Map JobId (EnqueuedJob P)) (limit : Option ℕ) (ds : List (Timestamp × JobId))
      → All (Found m) ds
      → All (Found m) (truncate limit ds)
  truncate-Found m none ds h = h
  truncate-Found m (some n) ds h = All-take (Found m) n ds h

  abbrev pub handed_out : Timestamp → Option ℕ → InMemoryJobQueue P → List (Timestamp × JobId)
  handed_out now limit q = truncate limit (in_order now q)

  abbrev pub key : EnqueuedJob P → Timestamp × JobId
  key j = (j.run_at, j.id)

  -- The keys of the jobs in a list.
  abbrev pub keys : List (EnqueuedJob P) → List (Timestamp × JobId)
  keys = map key

  pub dequeue_due_lem :
      (q : InMemoryJobQueue P) (now : Timestamp) (limit : Option ℕ)
      → IsValid q
      → (q' : InMemoryJobQueue P) × (js : List (EnqueuedJob P)) × (dequeue_due q now limit
          ≡ some (q', js))
        × (keys js ≡ handed_out now limit q)
        × ((k : JobId) → get_job q' k ≡ started (claims k (handed_out now limit q)) (get_job q k))
        × IsValid q'
        × (q'.default_attempts ≡ q.default_attempts)
        × (Once (handed_out now limit q) → All (λ j. get_job q' j.id ≡ some j) js)
  unfolding dequeue_due get_job
  dequeue_due_lem q now limit v =
      let found : All (Found q.jobs) (handed_out now limit q) =
        truncate-Found q.jobs limit (in_order now q) (
          All-sort_by _ due_le (due_keys now q.jobs)
            (due_keys-Found now q.jobs v.distinct v.keyed)) in
      let (js, m, e, same, reads, valid, stored) =
        claim_total (handed_out now limit q) q.jobs found in
      let (d, k) = valid v.distinct v.keyed in
      (
        record q { jobs = m },
        js,
        rw (e, dequeue_due),
        same,
        reads,
        record { distinct = d; keyed = k },
        refl,
        stored,
      )

  abbrev pub start_if_due : Timestamp → EnqueuedJob P → EnqueuedJob P
  start_if_due now j = if is_due now j then start j else j

  pub claims-in_order :
      (now : Timestamp) (k : JobId) (q : InMemoryJobQueue P)
      → IsValid q
      → claims k (in_order now q) ≡ due_count now (get_job q k)
  unfolding get_job
  claims-in_order now k q v =
      tally-sort_by due_le (has_id k) (due_keys now q.jobs)
      ∙ claims-due_keys now k q.jobs v.distinct v.keyed

  pub claims-handed_out-le :
      (now : Timestamp) (limit : Option ℕ) (k : JobId) (q : InMemoryJobQueue P)
      → IsValid q
      → claims k (handed_out now limit q) ≤ due_count now (get_job q k)
  claims-handed_out-le now none k q v = omega (arith, claims-in_order now k q v)
  claims-handed_out-le now (some n) k q v =
      omega (arith, tally-take-le (has_id k) n (in_order now q), claims-in_order now k q v)

  due_count-le : (now : Timestamp) (o : Option (EnqueuedJob P)) → due_count now o ≤ 1
  due_count-le now none = omega arith
  due_count-le now (some j) = ground arith

  pub handed_out-Once :
      (now : Timestamp) (limit : Option ℕ) (q : InMemoryJobQueue P)
      → IsValid q
      → Once (handed_out now limit q)
  handed_out-Once now limit q v =
      Once-of_claims (handed_out now limit q)
        λ k. omega (arith, claims-handed_out-le now limit k q v, due_count-le now (get_job q k))

  started_due :
      (now : Timestamp) (o : Option (EnqueuedJob P))
      → started (due_count now o) o ≡ map_some (start_if_due now) o
  started_due now none = refl
  started_due now (some j) = elim (Bool-cases (is_due now j)) [ inl p ↦ rw p | inr p ↦ rw p ]

  -- Without a limit, the jobs of the queue afterwards.
  pub dequeue_due_reads :
      (q : InMemoryJobQueue P) (now : Timestamp)
      → IsValid q
      → (q' : InMemoryJobQueue P) × (js : List (EnqueuedJob P)) × (dequeue_due q now none
          ≡ some (q', js))
        × ((k : JobId) → get_job q' k ≡ map_some (start_if_due now) (get_job q k))
        × IsValid q'
  dequeue_due_reads q now v =
      let (q', js, e, _, reads, valid, _, _) = dequeue_due_lem q now none v in
      (
        q',
        js,
        e,
        λ k.
            reads k
            ∙ ap (λ n. started n (get_job q k)) (claims-in_order now k q v)
            ∙ started_due now (get_job q k),
        valid,
      )

  none_due :
      (now : Timestamp) (o : Option (EnqueuedJob P))
      → due_count now (map_some (start_if_due now) o) ≡ 0
  none_due now none = refl
  none_due now (some j) = ground arith

  nothing_due :
      (q : InMemoryJobQueue P) (now : Timestamp)
      → in_order now q ≡ []
      → dequeue_due q now none ≡ some (q, [])
  unfolding dequeue_due claim
  nothing_due q now e = rw (e, dequeue_due)

  -- In a valid queue, after a `dequeue_due` without a limit, a second one at the same instant
  -- hands out nothing and changes nothing: no job is claimed twice.
  pub dequeue_due_twice :
      (q q' : InMemoryJobQueue P) (now : Timestamp) (js : List (EnqueuedJob P))
      → IsValid q
      → dequeue_due q now none ≡ some (q', js)
      → dequeue_due q' now none ≡ some (q', [])
  dequeue_due_twice q q' now js v e =
      let (r, ks, f, reads, valid) = dequeue_due_reads q now v in
      let same : r ≡ q' = cc in
      let empty : in_order now r ≡ [] = no_claims (in_order now r) λ k.
        claims-in_order now k r valid ∙ ap (due_count now) (reads k) ∙ none_due now (get_job q k) in
      nothing_due q' now (subst (λ x. in_order now x ≡ []) same empty)
