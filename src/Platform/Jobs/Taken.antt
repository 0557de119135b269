-- ===== src/Platform/Jobs/Taken.antt =====
-- What `dequeue_due` hands out, said without its loop: which jobs, in which order, and how they are
-- marked.
use rust_libraries.Prelude.{
  ℕ, zero, suc, ◌+◌, ◌%◌, ◌≤◌, ◌<◌, ◌≡◌, ◌↔◌, ◌⊎◌, refl, ◌∙◌, ap, sym, subst, inl, inr, Bool, true,
  Option, none, some, List, [], ◌∷◌, length, take, drop, All, All-imp, arith, eqb, length-map,
  length-take, nat_eq, Bool-cases,
}
use rust_libraries.Prelude.Map.{Map, get}
use rust_libraries.Prelude.Sort.{
  tally, All-sort_by, IsSorted, take-IsSorted, take_before_drop, All-drop,
}
use rust_libraries.Time.{Timestamp}
use rust_libraries.Platform.Jobs.Model.{JobId, JobStatus, EnqueuedJob, queued, running, is_queued}
use rust_libraries.Platform.Jobs.Queue.{
  InMemoryJobQueue, due_le, is_due, due_keys, start, dequeue_due, get_job,
}
use rust_libraries.Platform.Jobs.Claim.{IsValid, started, has_id, claims, Found}
use rust_libraries.Platform.Jobs.Due.{
  due_count, in_order, in_order-IsSorted, key, keys, handed_out, handed_out-Once, claims-in_order,
  claims-handed_out-le, due_keys-Found, dequeue_due_lem,
}

-- The order of the jobs: by `run_at`, then by id.
abbrev pub Before : Timestamp × JobId → Timestamp × JobId → Type 0
Before (t, i) (u, j) = (t < u) ⊎ ((t ≡ u) × (i ≤ j))

due_le-Before : (x y : Timestamp × JobId) → due_le x y ≡ true → Before x y
due_le-Before (t, i) (u, j) e = elim (Bool-cases (eqb t u)) [
  | inl same ↦ inr (ground arith, ground arith)
  | inr apart ↦ inl (ground arith)
]

abbrev pub Ordered : List (Timestamp × JobId) → Type 0
Ordered [] = Unit
Ordered (x ∷ xs) = All (Before x) xs × Ordered xs

IsSorted-Ordered : (xs : List (Timestamp × JobId)) → IsSorted due_le xs → Ordered xs
IsSorted-Ordered [] h = tt
IsSorted-Ordered (x ∷ xs) h = (All-imp (due_le-Before x) xs h.0, IsSorted-Ordered xs h.1)

is_queued-queued : (s : JobStatus) → (is_queued s ≡ true) ↔ (s ≡ queued)
is_queued-queued s = ground arith

tally-take-drop :
    (p : Timestamp × JobId → Bool) (n : ℕ) (xs : List (Timestamp × JobId))
    → tally p xs ≡ tally p (take n xs) + tally p (drop n xs)
tally-take-drop p zero xs = omega arith
tally-take-drop p (suc n) [] = omega arith
tally-take-drop p (suc n) (x ∷ xs) = omega (arith, tally-take-drop p n xs)

nothing_left_or_full :
    (n : ℕ) (xs : List (Timestamp × JobId)) → (drop n xs ≡ []) ⊎ (length (take n xs) ≡ n)
nothing_left_or_full zero xs = inr refl
nothing_left_or_full (suc n) [] = inl refl
nothing_left_or_full (suc n) (x ∷ xs) = elim (nothing_left_or_full n xs) [
  | inl e ↦ inl e
  | inr e ↦ inr (ground arith)
]

module _ {P : Type 0} where
  -- A job waits to be run, and its time has come.
  abbrev pub IsDue : Timestamp → EnqueuedJob P → Type 0
  IsDue now j = (j.status ≡ queued) × (j.run_at ≤ now)

  is_due-IsDue : (now : Timestamp) (j : EnqueuedJob P) → (is_due now j ≡ true) ↔ IsDue now j
  is_due-IsDue now j = ground (arith, is_queued-queued j.status)

  -- A job that was handed out: one that was due, now running, with one attempt more in a `u32`.
  abbrev pub Taken : Timestamp → InMemoryJobQueue P → EnqueuedJob P → Type 0
  Taken now q w =
      (j : EnqueuedJob P) × (get_job q w.id ≡ some j)
      × IsDue now j
      × (w ≡ record j { status = running; attempts = (j.attempts + 1) % 4294967296 })

  started_once :
      (now : Timestamp) (n : ℕ) (o : Option (EnqueuedJob P)) (w : EnqueuedJob P)
      → started n o ≡ some w
      → 1 ≤ n
      → n ≤ due_count now o
      → (j : EnqueuedJob P) × (o ≡ some j) × IsDue now j × (w ≡ start j)
  started_once now zero o w e low high = absurd (omega arith)
  started_once now (suc n) none w e low high = absurd (omega arith)
  started_once now (suc zero) (some j) w e low high = elim (Bool-cases (is_due now j)) [
    | inl due ↦ (j, refl, (is_due-IsDue now j).0 due, ground arith)
    | inr not_due ↦ absurd (ground arith)
  ]
  started_once now (suc (suc n)) (some j) w e low high = absurd (ground arith)

  claims_own :
      (js ks : List (EnqueuedJob P))
      → ((k : JobId) → claims k (keys js) ≤ claims k (keys ks))
      → All (λ w. 1 ≤ claims w.id (keys ks)) js
  claims_own [] ks h = tt
  claims_own (j ∷ js) ks h = (ground (arith, h j.id), claims_own js ks (λ k. omega (arith, h k)))

  each_marked :
      (now : Timestamp) (q q' : InMemoryJobQueue P) (ds : List (Timestamp × JobId))
      (js : List (EnqueuedJob P))
      → ((k : JobId) → get_job q' k ≡ started (claims k ds) (get_job q k))
      → ((k : JobId) → claims k ds ≤ due_count now (get_job q k))
      → All (λ w. get_job q' w.id ≡ some w) js
      → All (λ w. 1 ≤ claims w.id ds) js
      → All (Taken now q) js
  each_marked now q q' ds [] reads due stored own = tt
  each_marked now q q' ds (w ∷ js) reads due stored own = (
    started_once now (claims w.id ds) (get_job q w.id) w (sym (reads w.id) ∙ stored.0) own.0
        (due w.id),
    each_marked now q q' ds js reads due stored.1 own.1,
  )

  at_key :
      (R : Timestamp × JobId → Type 0) (m : Map JobId (EnqueuedJob P)) (k : JobId)
      (j : EnqueuedJob P) (ds : List (Timestamp × JobId))
      → get k m ≡ some j
      → All (Found m) ds
      → All R ds
      → 1 ≤ claims k ds
      → R (key j)
  at_key R m k j [] g found r low = absurd (omega arith)
  at_key R m k j ((t, i) ∷ ds) g ((w, at, on_time, own), found) (here, r) low =
      elim (Bool-cases (eqb i k)) [
        | inl same ↦ let stored : w ≡ j = ground arith in subst R (ground arith) here
        | inr apart ↦ at_key R m k j ds g found r (ground arith)
      ]

  -- The jobs that were handed out were due, each is stored as it was handed out, and nothing else
  -- has changed.
  abbrev pub Handed :
      Timestamp → InMemoryJobQueue P → InMemoryJobQueue P → List (EnqueuedJob P) → Type 0
  Handed now q q' js =
      Ordered (keys js)
      × All (Taken now q) js
      × All (λ w. get_job q' w.id ≡ some w) js
      × ((k : JobId) → claims k (keys js) ≤ 1)
      × ((k : JobId) → claims k (keys js) ≡ 0 → get_job q' k ≡ get_job q k)

  due_once :
      (now : Timestamp) (o : Option (EnqueuedJob P)) (j : EnqueuedJob P)
      → o ≡ some j
      → IsDue now j
      → due_count now o ≡ 1
  due_once now none j e due = absurd (ground arith)
  due_once now (some w) j e due = ground (arith, is_due-IsDue now j)

  due_at_most_once : (now : Timestamp) (o : Option (EnqueuedJob P)) → due_count now o ≤ 1
  due_at_most_once now none = omega arith
  due_at_most_once now (some j) = ground arith

  handed_out-IsSorted :
      (now : Timestamp) (limit : Option ℕ) (q : InMemoryJobQueue P)
      → IsSorted due_le (handed_out now limit q)
  handed_out-IsSorted now none q = in_order-IsSorted now q
  handed_out-IsSorted now (some n) q =
      take-IsSorted due_le n (in_order now q) (in_order-IsSorted now q)

  pub dequeue_due-Handed :
      (q : InMemoryJobQueue P) (now : Timestamp) (limit : Option ℕ)
      → IsValid q
      → (q' : InMemoryJobQueue P) × (js : List (EnqueuedJob P)) × (dequeue_due q now limit
          ≡ some (q', js))
        × (keys js ≡ handed_out now limit q)
        × Handed now q q' js
        × IsValid q'
  dequeue_due-Handed q now limit v =
      let (q', js, e, same, reads, valid, _, stored) = dequeue_due_lem q now limit v in
      let kept = stored (handed_out-Once now limit q v) in
      let due : (k : JobId) → claims k (handed_out now limit q) ≤ due_count now (get_job q k) =
        λ k. claims-handed_out-le now limit k q v in
      (
        q',
        js,
        e,
        same,
        (
          IsSorted-Ordered (keys js) (rw same (handed_out-IsSorted now limit q)),
          each_marked now q q' (handed_out now limit q) js reads due kept (
              subst (λ ds. All (λ w. 1 ≤ claims w.id ds) js) same
                (claims_own js js (λ k. omega arith))),
          kept,
          λ k. omega (arith, ap (claims k) same, due k, due_at_most_once now (get_job q k)),
          λ k z. reads k ∙ ap (λ n. started n (get_job q k)) (sym (ap (claims k) same) ∙ z),
        ),
        valid,
      )

  -- Without a limit, `dequeue_due` of a valid queue does not panic. It hands out every due job
  -- (queued, with `run_at` not after now) once and no other, ordered by `run_at` and then id, each
  -- marked running with one attempt more; each is stored as it is handed out, every other job
  -- stays as it is, and the queue stays valid.
  pub dequeue_due-all :
      (q : InMemoryJobQueue P) (now : Timestamp)
      → IsValid q
      → (q' : InMemoryJobQueue P) × (js : List (EnqueuedJob P)) × (dequeue_due q now none
          ≡ some (q', js))
        × Handed now q q' js
        × ((k : JobId) (j : EnqueuedJob P)
            → get_job q k ≡ some j
            → IsDue now j
            → claims k (keys js) ≡ 1)
        × IsValid q'
  dequeue_due-all q now v =
      let (q', js, e, same, handed, valid) = dequeue_due-Handed q now none v in
      (
        q',
        js,
        e,
        handed,
        λ k j g due.
            ap (claims k) same ∙ claims-in_order now k q v ∙ due_once now (get_job q k) j g due,
        valid,
      )

  All-key :
      (R : Timestamp × JobId → Type 0) (js : List (EnqueuedJob P))
      → All R (keys js)
      → All (λ w. R (key w)) js
  All-key R [] h = tt
  All-key R (j ∷ js) h = (h.0, All-key R js h.1)

  -- A due job is handed out, or the batch is full of jobs that are ordered before it.
  abbrev pub Served : Timestamp → ℕ → InMemoryJobQueue P → List (EnqueuedJob P) → Type 0
  Served now limit q js =
      (k : JobId) (j : EnqueuedJob P)
      → get_job q k ≡ some j
      → IsDue now j
      → (claims k (keys js) ≡ 1) ⊎ ((length js ≡ limit) × All (λ w. Before (key w) (key j)) js)

  behind :
      (q : InMemoryJobQueue P) (now : Timestamp) (limit : ℕ) (k : JobId) (j : EnqueuedJob P)
      → IsValid q
      → get_job q k ≡ some j
      → 1 ≤ claims k (drop limit (in_order now q))
      → All (λ x. Before x (key j)) (take limit (in_order now q))
  unfolding get_job
  behind q now limit k j v g low =
      let found : All (Found q.jobs) (drop limit (in_order now q)) =
        All-drop (Found q.jobs) limit (in_order now q) (
          All-sort_by _ due_le (due_keys now q.jobs)
            (due_keys-Found now q.jobs v.distinct v.keyed)) in
      All-imp
        (λ x h.
          due_le-Before x (key j) (
            at_key (λ y. due_le x y ≡ true) q.jobs k j (drop limit (in_order now q)) g found h low))
        (take limit (in_order now q))
        (take_before_drop due_le limit (in_order now q) (in_order-IsSorted now q))

  full :
      (q : InMemoryJobQueue P) (now : Timestamp) (limit : ℕ) (k : JobId)
      → 1 ≤ claims k (drop limit (in_order now q))
      → length (take limit (in_order now q)) ≡ limit
  full q now limit k low = elim (nothing_left_or_full limit (in_order now q)) [
    | inl none_left ↦ absurd (omega (arith, ap (claims k) none_left))
    | inr e ↦ e
  ]

  pub handed_out-Served :
      (q : InMemoryJobQueue P) (now : Timestamp) (limit : ℕ) (js : List (EnqueuedJob P))
      → IsValid q
      → keys js ≡ handed_out now (some limit) q
      → Served now limit q js
  handed_out-Served q now limit js v same k j g due =
      let D = in_order now q in
      let once : claims k D ≡ 1 = claims-in_order now k q v ∙ due_once now (get_job q k) j g due in
      elim (Bool-cases (eqb (claims k (drop limit D)) 0)) [
        | inl none_left ↦
            inl (ground (arith, ap (claims k) same, tally-take-drop (has_id k) limit D))
        | inr some_left ↦
            let low : 1 ≤ claims k (drop limit D) = ground arith in
            inr (
              sym (length-map key js) ∙ ap length same ∙ full q now limit k low,
              All-key (λ x. Before x (key j)) js
                  (subst (All (λ x. Before x (key j))) (sym same) (behind q now limit k j v g low)),
            )
      ]

  -- With a limit, `dequeue_due` of a valid queue does not panic, hands out at most that many jobs,
  -- each due and once, ordered by `run_at` and then id and marked running with one attempt more,
  -- and changes no other job; a due job is left behind only if the batch is full of jobs that are
  -- ordered before it.
  pub dequeue_due-limit :
      (q : InMemoryJobQueue P) (now : Timestamp) (limit : ℕ)
      → IsValid q
      → (q' : InMemoryJobQueue P) × (js : List (EnqueuedJob P)) × (dequeue_due q now (some limit)
          ≡ some (q', js))
        × (length js ≤ limit)
        × Handed now q q' js
        × Served now limit q js
        × IsValid q'
  dequeue_due-limit q now limit v =
      let (q', js, e, same, handed, valid) = dequeue_due-Handed q now (some limit) v in
      (
        q',
        js,
        e,
        omega (arith, length-map key js, ap length same, length-take limit (in_order now q)),
        handed,
        handed_out-Served q now limit js v same,
        valid,
      )
