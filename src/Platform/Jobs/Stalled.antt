-- ===== src/Platform/Jobs/Stalled.antt =====
-- `dequeue_stalled` of klauthed-platform/src/jobs/queue.rs, which gives running jobs back.
use rust_libraries.Prelude.{
  ◌+◌, ◌<◌, ◌≡◌, refl, ◌∙◌, ap, true, Option, none, some, List, [], ◌∷◌, All, arith, nat_eq,
}
use rust_libraries.Prelude.Int.{◌<ℤ◌}
use rust_libraries.Prelude.Map.{Map, get, map_values, get-map_values, map_values-IsMap}
use rust_libraries.Time.{Timestamp, Duration, TimeApi, duration_since}
use rust_libraries.Platform.Jobs.Model.{JobId, queued, running, EnqueuedJob, u32_mod}
use rust_libraries.Platform.Jobs.Queue.{
  InMemoryJobQueue, get_job, is_due, start, dequeue_due, recover, recover_all, dequeue_stalled,
}
use rust_libraries.Platform.Jobs.Claim.{Keyed, IsValid, map_some}
use rust_libraries.Platform.Jobs.Due.{dequeue_due_reads, start_if_due}

map_some_lem :
    {P : Type 0} (f : EnqueuedJob P → EnqueuedJob P) (o : Option (EnqueuedJob P))
    → ◌≡◌ {A = Option (EnqueuedJob P)} (elim o [ none ↦ none | some v ↦ some (f v) ]) (map_some f o)
map_some_lem f none = refl
map_some_lem f (some j) = refl

module _ {P : Type 0} ⦃time : TimeApi⦄ where
  recover_all-map :
      (now : Timestamp) (after : Duration) (m : Map JobId (EnqueuedJob P))
      → (recover_all now after m).0 ≡ map_values (recover now after) m
  unfolding recover_all map_values
  recover_all-map now after [] = refl
  recover_all-map now after ((i, j) ∷ m) =
      ap (λ r. (i, recover now after j) ∷ r) (recover_all-map now after m)

  recover_all-Keyed :
      (now : Timestamp) (after : Duration) (m : Map JobId (EnqueuedJob P))
      → Keyed m
      → Keyed (recover_all now after m).0
  unfolding recover_all
  recover_all-Keyed now after [] k = tt
  recover_all-Keyed now after ((i, j) ∷ m) k = ground (arith, recover_all-Keyed now after m k.1)

  recovered_queued :
      (now : Timestamp) (after : Duration) (m : Map JobId (EnqueuedJob P))
      → All (λ j. (j.status ≡ queued) × (j.run_at ≡ now)) (recover_all now after m).1
  unfolding recover_all
  recovered_queued now after [] = tt
  recovered_queued now after ((i, j) ∷ m) = ground (arith, recovered_queued now after m)

  -- `dequeue_stalled` re-queues, due at once, exactly the running jobs whose `run_at` lies more
  -- than `after` back; every other job stays as it is, the jobs that it returns are queued and due,
  -- and the queue stays valid.
  pub dequeue_stalled_lem :
      (q : InMemoryJobQueue P) (now : Timestamp) (after : Duration)
      → IsValid q
      → ((k : JobId)
          → get_job (dequeue_stalled q now after).0 k ≡ map_some (recover now after) (get_job q k))
        × All (λ j. (j.status ≡ queued) × (j.run_at ≡ now)) (dequeue_stalled q now after).1
        × IsValid (dequeue_stalled q now after).0
  unfolding dequeue_stalled get_job
  dequeue_stalled_lem q now after v = (
    λ k.
        ap (get k) (recover_all-map now after q.jobs)
        ∙ get-map_values (recover now after) k q.jobs
        ∙ map_some_lem (recover now after) (get k q.jobs),
    recovered_queued now after q.jobs,
    record {
      distinct =
          rw (recover_all-map now after q.jobs)
            (map_values-IsMap (recover now after) q.jobs v.distinct);
      keyed = recover_all-Keyed now after q.jobs v.keyed;
    },
  )

  -- A stalled job that has used its last attempt is attempted once more: in a valid queue, the
  -- `dequeue_due` after `dequeue_stalled` hands it out with more attempts than its
  -- `max_attempts`, if these and one more fit a `u32`.
  pub dequeue_stalled_exceeds :
      (q : InMemoryJobQueue P) (now : Timestamp) (after : Duration) (k : JobId) (j : EnqueuedJob P)
      → IsValid q
      → get_job q k ≡ some j
      → j.status ≡ running
      → after <ℤ duration_since now j.run_at
      → j.attempts ≡ j.max_attempts
      → j.max_attempts + 1 < u32_mod
      → (r : InMemoryJobQueue P) × (js : List (EnqueuedJob P)) × (w : EnqueuedJob P) × (dequeue_due
            (dequeue_stalled q now after).0
            now
            none
          ≡ some (r, js))
        × (get_job r k ≡ some w)
        × (w.max_attempts < w.attempts)
  dequeue_stalled_exceeds q now after k j v g s t full word =
      let (reads, _, valid) = dequeue_stalled_lem q now after v in
      let (r, js, e, claimed, _) = dequeue_due_reads (dequeue_stalled q now after).0 now valid in
      (
        r,
        js,
        start_if_due now (recover now after j),
        e,
        claimed k
            ∙ ap (map_some (start_if_due now)) (reads k ∙ ap (map_some (recover now after)) g),
        ground arith,
      )

  -- In a valid queue, a due job whose `run_at` lies more than `after` back is taken for stalled
  -- at the instant of its claim: a `dequeue_stalled` right behind its `dequeue_due` re-queues it,
  -- however short a time it has been running.
  pub claimed_then_stalled :
      (q : InMemoryJobQueue P) (now : Timestamp) (after : Duration) (k : JobId) (j : EnqueuedJob P)
      → IsValid q
      → get_job q k ≡ some j
      → is_due now j ≡ true
      → after <ℤ duration_since now j.run_at
      → (r : InMemoryJobQueue P) × (js : List (EnqueuedJob P)) × (w : EnqueuedJob P) × (dequeue_due
            q now none
          ≡ some (r, js))
        × (get_job r k ≡ some (start j))
        × (get_job (dequeue_stalled r now after).0 k ≡ some w)
        × (w.status ≡ queued)
  claimed_then_stalled q now after k j v g d t =
      let (r, js, e, claimed, valid) = dequeue_due_reads q now v in
      let found : get_job r k ≡ some (start j) =
        claimed k ∙ ap (map_some (start_if_due now)) g ∙ rw d refl in
      (
        r,
        js,
        recover now after (start j),
        e,
        found,
        (dequeue_stalled_lem r now after valid).0 k ∙ ap (map_some (recover now after)) found,
        ground arith,
      )
