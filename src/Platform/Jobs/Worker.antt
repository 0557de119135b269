-- ===== src/Platform/Jobs/Worker.antt =====
-- klauthed-platform/src/jobs/worker.rs: `JobWorker`. The handler is a function of the job and of
-- the world it acts on, and the clock gives the instant of its n-th reading.
use rust_libraries.Prelude.{
  ℕ, suc, ◌≤◌, ◌<◌, ◌≡◌, ◌⊎◌, inl, inr, refl, sym, subst, ◌∙◌, ap, false, max, String, Option, none,
  some, List, [], ◌∷◌, length, All, arith, eqb, nat_eq, Result, ok, err, length-map, length-take,
  leb, leb→le, leb→gt, Bool-cases,
}
use rust_libraries.Prelude.Map.{insert, get-insert, get-insert_self}
use rust_libraries.Time.{Timestamp, TimeApi}
use rust_libraries.Platform.Jobs.Model.{JobId, queued, succeeded, failed, EnqueuedJob}
use rust_libraries.Platform.Jobs.Queue.{
  InMemoryJobQueue, PlatformError, get_job, dequeue_due, mark_succeeded, fail_attempt, mark_failed,
  retry_at,
}
use rust_libraries.Platform.Jobs.Backoff.{Waits, retry_at-Waits}
use rust_libraries.Platform.Jobs.Claim.{IsValid, claims, Once}
use rust_libraries.Platform.Jobs.Due.{handed_out-Once, key, keys, in_order}
use rust_libraries.Platform.Jobs.Taken.{
  Ordered, Taken, Served, dequeue_due-Handed, handed_out-Served,
}

pub record JobWorker : Type 0 where
  pub batch_size : ℕ

unfoldable pub new_worker : JobWorker
new_worker = record { batch_size = 100 }

unfoldable pub with_batch_size : JobWorker → ℕ → JobWorker
with_batch_size w n = record w { batch_size = max n 1 }

-- A handler acts on the world (what it sends, writes or calls) and answers.
abbrev pub Handler : Type 0 → Type 0 → Type 0
Handler W P = EnqueuedJob P → W → W × Result String (Unit {0})

module _ {P : Type 0} ⦃time : TimeApi⦄ where
  -- The handler's answer for one job, recorded at an instant.
  unfoldable pub settle :
      Result String (Unit {0})
      → Timestamp
      → EnqueuedJob P
      → InMemoryJobQueue P
      → Result PlatformError (InMemoryJobQueue P)
  settle (ok _) now j q = mark_succeeded q j.id
  settle (err reason) now j q = mark_failed q now j.id reason

module _ {W P : Type 0} ⦃time : TimeApi⦄ where
  -- The loop over the batch; an error ends it.
  unfoldable pub process :
      Handler W P
      → (ℕ → Timestamp)
      → ℕ
      → List (EnqueuedJob P)
      → W
      → InMemoryJobQueue P
      → W × Result PlatformError (InMemoryJobQueue P)
  process handle clock n [] w q = (w, ok q)
  process handle clock n (j ∷ js) w q =
      let (v, answer) = handle j w in
      elim (settle answer (clock n) j q) [
        | ok r ↦ process handle clock (suc n) js v r
        | err e ↦ (v, err e)
      ]

  abbrev pub counted :
      ℕ
      → W × Result PlatformError (InMemoryJobQueue P)
      → W × Result PlatformError (InMemoryJobQueue P × ℕ)
  counted n (w, ok q) = (w, ok (q, n))
  counted n (w, err e) = (w, err e)

  -- `none` is the panic of `dequeue_due`.
  unfoldable pub run_once :
      JobWorker
      → Handler W P
      → (ℕ → Timestamp)
      → W
      → InMemoryJobQueue P
      → Option (W × Result PlatformError (InMemoryJobQueue P × ℕ))
  run_once worker handle clock w q = elim (dequeue_due q (clock 0) (some worker.batch_size)) [
    | none ↦ none
    | some (r, js) ↦ some (counted (length js) (process handle clock 1 js w r))
  ]

  -- The handler is called for each of these jobs once, in this order, from this world: the world
  -- afterwards.
  abbrev pub world_after : Handler W P → List (EnqueuedJob P) → W → W
  world_after handle [] w = w
  world_after handle (j ∷ js) w = world_after handle js (handle j w).0

module _ {P : Type 0} ⦃time : TimeApi⦄ where
  -- The job of a handler that failed: without an attempt left it is failed, otherwise it waits again
  -- for its time to come.
  abbrev pub Retried : Timestamp → String → EnqueuedJob P → Option (EnqueuedJob P) → Type 0
  Retried now reason j o =
      ((j.max_attempts ≤ j.attempts)
        × (o ≡ some (record j { status = failed; last_error = some reason })))
      ⊎ ((j.attempts < j.max_attempts)
          × (due : Timestamp) × (o
              ≡ some (record j { status = queued; last_error = some reason; run_at = due }))
          × Waits now j.attempts due)

  -- What a handler's answer asks of the job's entry.
  abbrev pub Settled :
      Result String (Unit {0}) → Timestamp → EnqueuedJob P → Option (EnqueuedJob P) → Type 0
  Settled (ok _) now j o = o ≡ some (record j { status = succeeded; last_error = none })
  Settled (err reason) now j o = Retried now reason j o

  fail_attempt-Retried :
      (now : Timestamp) (reason : String) (j : EnqueuedJob P)
      → Retried now reason j (some (fail_attempt now reason j))
  unfolding fail_attempt
  fail_attempt-Retried now reason j = elim (Bool-cases (leb j.max_attempts j.attempts)) [
    | inl spent ↦ inl (leb→le j.max_attempts j.attempts spent, rw spent refl)
    | inr left ↦ inr (
      leb→gt j.max_attempts j.attempts left,
      retry_at now j.attempts,
      rw left refl,
      retry_at-Waits now j.attempts,
    )
  ]

  settle_lem :
      (a : Result String (Unit {0})) (now : Timestamp) (j : EnqueuedJob P) (q : InMemoryJobQueue P)
      → get_job q j.id ≡ some j
      → (r : InMemoryJobQueue P) × (settle a now j q ≡ ok r)
        × Settled a now j (get_job r j.id)
        × ((k : JobId) → eqb j.id k ≡ false → get_job r k ≡ get_job q k)
  unfolding settle mark_succeeded mark_failed get_job
  settle_lem (ok u) now j q g =
      let w : EnqueuedJob P = record j { status = succeeded; last_error = none } in
      (
        record q { jobs = insert j.id w q.jobs },
        rw (g, mark_succeeded),
        get-insert_self j.id w q.jobs,
        λ k n. get-insert j.id k w q.jobs ∙ rw n refl,
      )
  settle_lem (err reason) now j q g =
      let w = fail_attempt now reason j in
      (
        record q { jobs = insert j.id w q.jobs },
        rw (g, mark_failed),
        subst (Retried now reason j) (sym (get-insert_self j.id w q.jobs))
            (fail_attempt-Retried now reason j),
        λ k n. get-insert j.id k w q.jobs ∙ rw n refl,
      )

  no_claim_head :
      (k : JobId) (j : EnqueuedJob P) (js : List (EnqueuedJob P))
      → claims k (keys (j ∷ js)) ≡ 0
      → (eqb j.id k ≡ false) × (claims k (keys js) ≡ 0)
  no_claim_head k j js z = ground arith

  still_stored :
      (i : JobId) (q r : InMemoryJobQueue P)
      → ((k : JobId) → eqb i k ≡ false → get_job r k ≡ get_job q k)
      → (js : List (EnqueuedJob P)) → claims i (keys js) ≡ 0
      → All (λ w. get_job q w.id ≡ some w) js
      → All (λ w. get_job r w.id ≡ some w) js
  still_stored i q r frame [] z h = tt
  still_stored i q r frame (w ∷ js) z h =
      let (ne, none_left) = no_claim_head i w js z in
      let apart : eqb i w.id ≡ false = ground arith in
      (frame w.id apart ∙ h.0, still_stored i q r frame js none_left h.1)

module _ {W P : Type 0} ⦃time : TimeApi⦄ where
  -- Every job is settled by the answer that its handler gave in the world of its turn.
  abbrev pub AllSettled :
      Handler W P → (ℕ → Timestamp) → ℕ → List (EnqueuedJob P) → W → InMemoryJobQueue P → Type 0
  AllSettled handle clock n [] w r = Unit
  AllSettled handle clock n (j ∷ js) w r =
      Settled (handle j w).1 (clock n) j (get_job r j.id)
      × AllSettled handle clock (suc n) js (handle j w).0 r

  process_lem :
      (handle : Handler W P) (clock : ℕ → Timestamp) (n : ℕ) (js : List (EnqueuedJob P)) (w : W)
      (q : InMemoryJobQueue P)
      → Once (keys js)
      → All (λ j. get_job q j.id ≡ some j) js
      → (r : InMemoryJobQueue P) × (process handle clock n js w q ≡ (world_after handle js w, ok r))
        × AllSettled handle clock n js w r
        × ((k : JobId) → claims k (keys js) ≡ 0 → get_job r k ≡ get_job q k)
  unfolding process
  process_lem handle clock n [] w q o h = (q, refl, tt, λ k z. refl)
  process_lem handle clock n (j ∷ js) w q o h =
      let (v, answer) = handle j w in
      let (r, e, done, frame) = settle_lem answer (clock n) j q h.0 in
      let stored : All (λ w. get_job r w.id ≡ some w) js = still_stored j.id q r frame js o.0 h.1 in
      let (s, f, rest, frame') = process_lem handle clock (suc n) js v r o.1 stored in
      (
        s,
        rw (e, process) f,
        (rw (frame' j.id o.0) done, rest),
        λ k z. frame' k (no_claim_head k j js z).1 ∙ frame k (no_claim_head k j js z).0,
      )

  -- A round of the worker over a valid queue returns a result: it does not panic and meets no
  -- error. The handler is called for a batch of the due jobs, each once, in their order, and for no
  -- other job; a due job is left behind only if the batch is full of jobs that are ordered before
  -- it. A job whose handler succeeds ends succeeded with no error; one whose handler fails keeps
  -- its reason and is failed if it has no attempt left, or else waits: one second after its first
  -- attempt, then twice as long each time and an hour at most, or no time where the clock would
  -- overflow. Every other job stays as it is, and the result is the number of jobs handled.
  pub run_once_lem :
      (worker : JobWorker) (handle : Handler W P) (clock : ℕ → Timestamp) (w : W)
      (q : InMemoryJobQueue P)
      → IsValid q
      → (r : InMemoryJobQueue P) × (js : List (EnqueuedJob P)) × (run_once worker handle clock w q
          ≡ some (world_after handle js w, ok (r, length js)))
        × (length js ≤ worker.batch_size)
        × Ordered (keys js)
        × All (Taken (clock 0) q) js
        × ((k : JobId) → claims k (keys js) ≤ 1)
        × Served (clock 0) worker.batch_size q js
        × AllSettled handle clock 1 js w r
        × ((k : JobId) → claims k (keys js) ≡ 0 → get_job r k ≡ get_job q k)
  unfolding run_once
  run_once_lem worker handle clock w q v =
      let now = clock 0 in
      let (t, js, e, same, (order, taken, stored, once, others), _) =
        dequeue_due-Handed q now (some worker.batch_size) v in
      let (r, f, done, frame) =
        process_lem handle clock 1 js w t
          (subst Once (sym same) (handed_out-Once now (some worker.batch_size) q v)) stored in
      (
        r,
        js,
        rw (e, run_once) (rw f),
        omega (
          arith,
          length-map key js,
          ap length same,
          length-take worker.batch_size (in_order now q),
        ),
        order,
        taken,
        once,
        handed_out-Served q now worker.batch_size js v same,
        done,
        λ k z. frame k z ∙ others k z,
      )
