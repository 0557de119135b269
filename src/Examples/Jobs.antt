-- ===== src/Examples/Jobs.antt =====
-- The job queue and its worker at concrete inputs.
use rust_libraries.Prelude.{
  ℕ, ◌+◌, ◌≤◌, ◌<◌, String, none, some, List, [], ◌∷◌, ◌≡◌, refl, All, arith, length, ok, err,
  nat_eq, eqb, if◌then◌else◌,
}
use rust_libraries.Prelude.Int.{pos}
use rust_libraries.Prelude.Map.{get, insert}
use rust_libraries.Prelude.Sort.{sort_by}
use rust_libraries.Time.{Timestamp}
use rust_libraries.Platform.Jobs.Model.{JobId, JobStatus, queued, running, EnqueuedJob}
use rust_libraries.Platform.Jobs.Queue.{
  InMemoryJobQueue, new, get_job, due_keys, start, claim, dequeue_due, dequeue_stalled,
}
use rust_libraries.Platform.Jobs.Claim.{IsValid, claims}
use rust_libraries.Platform.Jobs.Due.{keys}
use rust_libraries.Platform.Jobs.Taken.{
  Ordered, Taken, IsDue, Handed, Served, dequeue_due-all, dequeue_due-limit,
}
use rust_libraries.Platform.Jobs.Retry.{Call, enqueues, schedules, dequeues, succeeds, fails}
use rust_libraries.Platform.Jobs.Stalled.{dequeue_stalled_exceeds, claimed_then_stalled}
use rust_libraries.Platform.Jobs.Worker.{
  Handler, new_worker, run_once, world_after, AllSettled, run_once_lem,
}
use rust_libraries.Examples.Clock.{utc}

abbrev job : JobId → Timestamp → ℕ → JobStatus → EnqueuedJob String
job id run_at attempts status = record {
  id = id;
  kind = "mail";
  payload = "hello";
  run_at = run_at;
  attempts = attempts;
  max_attempts = 2;
  status = status;
  created_at = 0;
  last_error = none;
}

-- Jobs 7 and 8 are due at 10, job 9 is not, and job 6 is running with no attempt left.
abbrev jobs : InMemoryJobQueue String
jobs = record {
  default_attempts = 2;
  jobs =
      (8, job 8 5 0 queued)
      ∷ (9, job 9 20 0 queued)
      ∷ (7, job 7 3 1 queued)
      ∷ (6, job 6 1 2 running)
      ∷ [];
}

jobs-IsValid : IsValid jobs
unfolding get
jobs-IsValid = record {
  distinct = (refl, (refl, (refl, (refl, tt))));
  keyed = (refl, (refl, (refl, (refl, tt))));
}

dequeue_due-all_example :
    (q : InMemoryJobQueue String) × (js : List (EnqueuedJob String)) × (dequeue_due jobs 10 none
      ≡ some (q, js))
    × Handed 10 jobs q js
    × ((k : JobId) (j : EnqueuedJob String)
        → get_job jobs k ≡ some j
        → IsDue 10 j
        → claims k (keys js) ≡ 1)
    × IsValid q
dequeue_due-all_example = dequeue_due-all jobs 10 jobs-IsValid

dequeue_due-limit_example :
    (q : InMemoryJobQueue String) × (js : List (EnqueuedJob String)) × (dequeue_due jobs 10 (some 1)
      ≡ some (q, js))
    × (length js ≤ 1)
    × Handed 10 jobs q js
    × Served 10 1 jobs js
    × IsValid q
dequeue_due-limit_example = dequeue_due-limit jobs 10 1 jobs-IsValid

abbrev claimed : InMemoryJobQueue String
claimed = record {
  default_attempts = 2;
  jobs =
      (8, job 8 5 1 running)
      ∷ (9, job 9 20 0 queued)
      ∷ (7, job 7 3 2 running)
      ∷ (6, job 6 1 2 running)
      ∷ [];
}

abbrev taken : List (EnqueuedJob String)
taken = job 7 3 2 running ∷ job 8 5 1 running ∷ []

claim_run : dequeue_due jobs 10 none ≡ some (claimed, taken)
unfolding dequeue_due due_keys claim sort_by get insert
claim_run = refl

abbrev calls : List (Timestamp × Call String)
calls =
    (0, enqueues 1 1 "mail" "a")
    ∷ (1, schedules 2 "mail" "b" 5)
    ∷ (6, dequeues (some 1))
    ∷ (7, fails 1 "down")
    ∷ (8, succeeds 2)
    ∷ []

abbrev fresh : InMemoryJobQueue String
fresh = new

found_6 : get_job jobs 6 ≡ some (job 6 1 2 running)
unfolding get_job get
found_6 = refl

found_7 : get_job jobs 7 ≡ some (job 7 3 1 queued)
unfolding get_job get
found_7 = refl

dequeue_stalled_exceeds_example :
    (r : InMemoryJobQueue String) × (js : List (EnqueuedJob String)) × (w : EnqueuedJob String)
    × (dequeue_due (dequeue_stalled jobs 10 (pos 4)).0 10 none ≡ some (r, js))
    × (get_job r 6 ≡ some w)
    × (w.max_attempts < w.attempts)
dequeue_stalled_exceeds_example =
    dequeue_stalled_exceeds jobs 10 (pos 4) 6 (job 6 1 2 running) jobs-IsValid found_6 refl
      (omega arith) refl (omega arith)

claimed_then_stalled_example :
    (r : InMemoryJobQueue String) × (js : List (EnqueuedJob String)) × (w : EnqueuedJob String)
    × (dequeue_due jobs 10 none ≡ some (r, js))
    × (get_job r 7 ≡ some (start (job 7 3 1 queued)))
    × (get_job (dequeue_stalled r 10 (pos 4)).0 7 ≡ some w)
    × (w.status ≡ queued)
claimed_then_stalled_example =
    claimed_then_stalled jobs 10 (pos 4) 7 (job 7 3 1 queued) jobs-IsValid found_7 refl
      (omega arith)

-- A handler that writes down the ids it is called with, and refuses one of them.
abbrev picky : Handler (List JobId) String
picky j seen = (j.id ∷ seen, if eqb j.id 7 then err "no" else ok tt)

abbrev ticks : ℕ → Timestamp
ticks n = 10 + n

run_once_lem_example :
    (r : InMemoryJobQueue String) × (js : List (EnqueuedJob String)) × (run_once new_worker picky
        ticks [] jobs
      ≡ some (world_after picky js [], ok (r, length js)))
    × (length js ≤ new_worker.batch_size)
    × Ordered (keys js)
    × All (Taken (ticks 0) jobs) js
    × ((k : JobId) → claims k (keys js) ≤ 1)
    × Served (ticks 0) new_worker.batch_size jobs js
    × AllSettled picky ticks 1 js [] r
    × ((k : JobId) → claims k (keys js) ≡ 0 → get_job r k ≡ get_job jobs k)
run_once_lem_example = run_once_lem new_worker picky ticks [] jobs jobs-IsValid
