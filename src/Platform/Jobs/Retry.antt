-- ===== src/Platform/Jobs/Retry.antt =====
-- The outcome operations of the queue, and the budget of attempts over a history of calls.
use rust_libraries.Prelude.{
  ℕ, ◌≤◌, ◌<◌, ◌≡◌, String, Option, none, some, List, [], ◌∷◌, Result, ok, err, nat_eq,
}
use rust_libraries.Prelude.Map.{Map}
use rust_libraries.Time.{Timestamp, TimeApi}
use rust_libraries.Platform.Jobs.Model.{JobId, queued, failed, EnqueuedJob, u32_mod}
use rust_libraries.Platform.Jobs.Queue.{
  InMemoryJobQueue, PlatformError, get_job, enqueue, schedule, dequeue_due, mark_succeeded,
  mark_failed,
}
use rust_libraries.Platform.Jobs.Claim.{IsValid}

-- A job that still has the attempts that its status asks for.
pub record WithinBudget {P : Type 0} (j : EnqueuedJob P) : Type 0 where
  pub word : j.max_attempts < u32_mod
  pub capped : j.attempts ≤ j.max_attempts
  pub waiting : j.status ≡ queued → j.attempts < j.max_attempts
  pub exhausted : j.status ≡ failed → j.attempts ≡ j.max_attempts

pub record IsBounded {P : Type 0} (q : InMemoryJobQueue P) : Type 0 where
  pub valid : IsValid q
  pub positive : 0 < q.default_attempts
  pub word : q.default_attempts < u32_mod
  pub budget : (k : JobId) (j : EnqueuedJob P) → get_job q k ≡ some j → WithinBudget j

-- The calls of a history, but for `dequeue_stalled`. The ids are those that `JobId::new` returns.
pub data Call (P : Type 0) : Type 0 where
  enqueues : JobId → Timestamp → String → P → Call P
  schedules : JobId → String → P → Timestamp → Call P
  dequeues : Option ℕ → Call P
  succeeds : JobId → Call P
  fails : JobId → String → Call P

module _ {P : Type 0} where
  abbrev pub or_same :
      InMemoryJobQueue P → Result PlatformError (InMemoryJobQueue P) → InMemoryJobQueue P
  or_same q (ok r) = r
  or_same q (err e) = q

  abbrev pub drop_jobs :
      Option (InMemoryJobQueue P × List (EnqueuedJob P)) → Option (InMemoryJobQueue P)
  drop_jobs none = none
  drop_jobs (some (q, js)) = some q

module _ {P : Type 0} ⦃time : TimeApi⦄ where
  -- The queue after a call at an instant; an error leaves it alone, and `none` is a panic.
  pub step : InMemoryJobQueue P → Timestamp × Call P → Option (InMemoryJobQueue P)
  step q (now, enqueues id again kind payload) = some (enqueue q id now again kind payload).0
  step q (now, schedules id kind payload run_at) = some (schedule q id now kind payload run_at).0
  step q (now, dequeues limit) = drop_jobs (dequeue_due q now limit)
  step q (now, succeeds id) = some (or_same q (mark_succeeded q id))
  step q (now, fails id reason) = some (or_same q (mark_failed q now id reason))

  pub run : InMemoryJobQueue P → List (Timestamp × Call P) → Option (InMemoryJobQueue P)
  run q [] = some q
  run q (c ∷ cs) = elim (step q c) [ none ↦ none | some r ↦ run r cs ]
