-- ===== src/Platform/Jobs/Queue.antt =====
-- klauthed-platform/src/jobs/queue.rs: `InMemoryJobQueue`. The clock's reading and the fresh id of
-- `JobId::new` are arguments of the operations that ask for them.
use rust_libraries.Prelude.{
  ℕ, ◌+◌, ◌-◌, ◌*◌, ◌%◌, ◌^◌, min, max, String, Bool, true, ◌&&◌, Option, none, some, List, [], ◌∷◌,
  Result, ok, err, ltb, leb, eqb, if◌then◌else◌, take, nat_eq,
}
use rust_libraries.Prelude.Int.{pos, ltb_ℤ}
use rust_libraries.Prelude.Map.{Map, get, insert}
use rust_libraries.Prelude.Sort.{sort_by}
use rust_libraries.Time.{Timestamp, Duration, TimeApi, duration_since, checked_add}
use rust_libraries.Platform.Jobs.Model.{
  JobId, queued, running, succeeded, failed, EnqueuedJob, is_queued, is_running,
  default_max_attempts, u32_mod,
}

pub data PlatformError : Type 0 where
  job_not_found : JobId → PlatformError

-- `1i64.checked_shl(exp)`: `None` from 64 on. The sign bit is out of reach of the exponents here.
abbrev checked_shl : ℕ → Option ℕ
checked_shl exp = if ltb exp 64 then some (2 ^ exp) else none

abbrev pub unwrap_or : ℕ → Option ℕ → ℕ
unwrap_or d none = d
unwrap_or d (some n) = n

abbrev pub i64_max : ℕ
i64_max = 9223372036854775807

abbrev pub nanos_per_second : ℕ
nanos_per_second = 1000000000

unfoldable pub backoff_seconds : ℕ → ℕ
backoff_seconds attempts =
    let exp = min (attempts - 1) 12 in min (unwrap_or i64_max (checked_shl exp)) 3600

unfoldable pub backoff_for_attempt : ℕ → Duration
backoff_for_attempt attempts = pos (backoff_seconds attempts * nanos_per_second)

pub record InMemoryJobQueue (P : Type 0) : Type 0 where
  pub default_attempts : ℕ
  pub jobs : Map JobId (EnqueuedJob P)

-- The order in which due jobs are handed out: by `run_at`, then by id.
abbrev pub due_le : Timestamp × JobId → Timestamp × JobId → Bool
due_le (t, i) (u, j) = if ltb t u then true else eqb t u && leb i j

abbrev pub truncate : Option ℕ → List (Timestamp × JobId) → List (Timestamp × JobId)
truncate none due = due
truncate (some limit) due = take limit due

abbrev pub Claimed : Type 0 → Type 0
Claimed P = Option (List (EnqueuedJob P) × Map JobId (EnqueuedJob P))

module _ {P : Type 0} where
  unfoldable pub with_max_attempts : ℕ → InMemoryJobQueue P
  with_max_attempts n = record { default_attempts = max n 1; jobs = [] }

  unfoldable pub new : InMemoryJobQueue P
  unfolding with_max_attempts
  new = with_max_attempts default_max_attempts

  unfoldable pub get_job : InMemoryJobQueue P → JobId → Option (EnqueuedJob P)
  get_job q id = get id q.jobs

  unfoldable pub insert_job :
      InMemoryJobQueue P
      → JobId
      → Timestamp
      → String
      → P
      → Timestamp
      → InMemoryJobQueue P × EnqueuedJob P
  insert_job q id now kind payload run_at =
      let job : EnqueuedJob P = record {
        id = id;
        kind = kind;
        payload = payload;
        run_at = run_at;
        attempts = 0;
        max_attempts = q.default_attempts;
        status = queued;
        created_at = now;
        last_error = none;
      } in
      (record q { jobs = insert id job q.jobs }, job)

  -- The clock is read for `run_at`, and again for `created_at`.
  unfoldable pub enqueue :
      InMemoryJobQueue P
      → JobId
      → Timestamp
      → Timestamp
      → String
      → P
      → InMemoryJobQueue P × EnqueuedJob P
  unfolding insert_job
  enqueue q id now then_now kind payload = insert_job q id then_now kind payload now

  unfoldable pub schedule :
      InMemoryJobQueue P
      → JobId
      → Timestamp
      → String
      → P
      → Timestamp
      → InMemoryJobQueue P × EnqueuedJob P
  unfolding insert_job
  schedule q id now kind payload run_at = insert_job q id now kind payload run_at

  abbrev pub is_due : Timestamp → EnqueuedJob P → Bool
  is_due now j = is_queued j.status && leb j.run_at now

  -- `guard.values().filter(..).map(|j| (j.run_at, j.id))`.
  unfoldable pub due_keys : Timestamp → Map JobId (EnqueuedJob P) → List (Timestamp × JobId)
  due_keys now [] = []
  due_keys now ((_, j) ∷ m) =
      let rest = due_keys now m in if is_due now j then (j.run_at, j.id) ∷ rest else rest

  -- The job as `dequeue_due` hands it out.
  abbrev pub start : EnqueuedJob P → EnqueuedJob P
  start j = record j { status = running; attempts = (j.attempts + 1) % u32_mod }

  abbrev pub prepend : EnqueuedJob P → Claimed P → Claimed P
  prepend j none = none
  prepend j (some (js, m)) = some (j ∷ js, m)

  -- The loop over the collected ids; `none` is the panic of `expect("job present")`.
  unfoldable pub claim : List (Timestamp × JobId) → Map JobId (EnqueuedJob P) → Claimed P
  claim [] m = some ([], m)
  claim ((_, id) ∷ due) m = elim (get id m) [
    | none ↦ none
    | some j ↦ prepend (start j) (claim due (insert id (start j) m))
  ]

  unfoldable pub dequeue_due :
      InMemoryJobQueue P → Timestamp → Option ℕ → Option (InMemoryJobQueue P × List (EnqueuedJob P))
  dequeue_due q now limit =
      elim (claim (truncate limit (sort_by due_le (due_keys now q.jobs))) q.jobs) [
        | none ↦ none
        | some (js, m) ↦ some (record q { jobs = m }, js)
      ]

  unfoldable pub mark_succeeded :
      InMemoryJobQueue P → JobId → Result PlatformError (InMemoryJobQueue P)
  mark_succeeded q id = elim (get id q.jobs) [
    | none ↦ err (job_not_found id)
    | some j ↦
        ok (record q {
          jobs = insert id (record j { status = succeeded; last_error = none }) q.jobs;
        })
  ]

module _ ⦃time : TimeApi⦄ where
  -- `now.checked_add(delay).unwrap_or(now)`.
  abbrev pub retry_at : Timestamp → ℕ → Timestamp
  retry_at now attempts = unwrap_or now (checked_add now (backoff_for_attempt attempts))

module _ {P : Type 0} ⦃time : TimeApi⦄ where
  -- The body of `mark_failed`, on the job found.
  unfoldable pub fail_attempt : Timestamp → String → EnqueuedJob P → EnqueuedJob P
  fail_attempt now reason j =
      if leb j.max_attempts j.attempts
      then record j { last_error = some reason; status = failed }
      else record j { last_error = some reason; run_at = retry_at now j.attempts; status = queued }

  unfoldable pub mark_failed :
      InMemoryJobQueue P → Timestamp → JobId → String → Result PlatformError (InMemoryJobQueue P)
  mark_failed q now id reason = elim (get id q.jobs) [
    | none ↦ err (job_not_found id)
    | some j ↦ ok (record q { jobs = insert id (fail_attempt now reason j) q.jobs })
  ]

  abbrev pub is_stalled : Timestamp → Duration → EnqueuedJob P → Bool
  is_stalled now stall_after j =
      is_running j.status && ltb_ℤ stall_after (duration_since now j.run_at)

  abbrev pub recover : Timestamp → Duration → EnqueuedJob P → EnqueuedJob P
  recover now stall_after j =
      if is_stalled now stall_after j then record j { status = queued; run_at = now } else j

  -- The loop over `values_mut`: the new map, and the copies pushed in the map's order.
  unfoldable pub recover_all :
      Timestamp
      → Duration
      → Map JobId (EnqueuedJob P)
      → Map JobId (EnqueuedJob P) × List (EnqueuedJob P)
  recover_all now stall_after [] = ([], [])
  recover_all now stall_after ((id, j) ∷ m) =
      let (m', recovered) = recover_all now stall_after m in
      (
        (id, recover now stall_after j) ∷ m',
        if is_stalled now stall_after j then recover now stall_after j ∷ recovered else recovered,
      )

  unfoldable pub dequeue_stalled :
      InMemoryJobQueue P → Timestamp → Duration → InMemoryJobQueue P × List (EnqueuedJob P)
  unfolding recover_all
  dequeue_stalled q now stall_after =
      let (m, recovered) = recover_all now stall_after q.jobs in (record q { jobs = m }, recovered)
