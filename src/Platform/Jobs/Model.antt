-- ===== src/Platform/Jobs/Model.antt =====
-- klauthed-platform/src/jobs/model.rs. A `JobId` is the 128-bit number of its UUID, whose order is
-- the order of the id. The JSON payload is a type parameter.
use rust_libraries.Prelude.{ℕ, String, Bool, true, false, Option}
use rust_libraries.Time.{Timestamp}

abbrev pub JobId : Type 0
JobId = ℕ

pub data JobStatus : Type 0 where
  queued running succeeded failed : JobStatus

abbrev pub is_queued : JobStatus → Bool
is_queued queued = true
is_queued _ = false

abbrev pub is_running : JobStatus → Bool
is_running running = true
is_running _ = false

unfoldable pub is_terminal : JobStatus → Bool
is_terminal succeeded = true
is_terminal failed = true
is_terminal _ = false

pub record EnqueuedJob (P : Type 0) : Type 0 where
  pub id : JobId
  pub kind : String
  pub payload : P
  pub run_at : Timestamp
  pub attempts : ℕ
  pub max_attempts : ℕ
  pub status : JobStatus
  pub created_at : Timestamp
  pub last_error : Option String

abbrev pub default_max_attempts : ℕ
default_max_attempts = 5

abbrev pub u32_mod : ℕ
u32_mod = 4294967296
