-- ===== src/Platform/Jobs.antt =====
-- klauthed-platform/src/jobs: the background-job model (model.rs), the in-memory queue (queue.rs)
-- and the worker (worker.rs).
pub mod Model
pub mod Queue
pub mod Claim
pub mod Due
pub mod Taken
pub mod Backoff
pub mod Retry
pub mod Stalled
pub mod Worker
