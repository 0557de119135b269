-- ===== src/Lib.antt =====
-- A verification library for the klauthed Rust workspace: in-memory models of its state-keeping
-- components, and what makes them correct.
--
-- The parts, and the files that model them (paths from the repository's root):
-- - Prelude: lists, sets, association lists (`HashMap`, `BTreeMap`), sorting, signed integers and
--   results, shared by all. Time: klauthed-core/src/time, instants as nanoseconds since the
--   earliest one; the `time` crate is the record `TimeApi`, whose fields state what the code relies
--   on.
-- - Category: klauthed-error/src/category, the statuses of the error categories.
-- - Domain: klauthed-core/src/domain, the event log of an aggregate and the numbering of its
--   events.
-- - Platform.Jobs: klauthed-platform/src/jobs. Model is the job (model.rs), Queue the in-memory
--   queue (queue.rs: `enqueue`, `schedule`, `dequeue_due`, `mark_succeeded`, `mark_failed`,
--   `dequeue_stalled`) and Worker the worker that drains it (worker.rs: `run_once`), with a handler
--   that acts on a world of its own. Claim, Due, Taken, Retry, Backoff and Stalled hold the
--   theorems. Platform.Cron: klauthed-platform/src/cron.rs, the
--   parser (Parse), the matching of a schedule and the search for its next occurrence; the calendar is the record
--   `CalendarApi`.
-- - Data: the crate klauthed-data. Locks (locks/mod.rs: `acquire`, `release`, the guard's `Drop`),
--   Idempotency (idempotency/mod.rs: `begin`, `complete`), RateLimit (rate_limit/memory.rs: the
--   fixed window), Saga (saga/mod.rs: `execute`), Outbox (outbox/mod.rs and relay.rs: `drain`),
--   Pagination.Offset (pagination/offset.rs).
-- - Discovery: the crate klauthed-discovery, with Instance (instance.rs), Registry (registry.rs)
--   and the round-robin Picker (picker.rs).
-- - Security: the crate klauthed-security. Authz (authz: permissions, roles, the authorizer and
--   attribute-based policies), RefreshToken (refresh_token), AuthCode (authz_code, with PKCE),
--   Session (session), Revocation (revocation), Recovery (mfa/recovery.rs), Compare
--   (compare/equal.rs), Client (oauth2_client), Claims (jwt/claims.rs) and Error (the error enum).
-- - Web.OAuth: klauthed-web/src/oauth, the OAuth 2.0 server that composes the stores of Security.
--   Messages are the requests and answers (klauthed-protocol/src/oauth2), Config the configuration,
--   Url the redirects (util.rs), Authorize and Token the endpoints of handlers.rs, Client their
--   shared helpers, Manage the revocation and introspection endpoints (manage.rs). Flow is the
--   monad in which a handler's body returns early. Config takes each store as a record of
--   operations on one state; Memory fills the records with the in-memory stores, and Server puts
--   the endpoints together. A body that ends with `ok` is one that reached its last answer.
-- - Platform.Flags: klauthed-platform/src/featureflag/memory.rs (`is_enabled`, `variant`);
--   Platform.Metering: klauthed-platform/src/metering/memory.rs (`record`, `usage`, `reset`);
--   Platform.Tenancy: klauthed-platform/src/tenancy, the tenant and the in-memory resolver.
-- - Config: klauthed-core/src/config/map.rs (`merge`, `merge_value`, `expand_dotted`); a dotted path
--   is split into its segments before `insert_nested` walks along it.
-- - Validation: klauthed-core/src/validation/errors.rs, the collection of validation errors.
-- - I18n: the crate klauthed-i18n, with Locale (locale.rs), Catalog (catalog.rs, `flatten`, `merge`),
--   Format (format.rs: `interpolate`, one turn of its loop for each character, with the inner loop
--   as a mode) and Messages (lib.rs: `add_catalog`, `resolve`, `translate_with`).
-- - Web.Resilience: klauthed-web/src/resilience, Breaker (circuit_breaker.rs: `allow`, `call`,
--   `record_success`, `record_failure`) with its specification in Spec, and Retry (retry.rs).
--   Web.Cors: klauthed-web/src/cors/registry.rs.
-- - Examples: test data, and each result at a concrete input.
--
-- A component's state is a record or a map, and an operation takes it and returns the new one, with
-- the answer, without the `Ok` where it cannot fail; the readings of the clock, fresh ids and
-- random tokens are arguments, in the order in which the code asks for them. An error is a value of
-- `Result`, and a panic is `none`. A mutex makes each operation atomic, so an execution is a
-- sequence of calls: the histories of Retry, Exclusion, Replay, Families, Exchange, Denylist, Spent
-- and Sequence are lists of such calls.
--
-- `walk`, the loop of `effective_permissions`, runs on fuel: one unit for each pop. Every name that
-- is popped was named or pushed as a parent of a role on its first visit, so the names and the
-- parents of all roles bound the pops. The loops that are not named here are structural. Counters
-- wrap as in a release build of the source: attempts at 2^32, an event log's version and the
-- picker's counter at 2^64; the numbering of a draining that overflows is a panic, `none`, as in a
-- debug build, which a theorem about it excludes by a bound on the version.
--
-- The `search_from` loop runs on the source's own bound of 5 * 366 days of minutes, and `fill`, the
-- loop of `parse_field`, on 257 passes, since each takes a `u8` up by at least one. The retry loop
-- runs on fuel, of which max(max_attempts, 1) is enough.
--
-- Not modelled: the SQL, Redis, MongoDB and message-broker backends, HTTP, the providers of
-- the configuration and telemetry, which are I/O or call other crates; cryptography (AEAD, JWT signatures, PASETO,
-- password hashes, TOTP, passkeys), which is in other crates, taken as parameters where a handler
-- calls it; the token bucket of the rate limiter, which
-- counts in floating point; and the formatting of texts.
pub mod Prelude
pub mod Time
pub mod Web
pub mod Category
pub mod Domain
pub mod Platform
pub mod Data
pub mod Security
pub mod Examples
pub mod Discovery
pub mod I18n
pub mod Config
pub mod Validation
