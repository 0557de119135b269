-- ===== src/Data/Locks.antt =====
-- klauthed-data/src/locks/mod.rs: `InMemoryLockManager` and its `LockGuard`. The clock's reading
-- and the fresh id of `LockToken::new` are arguments. The guards of the Redis and MongoDB backends,
-- which cargo features add, are left out.
pub mod Exclusion
use rust_libraries.Prelude.{
  ℕ, String, Bool, true, false, Option, none, some, List, [], Result, ok, err, ltb, eqb,
  if◌then◌else◌, string_eq,
}
use rust_libraries.Prelude.Map.{Map, get, insert, remove}
use rust_libraries.Time.{Timestamp, Duration, TimeApi, checked_add}

abbrev pub LockToken : Type 0
LockToken = ℕ

-- Key, holder's token and expiry.
abbrev pub LockTable : Type 0
LockTable = Map String (LockToken × Timestamp)

pub record LockGuard : Type 0 where
  pub key : String
  pub token : LockToken
  pub released : Bool

-- `DataError::LockHeld`, with the key that its message names.
pub data LockError : Type 0 where
  lock_held : String → LockError

unfoldable pub in_memory : String → LockToken → LockGuard
in_memory key token = record { key = key; token = token; released = false }

-- Whether a table entry is of this token.
abbrev pub holds : LockToken → Option (LockToken × Timestamp) → Bool
holds token none = false
holds token (some (holder, _)) = eqb holder token

unfoldable pub release_in_memory : LockTable → String → LockToken → LockTable
release_in_memory table key token = if holds token (get key table) then remove key table else table

unfoldable pub drop_guard : LockTable → LockGuard → LockTable
unfolding release_in_memory
drop_guard table g = if g.released then table else release_in_memory table g.key g.token

-- `release` consumes the guard, whose `Drop` then runs with `released` set.
unfoldable pub release : LockTable → LockGuard → LockTable
unfolding release_in_memory drop_guard
release table g =
    if g.released
    then drop_guard table g
    else drop_guard (release_in_memory table g.key g.token) (record g { released = true })

-- Whether an entry is held by an acquisition that has not expired.
abbrev pub live_holder : Timestamp → Option (LockToken × Timestamp) → Bool
live_holder now none = false
live_holder now (some (_, expiry)) = ltb now expiry

unfoldable pub new : LockTable
new = []

unfoldable pub acquire :
    ⦃time : TimeApi⦄
    → LockTable
    → Timestamp
    → LockToken
    → String
    → Duration
    → Result LockError (LockTable × Option LockGuard)
acquire table now token key ttl = elim (checked_add now ttl) [
  | none ↦ err (lock_held key)
  | some expires_at ↦
      if live_holder now (get key table)
      then ok (table, none)
      else ok (insert key (token, expires_at) table, some (in_memory key token))
]
