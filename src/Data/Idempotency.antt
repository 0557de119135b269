-- ===== src/Data/Idempotency.antt =====
-- klauthed-data/src/idempotency/mod.rs: `InMemoryIdempotencyStore`. The instant of
-- `Timestamp::now` is an argument; the JSON values and their `Null` are parameters.
pub mod Replay
use rust_libraries.Prelude.{String, Option, none, some, List, [], Result, ok, err, string_eq}
use rust_libraries.Prelude.Map.{Map, get, insert}
use rust_libraries.Time.{Timestamp}

pub data IdempotencyStatus : Type 0 where
  in_progress completed : IdempotencyStatus

pub record IdempotencyRecord (V : Type 0) : Type 0 where
  pub key : String
  pub status : IdempotencyStatus
  pub response : Option V
  pub created_at : Timestamp
  pub updated_at : Timestamp

pub data Outcome (V : Type 0) : Type 0 where
  new : Outcome V
  in_progress : Outcome V
  completed : V → Outcome V

-- `DataError::Idempotency`, with the key that its message names.
pub data IdempotencyError : Type 0 where
  unknown_key : String → IdempotencyError

abbrev pub Store : Type 0 → Type 0
Store V = Map String (IdempotencyRecord V)

module _ {V : Type 0} where
  unfoldable pub new_store : Store V
  new_store = []

  abbrev pub unwrap_or : V → Option V → V
  unwrap_or d none = d
  unwrap_or d (some v) = v

  -- The record that `begin` creates.
  abbrev pub claimed : Timestamp → String → IdempotencyRecord V
  claimed now key = record {
    key = key;
    status = IdempotencyStatus.in_progress;
    response = none;
    created_at = now;
    updated_at = now;
  }

  -- The record as `complete` leaves it.
  abbrev pub finished : Timestamp → V → IdempotencyRecord V → IdempotencyRecord V
  finished now response r = record r {
    status = IdempotencyStatus.completed;
    response = some response;
    updated_at = now;
  }

  -- The branches on a record that is there.
  unfoldable pub outcome_of : V → IdempotencyStatus → IdempotencyRecord V → Outcome V
  outcome_of null IdempotencyStatus.in_progress r = Outcome.in_progress
  outcome_of null IdempotencyStatus.completed r = Outcome.completed (unwrap_or null r.response)

  unfoldable pub begin : V → Store V → Timestamp → String → Store V × Outcome V
  unfolding outcome_of
  begin null s now key = elim (get key s) [
    | some r ↦ (s, outcome_of null r.status r)
    | none ↦ (insert key (claimed now key) s, Outcome.new)
  ]

  unfoldable pub complete : Store V → Timestamp → String → V → Result IdempotencyError (Store V)
  complete s now key response = elim (get key s) [
    | some r ↦ ok (insert key (finished now response r) s)
    | none ↦ err (unknown_key key)
  ]

  unfoldable pub get_record : Store V → String → Option (IdempotencyRecord V)
  get_record s key = get key s
