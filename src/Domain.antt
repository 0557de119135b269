-- ===== src/Domain.antt =====
-- klauthed-core/src/domain: the event log of an aggregate (event.rs) and the draining of its events
-- as envelopes (aggregate.rs). The fresh ids of a draining
-- are an argument, by position, and the events' type names a function.
pub mod Sequence
use rust_libraries.Prelude.{
  ℕ, zero, suc, ◌+◌, ◌-◌, ◌%◌, String, Option, none, some, List, [], ◌∷◌, ◌++◌, length, leb, ltb,
  if◌then◌else◌,
}
use rust_libraries.Time.{Timestamp}

abbrev pub u64_mod : ℕ
u64_mod = 18446744073709551616

pub record EventEnvelope (E : Type 0) : Type 0 where
  pub event_id : ℕ
  pub event_type : String
  pub aggregate_id : String
  pub aggregate_type : String
  pub sequence : ℕ
  pub occurred_at : Timestamp
  pub payload : E

pub record EventLog (E : Type 0) : Type 0 where
  pub pending : List E
  pub version : ℕ

-- What an aggregate and its events say of themselves.
pub record Aggregate (E : Type 0) : Type 0 where
  pub id : String
  pub aggregate_type : String
  pub event_type : E → String

-- `end + 1 - events.len() as u64`; `none` is its overflow.
abbrev pub start_of : ℕ → ℕ → Option ℕ
start_of end len =
    if leb u64_mod (end + 1) then none else if ltb (end + 1) len then none else some (end + 1 - len)

module _ {E : Type 0} where
  unfoldable pub new : EventLog E
  new = record { pending = []; version = 0 }

  unfoldable pub with_version : ℕ → EventLog E
  with_version version = record { pending = []; version = version }

  unfoldable pub record_event : EventLog E → E → EventLog E
  record_event log event = record {
    pending = log.pending ++ event ∷ [];
    version = (log.version + 1) % u64_mod;
  }

  unfoldable pub take_events : EventLog E → EventLog E × List E
  take_events log = (record log { pending = [] }, log.pending)

  unfoldable pub envelope : Aggregate E → ℕ → ℕ → Timestamp → E → EventEnvelope E
  envelope a id sequence occurred_at payload = record {
    event_id = id;
    event_type = a.event_type payload;
    aggregate_id = a.id;
    aggregate_type = a.aggregate_type;
    sequence = sequence;
    occurred_at = occurred_at;
    payload = payload;
  }

  -- `enumerate().map(..)`, at an offset.
  unfoldable pub envelopes_from :
      Aggregate E → (ℕ → ℕ) → ℕ → ℕ → Timestamp → List E → List (EventEnvelope E)
  unfolding envelope
  envelopes_from a ids start offset at [] = []
  envelopes_from a ids start offset at (e ∷ es) =
      envelope a (ids offset) (start + offset) at e ∷ envelopes_from a ids start (suc offset) at es

  unfoldable pub drain_envelopes :
      Aggregate E → (ℕ → ℕ) → EventLog E → Timestamp → Option (EventLog E × List (EventEnvelope E))
  unfolding take_events envelopes_from
  drain_envelopes a ids log at =
      let (taken, events) = take_events log in
      elim (start_of taken.version (length events)) [
        | none ↦ none
        | some start ↦ some (taken, envelopes_from a ids start 0 at events)
      ]
