-- ===== src/Examples/Events.antt =====
-- An aggregate's events at a concrete input.
use rust_libraries.Prelude.{ℕ, ◌+◌, ◌≡◌, String, some, List, [], ◌∷◌, ◌++◌, map, length, arith}
use rust_libraries.Domain.{EventEnvelope, EventLog, Aggregate, with_version}
use rust_libraries.Domain.Sequence.{
  Call, records, drains, run, recorded, numbered, number, events_numbered,
}

abbrev account : Aggregate String
account = record { id = "acct-1"; aggregate_type = "account"; event_type = λ e. e }

abbrev ids : ℕ → ℕ
ids n = 100 + n

abbrev history : List (Call String)
history =
    records "opened"
    ∷ records "credited"
    ∷ drains ids 10
    ∷ records "closed"
    ∷ drains ids 20
    ∷ records "reopened"
    ∷ []

events_numbered_example :
    (later : EventLog String) × (out : List (EventEnvelope String)) × (m : ℕ) × (run account
        (with_version 7)
        history
      ≡ some (later, out))
    × (later.version + 1 ≡ m + length later.pending)
    × (map number out ++ numbered m later.pending ≡ numbered (7 + 1) (recorded history))
events_numbered_example = events_numbered account 7 history (omega arith)
