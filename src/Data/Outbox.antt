-- ===== src/Data/Outbox.antt =====
-- klauthed-data/src/outbox: the in-memory outbox (mod.rs) and the relay that drains it (relay.rs).
-- An `OutboxId` is the 128-bit number of its UUID. The JSON payload is a type parameter, and the
-- publisher is a function on a state of its own.
pub mod Relay
use rust_libraries.Prelude.{
  ℕ, ◌+◌, max, String, Bool, true, false, not, ◌&&◌, Option, none, some, List, [], ◌∷◌, ◌++◌, map,
  length, take, keep, leb, if◌then◌else◌, contains, nat_eq,
}
use rust_libraries.Prelude.Sort.{sort_by}
use rust_libraries.Time.{Timestamp}

abbrev pub OutboxId : Type 0
OutboxId = ℕ

pub record OutboxEntry (P : Type 0) : Type 0 where
  pub id : OutboxId
  pub aggregate_type : String
  pub aggregate_id : String
  pub event_type : String
  pub sequence : ℕ
  pub payload : P
  pub occurred_at : Timestamp
  pub published : Bool
  pub published_at : Option Timestamp

abbrev pub InMemoryOutbox : Type 0 → Type 0
InMemoryOutbox P = List (OutboxEntry P)

pub record OutboxRelay : Type 0 where
  pub batch_size : ℕ

unfoldable pub new_relay : OutboxRelay
new_relay = record { batch_size = 100 }

unfoldable pub with_batch_size : OutboxRelay → ℕ → OutboxRelay
with_batch_size r batch_size = record r { batch_size = max batch_size 1 }

abbrev pub is_nil : List OutboxId → Bool
is_nil [] = true
is_nil (_ ∷ _) = false

module _ {P : Type 0} where
  unfoldable pub new : InMemoryOutbox P
  new = []

  unfoldable pub enqueue : InMemoryOutbox P → List (OutboxEntry P) → InMemoryOutbox P
  enqueue outbox entries = outbox ++ entries

  abbrev pub id_le : OutboxEntry P → OutboxEntry P → Bool
  id_le a b = leb a.id b.id

  abbrev pub is_unpublished : OutboxEntry P → Bool
  is_unpublished e = not e.published

  unfoldable pub fetch_unpublished : InMemoryOutbox P → ℕ → List (OutboxEntry P)
  fetch_unpublished outbox limit = take limit (sort_by id_le (keep is_unpublished outbox))

  -- The body of the loop of `mark_published`.
  abbrev pub mark : Timestamp → List OutboxId → OutboxEntry P → OutboxEntry P
  mark now ids e =
      if not e.published && contains e.id ids
      then record e { published = true; published_at = some now }
      else e

  unfoldable pub mark_published : InMemoryOutbox P → Timestamp → List OutboxId → InMemoryOutbox P
  mark_published outbox now ids = map (mark now ids) outbox

  module _ {W : Type 0} (publish : W → OutboxEntry P → W × Bool) where
    abbrev cons_id : OutboxId → W × List OutboxId → W × List OutboxId
    cons_id id (w, ids) = (w, id ∷ ids)

    -- The loop over the fetched entries: it stops at the first that is not published.
    unfoldable pub publish_all : W → List (OutboxEntry P) → W × List OutboxId
    publish_all w [] = (w, [])
    publish_all w (e ∷ entries) =
        let (u, published) = publish w e in
        elim published [ true ↦ cons_id e.id (publish_all u entries) | false ↦ (u, []) ]

    unfoldable pub drain : OutboxRelay → InMemoryOutbox P → Timestamp → W → InMemoryOutbox P × W × ℕ
    unfolding publish_all mark_published
    drain r outbox now w =
        let (u, ids) = publish_all w (fetch_unpublished outbox r.batch_size) in
        (if is_nil ids then outbox else mark_published outbox now ids, u, length ids)
