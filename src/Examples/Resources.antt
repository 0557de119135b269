-- ===== src/Examples/Resources.antt =====
-- Sagas, the outbox, pages and service discovery at concrete inputs.
use rust_libraries.Prelude.{
  ℕ, ◌+◌, ◌*◌, ◌<◌, Bool, true, false, String, none, some, List, [], ◌∷◌, ◌++◌, ◌≡◌, ◌↔◌, refl,
  keep, length, eqb, if◌then◌else◌, ok, err, arith, string_eq, ◌-◌,
}
use rust_libraries.Prelude.Map.{get}
use rust_libraries.Data.Saga.{Step, Saga, execute}
use rust_libraries.Data.Saga.Rollback.{undo, execute-compensates}
use rust_libraries.Data.Outbox.{
  OutboxEntry, InMemoryOutbox, is_unpublished, fetch_unpublished, drain,
}
use rust_libraries.Data.Outbox.Relay.{unnamed, ids_of, Accepts, Stops, drain_lem}
use rust_libraries.Data.Pagination.Offset.{OffsetPageRequest, new_request, offset, limit, new_page}
use rust_libraries.Data.Pagination.Offset.Bounds.{IsValid, new_page-bounds}
use rust_libraries.Discovery.Instance.{ServiceInstance}
use rust_libraries.Discovery.Registry.{InMemoryRegistry, instances}
use rust_libraries.Discovery.Registry.Lookup.{Distinct}

-- A step that adds to a balance, and one that fails.
abbrev adds : ℕ → Step ℕ String
adds n = record { action = λ w. (w + n, ok tt); compensation = λ w. w - n }

abbrev breaks : Step ℕ String
breaks = record { action = λ w. (w, err "down"); compensation = λ w. w }

abbrev done : Saga ℕ String
done = adds 2 ∷ adds 3 ∷ []

execute-compensates_example :
    execute (done ++ breaks ∷ adds 9 ∷ []) 1
    ≡ (undo done 6, err (record { step = length done; source = "down" }))
execute-compensates_example =
    execute-compensates done breaks (adds 9 ∷ []) 1 6 6 "down" (3, refl, (6, refl, refl)) refl

abbrev entry : ℕ → Bool → OutboxEntry String
entry id published = record {
  id = id;
  aggregate_type = "account";
  aggregate_id = "acct-1";
  event_type = "account.opened";
  sequence = id;
  payload = "{}";
  occurred_at = 0;
  published = published;
  published_at = none;
}

abbrev outbox : InMemoryOutbox String
outbox = entry 4 false ∷ entry 1 true ∷ entry 2 false ∷ entry 3 false ∷ []

-- A publisher that accepts two entries.
abbrev two : ℕ → OutboxEntry String → ℕ × Bool
two n e = if eqb n 2 then (n, false) else (n + 1, true)

drain_lem_example :
    (shipped left : List (OutboxEntry String)) × (v u : ℕ) × (after : InMemoryOutbox String)
    × (fetch_unpublished outbox 5 ≡ shipped ++ left)
    × Accepts two 0 shipped v
    × Stops two v left u
    × (drain two (record { batch_size = 5 }) outbox 9 0 ≡ (after, u, length shipped))
    × (keep is_unpublished after ≡ unnamed (ids_of shipped) (keep is_unpublished outbox))
drain_lem_example = drain_lem two (record { batch_size = 5 }) outbox 9 0

abbrev request : OffsetPageRequest
request = record { page = 2; per_page = 10; sort = [] }

requested : new_request 2 10 ≡ ok request
unfolding new_request
requested = refl

request-IsValid : IsValid request
request-IsValid = record { page = omega arith; size = omega arith; capped = omega arith }

abbrev none_shown : List ℕ
none_shown = []

new_page-bounds_example :
    (start : ℕ) × (offset request ≡ some start)
    × (((new_page none_shown 20 request).has_next ≡ true) ↔ (start + limit request < 20))
    × (((new_page none_shown 20 request).has_prev ≡ true) ↔ (0 < start))
    × ((n : ℕ) → (n < (new_page none_shown 20 request).total_pages) ↔ (n * limit request < 20))
new_page-bounds_example = new_page-bounds ℕ none_shown 20 request request-IsValid

starts : offset request ≡ some 10
unfolding offset
starts = refl

abbrev instance_at : String → ℕ → ServiceInstance
instance_at id port = record {
  service_name = "auth";
  instance_id = id;
  host = "host";
  port = port;
  secure = false;
  metadata = [];
}

abbrev auth : List ServiceInstance
auth = instance_at "a1" 1 ∷ instance_at "a2" 2 ∷ []

abbrev services : InMemoryRegistry
services = ("auth", auth) ∷ []

auth-Distinct : Distinct (instances services "auth")
unfolding instances get
auth-Distinct = (refl, (refl, tt))
