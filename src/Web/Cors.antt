-- ===== src/Web/Cors.antt =====
-- klauthed-web/src/cors/registry.rs: `InMemoryOriginRegistry` and `CachedOriginRegistry`. The
-- readings of the monotonic clock are arguments, in nanoseconds.
pub mod Freshness
use rust_libraries.Prelude.{
  ℕ, ◌-◌, String, Bool, true, false, not, Option, none, some, List, [], ◌∷◌, ltb, if◌then◌else◌,
  ◌==◌, string_eq, contains, set_insert, set_extend, keep, length, eqb,
}
use rust_libraries.Prelude.Map.{Map, get, insert, remove}

-- The set of allowed origins.
abbrev pub Origins : Type 0
Origins = List String

unfoldable pub new : Origins
new = []

unfoldable pub add : Origins → String → Origins
add origins origin = set_insert origin origins

unfoldable pub with_origins : List String → Origins
with_origins origins = set_extend new origins

unfoldable pub take_out : Origins → String → Origins × Bool
take_out origins origin = (keep (λ o. not (o == origin)) origins, contains origin origins)

abbrev pub is_empty : Origins → Bool
is_empty origins = eqb (length origins) 0

unfoldable pub is_allowed : Origins → String → Bool
is_allowed origins origin = contains origin origins

-- The answers that were cached, with the instants at which they were.
pub record CachedOriginRegistry : Type 0 where
  pub cache : Map String (Bool × ℕ)
  pub ttl : ℕ

unfoldable pub with_ttl : ℕ → CachedOriginRegistry
with_ttl ttl = record { cache = []; ttl = ttl }

unfoldable pub invalidate_all : CachedOriginRegistry → CachedOriginRegistry
invalidate_all r = record r { cache = [] }

unfoldable pub invalidate : CachedOriginRegistry → String → CachedOriginRegistry
invalidate r origin = record r { cache = remove origin r.cache }

-- The answer of the cache, if it is younger than the ttl; `elapsed` stops at 0.
abbrev pub fresh : ℕ → ℕ → Option (Bool × ℕ) → Option Bool
fresh ttl now none = none
fresh ttl now (some (allowed, cached_at)) = if ltb (now - cached_at) ttl then some allowed else none

abbrev pub answer_from :
    CachedOriginRegistry → String → Bool → ℕ → Option Bool → CachedOriginRegistry × Bool
answer_from r origin asked stored_at (some allowed) = (r, allowed)
answer_from r origin asked stored_at none =
    (record r { cache = insert origin (asked, stored_at) r.cache }, asked)

-- `asked` is what the inner registry answers if it is asked, `now` and `stored_at` are the two
-- readings of the clock.
unfoldable pub cached_is_allowed :
    CachedOriginRegistry → String → ℕ → Bool → ℕ → CachedOriginRegistry × Bool
cached_is_allowed r origin now asked stored_at =
    answer_from r origin asked stored_at (fresh r.ttl now (get origin r.cache))
