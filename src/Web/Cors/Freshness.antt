-- ===== src/Web/Cors/Freshness.antt =====
-- How old a cached answer can be.
use rust_libraries.Prelude.{
  ℕ, ◌-◌, ◌+◌, ◌≤◌, ◌<◌, String, Bool, true, false, Option, none, some, List, [], ◌∷◌, ◌≡◌, ◌⊎◌,
  inl, inr, refl, ap, ◌∙◌, subst, sym, eq_of_==, ltb→lt, ◌==◌, arith, ltb, if◌then◌else◌, string_eq,
  Bool-cases, All,
}
use mathlib.Core.List.{Memᴰ}
use mathlib.Core.List.Memᴰ.{head, tail}
use rust_libraries.Prelude.Map.{get, get-insert, get-remove}
use rust_libraries.Web.Cors.{
  CachedOriginRegistry, with_ttl, invalidate, invalidate_all, fresh, answer_from, cached_is_allowed,
}

-- A lookup reads the clock, asks the inner registry if it has to, and reads the clock again.
pub data Call : Type 0 where
  looks : String → (now asked_at stored_at : ℕ) → Call
  drops : String → Call
  drops_all : Call

abbrev pub InOrder : Call → Type 0
InOrder (looks origin now asked_at stored_at) = asked_at ≤ stored_at
InOrder (drops origin) = Unit
InOrder drops_all = Unit

answer_from-ttl :
    (r : CachedOriginRegistry) (origin : String) (asked : Bool) (stored_at : ℕ) (o : Option Bool)
    → (answer_from r origin asked stored_at o).0.ttl ≡ r.ttl
answer_from-ttl r origin asked stored_at (some allowed) = refl
answer_from-ttl r origin asked stored_at none = refl

-- What the inner registry answers at each instant.
module _ (inner : ℕ → String → Bool) where
  unfoldable pub perform : CachedOriginRegistry → Call → CachedOriginRegistry
  perform r (looks origin now asked_at stored_at) =
      (cached_is_allowed r origin now (inner asked_at origin) stored_at).0
  perform r (drops origin) = invalidate r origin
  perform r drops_all = invalidate_all r

  unfoldable pub perform_all : CachedOriginRegistry → List Call → CachedOriginRegistry
  perform_all r [] = r
  perform_all r (c ∷ rest) = perform_all (perform r c) rest

  -- One of these lookups asked the inner registry for this answer, and stored it at this instant.
  abbrev pub Stored : List Call → String → Bool → ℕ → Type 0
  Stored calls origin allowed cached_at =
      (now : ℕ) × (asked_at : ℕ) × Memᴰ (looks origin now asked_at cached_at) calls
      × (asked_at ≤ cached_at)
      × (inner asked_at origin ≡ allowed)

  -- Every cached answer was stored by one of these lookups.
  abbrev Backed : List Call → CachedOriginRegistry → Type 0
  Backed calls r =
      (origin : String) (allowed : Bool) (cached_at : ℕ)
      → get origin r.cache ≡ some (allowed, cached_at)
      → Stored calls origin allowed cached_at

  insert-Backed :
      (calls : List Call) (r : CachedOriginRegistry) (origin : String) (now asked_at stored_at : ℕ)
      → Memᴰ (looks origin now asked_at stored_at) calls
      → asked_at ≤ stored_at
      → Backed calls r
      → Backed calls (answer_from r origin (inner asked_at origin) stored_at none).0
  insert-Backed calls r origin now asked_at stored_at among order backed k allowed cached_at e =
      elim (Bool-cases (origin == k)) [
        | inl same ↦
            let kept : stored_at ≡ cached_at =
              ground (arith, get-insert origin k (inner asked_at origin, stored_at) r.cache) in
            (
              now,
              asked_at,
              subst (λ x. Memᴰ (looks k now asked_at x) calls) kept
                  (subst (λ o. Memᴰ (looks o now asked_at stored_at) calls) (eq_of_== origin k same)
                    among),
              subst (λ x. asked_at ≤ x) kept order,
              ap (inner asked_at) (sym (eq_of_== origin k same))
                  ∙ ground (arith, get-insert origin k (inner asked_at origin, stored_at) r.cache),
            )
        | inr other ↦
            backed k allowed cached_at
              (ground (arith, get-insert origin k (inner asked_at origin, stored_at) r.cache))
      ]

  looks-Backed :
      (calls : List Call) (r : CachedOriginRegistry) (origin : String) (now asked_at stored_at : ℕ)
      (o : Option Bool)
      → Memᴰ (looks origin now asked_at stored_at) calls
      → asked_at ≤ stored_at
      → Backed calls r
      → Backed calls (answer_from r origin (inner asked_at origin) stored_at o).0
  looks-Backed calls r origin now asked_at stored_at (some allowed) among order backed = backed
  looks-Backed calls r origin now asked_at stored_at none among order backed =
      insert-Backed calls r origin now asked_at stored_at among order backed

  perform-Backed :
      (calls : List Call) (r : CachedOriginRegistry) (c : Call)
      → Memᴰ c calls
      → InOrder c
      → Backed calls r
      → Backed calls (perform r c)
  unfolding perform cached_is_allowed invalidate invalidate_all get
  perform-Backed calls r (looks origin now asked_at stored_at) among order backed =
      looks-Backed calls r origin now asked_at stored_at (fresh r.ttl now (get origin r.cache))
        among order backed
  perform-Backed calls r (drops origin) among order backed = λ k allowed cached_at e.
      backed k allowed cached_at (ground (arith, get-remove origin k r.cache))
  perform-Backed calls r drops_all among order backed = λ k allowed cached_at e. ground arith

  perform-ttl : (r : CachedOriginRegistry) (c : Call) → (perform r c).ttl ≡ r.ttl
  unfolding perform cached_is_allowed invalidate invalidate_all
  perform-ttl r (looks origin now asked_at stored_at) =
      answer_from-ttl r origin (inner asked_at origin) stored_at
        (fresh r.ttl now (get origin r.cache))
  perform-ttl r (drops origin) = refl
  perform-ttl r drops_all = refl

  perform_all-Backed :
      (whole : List Call) (r : CachedOriginRegistry) (calls : List Call)
      → ((c : Call) → Memᴰ c calls → Memᴰ c whole)
      → All InOrder calls
      → Backed whole r
      → Backed whole (perform_all r calls) × ((perform_all r calls).ttl ≡ r.ttl)
  unfolding perform_all
  perform_all-Backed whole r [] among order backed = (backed, refl)
  perform_all-Backed whole r (c ∷ rest) among (first, order) backed =
      let (b, t) =
        perform_all-Backed whole (perform r c) rest (λ d m. among d (tail m)) order
          (perform-Backed whole r c (among c (head refl)) first backed) in
      (b, t ∙ perform-ttl r c)

  empty-Backed : (calls : List Call) (ttl : ℕ) → Backed calls (with_ttl ttl)
  unfolding with_ttl get
  empty-Backed calls ttl k allowed cached_at e = ground arith

  -- The inner registry gave the answer at this lookup, or to one of the lookups before it, which
  -- stored it less than the ttl ago.
  abbrev pub Recent : List Call → String → ℕ → ℕ → ℕ → Bool → Type 0
  Recent calls origin ttl now asked_at answer =
      (answer ≡ inner asked_at origin)
      ⊎ ((cached_at : ℕ) × (now < cached_at + ttl) × Stored calls origin answer cached_at)

  entry-Recent :
      (calls : List Call) (r : CachedOriginRegistry) (origin : String)
      (now asked_at stored_at cached_at : ℕ) (allowed young : Bool)
      → ltb (now - cached_at) r.ttl ≡ young
      → get origin r.cache ≡ some (allowed, cached_at)
      → Backed calls r
      → Recent calls origin r.ttl now asked_at
          (answer_from r origin
            (inner asked_at origin)
            stored_at
            (if young then some allowed else none)).1
  entry-Recent calls r origin now asked_at stored_at cached_at allowed true y e backed =
      let recent = ltb→lt (now - cached_at) r.ttl y in
      inr (cached_at, omega arith, backed origin allowed cached_at e)
  entry-Recent calls r origin now asked_at stored_at cached_at allowed false y e backed = inl refl

  answer-Recent :
      (calls : List Call) (r : CachedOriginRegistry) (origin : String) (now asked_at stored_at : ℕ)
      (o : Option (Bool × ℕ))
      → get origin r.cache ≡ o
      → Backed calls r
      → Recent calls origin r.ttl now asked_at
          (answer_from r origin (inner asked_at origin) stored_at (fresh r.ttl now o)).1
  answer-Recent calls r origin now asked_at stored_at none e backed = inl refl
  answer-Recent calls r origin now asked_at stored_at (some (allowed, cached_at)) e backed =
      entry-Recent calls r origin now asked_at stored_at cached_at allowed
        (ltb (now - cached_at) r.ttl) refl e backed

  -- Whatever lookups and invalidations came before, an answer of the cache is the inner registry's
  -- at this lookup, or the one that it gave to one of those lookups of the same origin, which stored
  -- it less than the ttl ago. No lookup stores an answer before it asked for it.
  pub cached_is_allowed-Recent :
      (ttl : ℕ) (calls : List Call) (origin : String) (now asked_at stored_at : ℕ)
      → All InOrder calls
      → Recent calls origin ttl now asked_at
          (cached_is_allowed
            (perform_all (with_ttl ttl) calls)
            origin
            now
            (inner asked_at origin)
            stored_at).1
  unfolding cached_is_allowed
  cached_is_allowed-Recent ttl calls origin now asked_at stored_at order =
      let (backed, t) =
        perform_all-Backed calls (with_ttl ttl) calls (λ c m. m) order (empty-Backed calls ttl) in
      let r = perform_all (with_ttl ttl) calls in
      subst
        (λ x.
          Recent calls origin x now asked_at
            (answer_from r origin (inner asked_at origin) stored_at
              (fresh r.ttl now (get origin r.cache))).1)
        (t ∙ unfold with_ttl in refl)
        (answer-Recent calls r origin now asked_at stored_at (get origin r.cache) refl backed)
