-- ===== src/Platform/Cron/Search.antt =====
-- The next occurrence is the least one.
use rust_libraries.Prelude.{
  ℕ, zero, suc, ◌<◌, ◌≡◌, refl, sym, ◌∙◌, subst, inl, inr, true, false, Option, none, some, arith,
  Bool-cases, Option-cases,
}
use rust_libraries.Prelude.Int.{pos}
use rust_libraries.Time.{Timestamp, TimeApi}
use rust_libraries.Platform.Cron.{
  Cron, CalendarApi, matches, next_minute, search_from, next_after, max_minutes,
}

module _ ⦃time : TimeApi⦄ ⦃calendar : CalendarApi⦄ where
  -- The instant this many minutes on.
  abbrev pub MinutesOn : ℕ → Timestamp → Timestamp → Type 0
  MinutesOn zero t u = t ≡ u
  MinutesOn (suc n) t u = (v : Timestamp) × (next_minute t ≡ some v) × MinutesOn n v u

  -- None of the next minutes matches.
  abbrev pub NoneBefore : Cron → ℕ → Timestamp → Type 0
  NoneBefore c n t = (j : ℕ) (v : Timestamp) → j < n → MinutesOn j t v → matches c v ≡ false

  -- What an answer says about the minutes from an instant on.
  abbrev pub Answers : Cron → ℕ → Timestamp → Option Timestamp → Type 0
  Answers c n t none = NoneBefore c n t
  Answers c n t (some u) =
      (k : ℕ) × (k < n) × MinutesOn k t u × (matches c u ≡ true) × NoneBefore c k t

  NoneBefore-suc :
      (c : Cron) (n : ℕ) (t u : Timestamp)
      → matches c t ≡ false
      → next_minute t ≡ some u
      → NoneBefore c n u
      → NoneBefore c (suc n) t
  NoneBefore-suc c n t u m e h zero v lt s = subst (λ x. matches c x ≡ false) s m
  NoneBefore-suc c n t u m e h (suc j) v lt (w, f, s) =
      let same : w ≡ u = ground arith in h j v (omega arith) (subst (λ x. MinutesOn j x v) same s)

  Answers-suc :
      (c : Cron) (n : ℕ) (t u : Timestamp) (a : Option Timestamp)
      → matches c t ≡ false
      → next_minute t ≡ some u
      → Answers c n u a
      → Answers c (suc n) t a
  Answers-suc c n t u none m e h = NoneBefore-suc c n t u m e h
  Answers-suc c n t u (some v) m e (k, lt, s, here, before) =
      (suc k, omega arith, (u, e, s), here, NoneBefore-suc c k t u m e before)

  search_from-Answers :
      (c : Cron) (n : ℕ) (t : Timestamp) (a : Option Timestamp)
      → search_from c n t ≡ some a
      → Answers c n t a
  unfolding search_from
  search_from-Answers c zero t a e =
      subst (Answers c zero t) {x = none} (ground arith) (λ j v lt s. absurd (omega arith))
  search_from-Answers c (suc n) t a e = elim (Bool-cases (matches c t)) [
    | inl m ↦
        subst (Answers c (suc n) t) (found m)
          (zero, omega arith, refl, m, λ j v lt s. absurd (omega arith))
    | inr m ↦ elim (Option-cases (next_minute t)) [
      | inl f ↦ absurd (ground arith)
      | inr (u, f) ↦ Answers-suc c n t u a m f (search_from-Answers c n u a (ground arith))
    ]
  ]
    where
      found : matches c t ≡ true → some t ≡ a
      found m = ground arith

  -- Suppose the given instant can be truncated to its minute and the next whole minute exists.
  -- When `next_after` returns an instant, that lies after the given one, matches the schedule,
  -- and no whole minute in between does; when it returns none, none of the whole minutes of the
  -- next 5 * 366 days matches.
  pub next_after_least :
      (c : Cron) (after m t : Timestamp) (a : Option Timestamp)
      → calendar.whole_minute after ≡ some m
      → next_minute m ≡ some t
      → next_after c after ≡ some a
      → (after < t) × Answers c max_minutes t a
  unfolding next_after
  next_after_least c after m t a e f h =
      let start : next_after c after ≡ search_from c max_minutes t = rw (e, f, next_after) refl in
      (
        omega (arith, calendar.whole_minute_lem after m e, time.add_parts m (pos 60000000000) t f),
        search_from-Answers c max_minutes t a (sym start ∙ h),
      )
