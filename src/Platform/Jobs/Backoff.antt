-- ===== src/Platform/Jobs/Backoff.antt =====
-- The delay before a retry (`backoff_for_attempt` in klauthed-platform/src/jobs/queue.rs).
use rust_libraries.Prelude.{
  ℕ, zero, suc, ◌+◌, ◌-◌, ◌*◌, ◌≤◌, min, ◌≡◌, ◌⊎◌, inl, inr, refl, ap, ◌∙◌, sym, subst, Option,
  none, some, true, arith, leb, eqb, if◌then◌else◌, dec_lt, passes_below, passes_below_sound,
}
use rust_libraries.Prelude.Int.{pos}
use rust_libraries.Time.{Timestamp, TimeApi, checked_add}
use rust_libraries.Platform.Jobs.Queue.{
  backoff_seconds, backoff_for_attempt, nanos_per_second, retry_at, unwrap_or,
}

doubles_table :
    passes_below
      (λ a.
        if leb 1 a then eqb (backoff_seconds (a + 1)) (min (2 * backoff_seconds a) 3600) else true)
      14
    ≡ true
unfolding passes_below backoff_seconds
doubles_table = refl

backoff_capped : (a : ℕ) → 13 ≤ a → backoff_seconds a ≡ 3600
unfolding backoff_seconds
backoff_capped a h = let e : min (a - 1) 12 ≡ 12 = omega arith in rw e

seconds_double : (a : ℕ) → 1 ≤ a → backoff_seconds (a + 1) ≡ min (2 * backoff_seconds a) 3600
seconds_double a h = elim (dec_lt a 14) [
  | yes lt ↦ ground (arith, passes_below_sound _ 14 a doubles_table lt)
  | no ge ↦ omega (arith, backoff_capped (a + 1) (omega arith), backoff_capped a (omega arith))
]

-- The delay is one second after the first attempt, and from an attempt that is at least the
-- first, the next one doubles it, up to the cap of an hour.
pub backoff_doubles :
    (a : ℕ)
    → 1 ≤ a
    → (backoff_for_attempt 1 ≡ pos nanos_per_second)
      × (backoff_for_attempt a ≡ pos (backoff_seconds a * nanos_per_second))
      × (backoff_for_attempt (a + 1) ≡ pos (min (2 * backoff_seconds a) 3600 * nanos_per_second))
unfolding backoff_for_attempt
backoff_doubles a h = (unfold backoff_seconds in refl, refl, rw (seconds_double a h))

-- The seconds to wait after this attempt: one, then twice as long each time, an hour at most.
abbrev pub waiting : ℕ → ℕ
waiting zero = 1
waiting (suc zero) = 1
waiting (suc (suc n)) = min (2 * waiting (suc n)) 3600

backoff_seconds-waiting : (a : ℕ) → backoff_seconds a ≡ waiting a
backoff_seconds-waiting zero = unfold backoff_seconds in refl
backoff_seconds-waiting (suc zero) = unfold backoff_seconds in refl
backoff_seconds-waiting (suc (suc n)) =
    let rest = backoff_seconds-waiting (suc n) in
    let same : suc (suc n) ≡ suc n + 1 = omega arith in
    ap backoff_seconds same ∙ seconds_double (suc n) (omega arith) ∙ ap (λ x. min (2 * x) 3600) rest

module _ ⦃time : TimeApi⦄ where
  -- The instant of a retry: the delay after now, or now itself if that overflows the clock.
  abbrev pub Waits : Timestamp → ℕ → Timestamp → Type 0
  Waits now attempts due =
      (due ≡ now + waiting attempts * 1000000000)
      ⊎ ((checked_add now (pos (waiting attempts * 1000000000)) ≡ none) × (due ≡ now))

  sum-Waits :
      (now attempts : ℕ) (o : Option Timestamp)
      → checked_add now (pos (waiting attempts * 1000000000)) ≡ o
      → Waits now attempts (unwrap_or now o)
  sum-Waits now attempts none e = inr (e, refl)
  sum-Waits now attempts (some t) e =
      inl (omega (arith, time.add_parts now (pos (waiting attempts * 1000000000)) t e))

  pub retry_at-Waits : (now attempts : ℕ) → Waits now attempts (retry_at now attempts)
  unfolding backoff_for_attempt
  retry_at-Waits now attempts =
      subst (λ x. Waits now attempts (unwrap_or now (checked_add now (pos (x * 1000000000)))))
        (sym (backoff_seconds-waiting attempts))
        (sum-Waits now attempts (checked_add now (pos (waiting attempts * 1000000000))) refl)
