-- ===== src/Web/Resilience/Retry/Attempts.antt =====
-- How often a retried operation runs, and what comes of it.
use rust_libraries.Prelude.{
  ℕ, zero, suc, ◌+◌, ◌≤◌, ◌<◌, false, Option, some, List, [], ◌∷◌, ◌++◌, Result, ok, err, ◌≡◌, refl,
  arith, leb, max, Bool-cases, inl, inr, sym, ap, ◌∙◌,
}
use mathlib.Core.List.{append_assoc, append-nil}
use rust_libraries.Web.Resilience.Retry.{FloatApi, RetryPolicy, backoff, turn, retry_from, retry}

module _ {W T E : Type 0} (op : W → W × Result E T) where
  -- The world after a number of runs.
  abbrev pub after_runs : ℕ → W → W
  after_runs zero w = w
  after_runs (suc n) w = after_runs n (op w).0

  -- The first runs all fail.
  abbrev pub AllFail : ℕ → W → Type 0
  AllFail zero w = Unit
  AllFail (suc n) w = ((error : E) × ((op w).1 ≡ err error)) × AllFail n (op w).0

module _ {F : Type 0} ⦃float : FloatApi F⦄ where
  abbrev pub delays : RetryPolicy F → ℕ → ℕ → List ℕ
  delays p attempt zero = []
  delays p attempt (suc n) = backoff p attempt ∷ delays p (attempt + 1) n

module _ {F : Type 0} ⦃float : FloatApi F⦄ {W T E : Type 0} (op : W → W × Result E T) where
  -- What a run of the loop comes to: after n failures, with a delay after each, the operation ran
  -- once more, and it either succeeded or was the last attempt.
  abbrev pub Settles : RetryPolicy F → ℕ → W → List ℕ → ℕ → W × List ℕ × Result E T → Type 0
  Settles p attempt w slept n (v, d, result) =
      AllFail op n w
      × (v ≡ after_runs op (suc n) w)
      × (d ≡ slept ++ delays p attempt n)
      × (result ≡ (op (after_runs op n w)).1)
      × (attempt + n ≤ max p.max_attempts attempt)
      × ((error : E) → result ≡ err error → p.max_attempts ≤ attempt + n)

  failed_again :
      (p : RetryPolicy F) (attempt : ℕ) (slept : List ℕ) (r : W × Result E T) (v : W) (error : E)
      (again : Option (W × List ℕ × Result E T))
      → r ≡ (v, err error)
      → leb p.max_attempts attempt ≡ false
      → turn p attempt slept r again ≡ again
  failed_again p attempt slept r v error again e more = rw e (rw more refl)

  Settled : ℕ → RetryPolicy F → ℕ → List ℕ → W → Type 0
  Settled fuel p attempt slept w =
      (n : ℕ) × (out : W × List ℕ × Result E T) × (retry_from op fuel p attempt slept w ≡ some out)
      × Settles p attempt w slept n out

  Settled-turn :
      (fuel : ℕ) (p : RetryPolicy F) (attempt : ℕ) (slept : List ℕ) (w : W) (r : W × Result E T)
      → op w ≡ r
      → (leb p.max_attempts attempt ≡ false
          → Settled fuel p (attempt + 1) (slept ++ (backoff p attempt ∷ [])) (op w).0)
      → Settled (suc fuel) p attempt slept w
  unfolding retry_from Settled
  Settled-turn fuel p attempt slept w (v, ok value) e below = (
    0,
    (v, slept, ok value),
    rw e refl,
    (
      tt,
      ap (λ r. r.0) (sym e),
      sym (append-nil slept),
      ap (λ r. r.1) (sym e),
      omega arith,
      λ error same. ground arith,
    ),
  )
  Settled-turn fuel p attempt slept w (v, err error) e below =
      elim (Bool-cases (leb p.max_attempts attempt)) [
        | inl last ↦ (
          0,
          (v, slept, err error),
          rw e (rw last refl),
          (
            tt,
            ap (λ r. r.0) (sym e),
            sym (append-nil slept),
            ap (λ r. r.1) (sym e),
            omega arith,
            λ x same. ground arith,
          ),
        )
        | inr more ↦
            let (n, (u, d, result), same, (fails, world, slept_all, ends, bound, spent)) =
              below more in
            (
              suc n,
              (u, d, result),
              failed_again p attempt slept (op w) v error _ e more ∙ same,
              (
                ((error, ap (λ r. r.1) e), fails),
                world,
                slept_all ∙ append_assoc slept (backoff p attempt ∷ []) (delays p (attempt + 1) n),
                ends,
                ground arith,
                λ x f. ground (arith, spent x f),
              ),
            )
      ]

  settle_from :
      (fuel : ℕ) (p : RetryPolicy F) (attempt : ℕ) (slept : List ℕ) (w : W)
      → p.max_attempts < attempt + fuel
      → 1 ≤ fuel
      → Settled fuel p attempt slept w
  settle_from zero p attempt slept w enough some_fuel = absurd (omega arith)
  settle_from (suc fuel) p attempt slept w enough some_fuel =
      Settled-turn fuel p attempt slept w (op w) refl λ more.
        settle_from fuel p (attempt + 1) (slept ++ (backoff p attempt ∷ [])) (op w).0 (omega arith)
          (ground arith)

  -- The loop ends: at most max(max_attempts, 1) runs are enough fuel. The operation runs once more
  -- than it fails before, is followed by a delay after each of those failures, and the answer is its
  -- last one, which is a failure only if the attempts are used up.
  pub retry-Settles :
      (p : RetryPolicy F) (w : W)
      → (n : ℕ) × (out : W × List ℕ × Result E T) × (retry op (max p.max_attempts 1) p w ≡ some out)
        × Settles p 1 w [] n out
  unfolding retry Settled
  retry-Settles p w = settle_from (max p.max_attempts 1) p 1 [] w (omega arith) (omega arith)
