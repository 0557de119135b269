-- ===== src/Web/Resilience/Retry.antt =====
-- klauthed-web/src/resilience/retry.rs: `RetryPolicy`. Its backoff is computed in f64, which stands
-- here as an abstract type with the operations that the code calls.
pub mod Attempts
use rust_libraries.Prelude.{
  ℕ, zero, suc, ◌+◌, ◌-◌, ◌≤◌, ◌<◌, Bool, true, false, Option, none, some, List, [], ◌∷◌, ◌++◌,
  Result, ok, err, ◌≡◌, refl, arith, leb, max, length, if◌then◌else◌, Bool-cases, inl, inr,
}

-- A `std::time::Duration`, in nanoseconds, and f64.
pub record FloatApi (F : Type 0) : Type 0 where
  pub two : F
  pub times : F → F → F
  pub powi : F → ℕ → F
  pub least : F → F → F
  pub as_secs_f64 : ℕ → F
  pub try_from_secs_f64 : F → Option ℕ

pub record RetryPolicy (F : Type 0) : Type 0 where
  pub max_attempts : ℕ
  pub base : ℕ
  pub max : ℕ
  pub multiplier : F

abbrev given_or : ℕ → Option ℕ → ℕ
given_or default none = default
given_or default (some n) = n

module _ {F : Type 0} ⦃float : FloatApi F⦄ where
  unfoldable pub new : RetryPolicy F
  new = record { max_attempts = 3; base = 100000000; max = 10000000000; multiplier = float.two }

  unfoldable pub with_max_attempts : RetryPolicy F → ℕ → RetryPolicy F
  with_max_attempts p attempts = record p { max_attempts = max attempts 1 }

  unfoldable pub base_backoff : RetryPolicy F → ℕ → RetryPolicy F
  base_backoff p base = record p { base = base }

  unfoldable pub max_backoff : RetryPolicy F → ℕ → RetryPolicy F
  max_backoff p longest = record p { max = longest }

  unfoldable pub with_multiplier : RetryPolicy F → F → RetryPolicy F
  with_multiplier p multiplier = record p { multiplier = multiplier }

  unfoldable pub backoff : RetryPolicy F → ℕ → ℕ
  backoff p attempt =
      let scaled = float.times (float.as_secs_f64 p.base) (float.powi p.multiplier (attempt - 1)) in
      given_or p.max (float.try_from_secs_f64 (float.least scaled (float.as_secs_f64 p.max)))

  -- One turn of the loop, by what the operation gave; `again` is the rest of the loop.
  abbrev pub turn :
      {W T E : Type 0}
      → RetryPolicy F
      → ℕ
      → List ℕ
      → W × Result E T
      → Option (W × List ℕ × Result E T)
      → Option (W × List ℕ × Result E T)
  turn p attempt slept (v, ok value) again = some (v, slept, ok value)
  turn p attempt slept (v, err error) again =
      if leb p.max_attempts attempt then some (v, slept, err error) else again

  module _ {W T E : Type 0} (op : W → W × Result E T) where
    -- The loop at some attempt: the world after it, the delays that were slept and the result. None
    -- where the fuel runs out.
    unfoldable pub retry_from :
        ℕ → RetryPolicy F → ℕ → List ℕ → W → Option (W × List ℕ × Result E T)
    retry_from zero p attempt slept w = none
    retry_from (suc fuel) p attempt slept w =
        turn p attempt slept (op w)
          (retry_from fuel p (attempt + 1) (slept ++ (backoff p attempt ∷ [])) (op w).0)

    unfoldable pub retry : ℕ → RetryPolicy F → W → Option (W × List ℕ × Result E T)
    retry fuel p w = retry_from fuel p 1 [] w
