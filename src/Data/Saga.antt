-- ===== src/Data/Saga.antt =====
-- klauthed-data/src/saga/mod.rs: `Saga::execute`. What the actions and compensations do is a state
-- that they pass on; the errors are a type parameter.
pub mod Rollback
use rust_libraries.Prelude.{ℕ, suc, List, [], ◌∷◌, ◌++◌, Result, ok, err}

pub record SagaError (E : Type 0) : Type 0 where
  pub step : ℕ
  pub source : E

-- An action with its compensation.
pub record Step (W E : Type 0) : Type 0 where
  pub action : W → W × Result E (Unit {0})
  pub compensation : W → W

abbrev pub Saga : Type 0 → Type 0 → Type 0
Saga W E = List (Step W E)

-- `completed.into_iter().rev()`: the head of the list is the last one completed.
unfoldable pub compensate : {W : Type 0} → List (W → W) → W → W
compensate [] w = w
compensate (c ∷ cs) w = compensate cs (c w)

module _ {W E : Type 0} where
  unfoldable pub new : Saga W E
  new = []

  unfoldable pub add_step : Saga W E → (W → W × Result E (Unit {0})) → (W → W) → Saga W E
  add_step saga action compensation =
      saga ++ record { action = action; compensation = compensation } ∷ []

  -- The loop, at an index and with the compensations of the completed steps.
  unfoldable pub execute_from :
      ℕ → List (W → W) → Saga W E → W → W × Result (SagaError E) (Unit {0})
  unfolding compensate
  execute_from index completed [] w = (w, ok tt)
  execute_from index completed (s ∷ steps) w =
      let (u, outcome) = s.action w in
      elim outcome [
        | ok _ ↦ execute_from (suc index) (s.compensation ∷ completed) steps u
        | err source ↦ (compensate completed u, err (record { step = index; source = source }))
      ]

  unfoldable pub execute : Saga W E → W → W × Result (SagaError E) (Unit {0})
  unfolding execute_from
  execute saga w = execute_from 0 [] saga w
