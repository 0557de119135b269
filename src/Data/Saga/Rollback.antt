-- ===== src/Data/Saga/Rollback.antt =====
-- What a saga leaves behind.
use rust_libraries.Prelude.{
  ℕ, suc, ◌+◌, ◌≡◌, sym, ◌∙◌, ap, List, [], ◌∷◌, ◌++◌, All, length, arith, Result, ok, err,
}
use rust_libraries.Data.Saga.{SagaError, Step, Saga, compensate, execute_from, execute}

module _ {W E : Type 0} where
  -- The actions of these steps succeed one after the other and lead from one state to the other.
  abbrev pub Succeeds : Saga W E → W → W → Type 0
  Succeeds [] w v = w ≡ v
  Succeeds (s ∷ steps) w v = (u : W) × (s.action w ≡ (u, ok tt)) × Succeeds steps u v

  -- The compensation of the last step first.
  abbrev pub undo : Saga W E → W → W
  undo [] w = w
  undo (s ∷ steps) w = s.compensation (undo steps w)

  step_ok :
      (index : ℕ) (completed : List (W → W)) (s : Step W E) (steps : Saga W E) (w u : W)
      → s.action w ≡ (u, ok tt)
      → execute_from index completed (s ∷ steps) w
        ≡ execute_from (suc index) (s.compensation ∷ completed) steps u
  unfolding execute_from
  step_ok index completed s steps w u e = ground arith

  step_err :
      (index : ℕ) (completed : List (W → W)) (s : Step W E) (steps : Saga W E) (w u : W)
      (source : E)
      → s.action w ≡ (u, err source)
      → execute_from index completed (s ∷ steps) w
        ≡ (compensate completed u, err (record { step = index; source = source }))
  unfolding execute_from
  step_err index completed s steps w u source e = ground arith

  completes :
      (index : ℕ) (completed : List (W → W)) (saga : Saga W E) (w v : W)
      → Succeeds saga w v
      → execute_from index completed saga w ≡ (v, ok tt)
  unfolding execute_from
  completes index completed [] w v e = ap (λ x. (x, ok tt)) e
  completes index completed (s ∷ steps) w v (u, e, rest) =
      step_ok index completed s steps w u e
      ∙ completes (suc index) (s.compensation ∷ completed) steps u v rest

  failed : ℕ → List (W → W) → W → E → W × Result (SagaError E) (Unit {0})
  failed index completed v source =
      (compensate completed v, err (record { step = index; source = source }))

  fails :
      (index : ℕ) (completed : List (W → W)) (done : Saga W E) (failing : Step W E)
      (later : Saga W E) (w u v : W) (source : E)
      → Succeeds done w u
      → failing.action u ≡ (v, err source)
      → execute_from index completed (done ++ failing ∷ later) w
        ≡ failed (index + length done) completed (undo done v) source
  unfolding failed
  fails index completed [] failing later w u v source e f =
      step_err index completed failing later w v source (ap failing.action e ∙ f)
      ∙ ap (λ n. failed n completed v source) (omega arith)
  fails index completed (s ∷ done) failing later w u v source (x, e, rest) f =
      step_ok index completed s (done ++ failing ∷ later) w x e
      ∙ fails (suc index) (s.compensation ∷ completed) done failing later x u v source rest f
      ∙ unfold compensate in
        ap (λ n. failed n completed (s.compensation (undo done v)) source) (omega arith)

  -- A saga whose actions all succeed returns `Ok` and runs no compensation.
  pub execute-completes :
      (saga : Saga W E) (w v : W) → Succeeds saga w v → execute saga w ≡ (v, ok tt)
  unfolding execute
  execute-completes saga w v h = completes 0 [] saga w v h

  -- When an action fails, the later steps do not run, the compensations of exactly the steps before
  -- it run in reverse order, and the error names its index and carries its error.
  pub execute-compensates :
      (done : Saga W E) (failing : Step W E) (later : Saga W E) (w u v : W) (source : E)
      → Succeeds done w u
      → failing.action u ≡ (v, err source)
      → execute (done ++ failing ∷ later) w
        ≡ (undo done v, err (record { step = length done; source = source }))
  unfolding execute compensate failed
  execute-compensates done failing later w u v source h f =
      fails 0 [] done failing later w u v source h f
      ∙ ap (λ n. (undo done v, err (record { step = n; source = source }))) (omega arith)

  -- A step whose compensation takes back what its action did.
  abbrev pub Reversible : Step W E → Type 0
  Reversible s = (w u : W) → s.action w ≡ (u, ok tt) → s.compensation u ≡ w

  undone : (done : Saga W E) (w u : W) → All Reversible done → Succeeds done w u → undo done u ≡ w
  undone [] w u r e = sym e
  undone (s ∷ done) w u (r, rs) (x, e, rest) = ap s.compensation (undone done x u rs rest) ∙ r w x e

  -- If every step before the failing one is reversible and the failing action changed nothing, the
  -- failed saga leaves the state it began with.
  pub execute-restores :
      (done : Saga W E) (failing : Step W E) (later : Saga W E) (w u : W) (source : E)
      → All Reversible done
      → Succeeds done w u
      → failing.action u ≡ (u, err source)
      → (execute (done ++ failing ∷ later) w).0 ≡ w
  execute-restores done failing later w u source r h f =
      ap (λ p. p.0) (execute-compensates done failing later w u u source h f) ∙ undone done w u r h
