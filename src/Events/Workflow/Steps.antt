-- ===== src/Events/Workflow/Steps.antt =====
-- The loop of `WorkflowRuntime.run` over the steps.
use ai_pmo_copilot.Common.{◌≡◌, refl, sym, List, [], ◌∷◌, Result, ok, err}
use mathlib.Core.Path.{subst}
use ai_pmo_copilot.Events.Workflow.{Raised, WorkflowContext, run_steps}

module _ {P W : Type 0} where
  -- The steps in turn from a context and a state, to what they give and the state after: each gets
  -- the context that the one before it returned, and after one that raises none is called.
  pub data Stepped
      : List (WorkflowContext P → W → Result Raised (WorkflowContext P) × W)
        → WorkflowContext P
        → W
        → Result Raised (WorkflowContext P)
        → W
        → Type 0 where
    all_returned : (context : WorkflowContext P) (w : W) → Stepped [] context w (ok context) w
    returned :
        (step : WorkflowContext P → W → Result Raised (WorkflowContext P) × W)
        (steps : List (WorkflowContext P → W → Result Raised (WorkflowContext P) × W))
        (context next : WorkflowContext P) (w after end : W)
        (result : Result Raised (WorkflowContext P))
        → step context w ≡ (ok next, after)
        → Stepped steps next after result end
        → Stepped (step ∷ steps) context w result end
    raised :
        (step : WorkflowContext P → W → Result Raised (WorkflowContext P) × W)
        (steps : List (WorkflowContext P → W → Result Raised (WorkflowContext P) × W))
        (context : WorkflowContext P) (exc : Raised) (w after : W)
        → step context w ≡ (err exc, after)
        → Stepped (step ∷ steps) context w (err exc) after

  pair_eq :
      (x : Result Raised (WorkflowContext P) × W) (r : Result Raised (WorkflowContext P))
      → x.0 ≡ r
      → x ≡ (r, x.1)
  pair_eq (r, after) r' e = cc

  run_steps-returned :
      (step : WorkflowContext P → W → Result Raised (WorkflowContext P) × W)
      (steps : List (WorkflowContext P → W → Result Raised (WorkflowContext P) × W))
      (context next : WorkflowContext P) (w : W)
      → (step context w).0 ≡ ok next
      → run_steps (step ∷ steps) context w ≡ run_steps steps next (step context w).1
  unfolding run_steps
  run_steps-returned step steps context next w e = rw (e, run_steps)

  run_steps-raised :
      (step : WorkflowContext P → W → Result Raised (WorkflowContext P) × W)
      (steps : List (WorkflowContext P → W → Result Raised (WorkflowContext P) × W))
      (context : WorkflowContext P) (exc : Raised) (w : W)
      → (step context w).0 ≡ err exc
      → run_steps (step ∷ steps) context w ≡ (err exc, (step context w).1)
  unfolding run_steps
  run_steps-raised step steps context exc w e = rw (e, run_steps)

  pub run_steps-Stepped :
      (steps : List (WorkflowContext P → W → Result Raised (WorkflowContext P) × W))
      (context : WorkflowContext P) (w : W)
      → Stepped steps context w (run_steps steps context w).0 (run_steps steps context w).1
  run_steps-Stepped [] context w = unfold run_steps in all_returned context w
  run_steps-Stepped (step ∷ steps) context w =
      go (step context w).0 refl λ next. run_steps-Stepped steps next (step context w).1
    where
      go :
          (r : Result Raised (WorkflowContext P))
          → (step context w).0 ≡ r
          → ((next : WorkflowContext P)
              → Stepped steps next
                  (step context w).1
                  (run_steps steps next (step context w).1).0
                  (run_steps steps next (step context w).1).1)
          → Stepped
              (step ∷ steps)
              context
              w
              (run_steps (step ∷ steps) context w).0
              (run_steps (step ∷ steps) context w).1
      go (ok next) e rest =
          subst
            (λ (x : Result Raised (WorkflowContext P) × W).
              Stepped (step ∷ steps) context w x.0 x.1)
            (sym (run_steps-returned step steps context next w e))
            (returned step steps context next w _ _ _ (pair_eq (step context w) (ok next) e)
              (rest next))
      go (err exc) e rest =
          subst
            (λ (x : Result Raised (WorkflowContext P) × W).
              Stepped (step ∷ steps) context w x.0 x.1)
            (sym (run_steps-raised step steps context exc w e))
            (raised step steps context exc w _ (pair_eq (step context w) (err exc) e))
