-- ===== src/Events/Workflow/Outcome.antt =====
-- What one run of a workflow leaves in the table `workflow_executions`.
use ai_pmo_copilot.Common.{
  ℕ, ◌≡◌, refl, ◌∙◌, true, String, none, some, List, Result, ok, err, any_of, truncate, str_append,
}
use ai_pmo_copilot.Events.Dispatch.{DomainEvent}
use ai_pmo_copilot.Events.Workflow.{
  completed, failed, WorkflowExecution, Raised, is_run, start, complete, fail, WorkflowContext,
  RunError, step_raised, run_steps, record_outcome, context_of, run, sanitize_error,
}
use ai_pmo_copilot.Events.Workflow.Rows.{
  RowIs, OthersKept, any_of-find_first, find_first-update_run_at, start-RowIs, start-OthersKept,
  update_run-OthersKept,
}
use ai_pmo_copilot.Events.Workflow.Steps.{Stepped, run_steps-Stepped}

module _ (i n : String) where
  -- What a run answers and records of the key, by what the steps gave.
  abbrev pub Recorded :
      {P : Type 0}
      → ℕ
      → ℕ
      → Result Raised (WorkflowContext P)
      → Result RunError (WorkflowContext P)
      → List WorkflowExecution
      → Type 0
  Recorded started_at finished_at (ok context) answer es =
      (answer ≡ ok context)
      × RowIs i n
          (λ e.
            (e.status ≡ completed)
            × (e.started_at ≡ started_at)
            × (e.finished_at ≡ some finished_at)
            × (e.error ≡ none))
          es
  Recorded started_at finished_at (err exc) answer es =
      (answer ≡ err (step_raised exc))
      × RowIs i n
          (λ e.
            (e.status ≡ failed)
            × (e.started_at ≡ started_at)
            × (e.finished_at ≡ some finished_at)
            × (e.error
                ≡ some (truncate 500 (str_append exc.type_name (str_append ": " exc.message)))))
          es

  record_outcome-Recorded :
      {P : Type 0} (started_at finished_at : ℕ) (started : List WorkflowExecution)
      (stepped : Result Raised (WorkflowContext P))
      → RowIs i n (λ e. e.started_at ≡ started_at) started
      → Recorded started_at finished_at stepped
          (record_outcome finished_at i n started stepped).0
          (record_outcome finished_at i n started stepped).1
  unfolding complete fail sanitize_error
  record_outcome-Recorded started_at finished_at started (ok context) (row, there, since) =
      let h = any_of-find_first i n started row there in
      let found = find_first-update_run_at i n _ started row (λ e j m. refl) there in
      rw h (refl, (_, found, (refl, since, refl, refl)))
  record_outcome-Recorded started_at finished_at started (err exc) (row, there, since) =
      let h = any_of-find_first i n started row there in
      let found = find_first-update_run_at i n _ started row (λ e j m. refl) there in
      rw h (refl, (_, found, (refl, since, refl, refl)))

  record_outcome-OthersKept :
      {P : Type 0} (now : ℕ) (started : List WorkflowExecution)
      (stepped : Result Raised (WorkflowContext P))
      → any_of (is_run i n) started ≡ true
      → OthersKept i n started (record_outcome now i n started stepped).1
  unfolding complete fail
  record_outcome-OthersKept now started (ok context) h =
      rw h (update_run-OthersKept i n _ started (λ e j m. refl))
  record_outcome-OthersKept now started (err exc) h =
      rw h (update_run-OthersKept i n _ started (λ e j m. refl))

-- Whatever the table held before, a first run or a retry: the steps are called in turn from the
-- context of the event, each with the context that the one before it returned, until one raises. If all
-- returned, `run` answers their context and the row of the event and the workflow is completed, without
-- an error; if one raised, `run` raises the same and the row is failed, with the first 500 characters of
-- its type's name, a colon and its message. The row shows when this run started and finished, and the
-- rows of other events and workflows are as before.
pub run-Recorded :
    {P W : Type 0} (started_at finished_at : ℕ) (workflow_name : String)
    (steps : List (WorkflowContext P → W → Result Raised (WorkflowContext P) × W))
    (event : DomainEvent P) (executions : List WorkflowExecution) (w : W)
    → (stepped : Result Raised (WorkflowContext P)) × Stepped steps
        (record {
          correlation_id = event.correlation_id;
          organization_id = event.organization_id;
          payload = event.payload;
        })
        w
        stepped
        (run started_at finished_at workflow_name steps event (executions, w)).2
      × Recorded event.event_id workflow_name started_at finished_at stepped
          (run started_at finished_at workflow_name steps event (executions, w)).0
          (run started_at finished_at workflow_name steps event (executions, w)).1
      × OthersKept event.event_id workflow_name executions
          (run started_at finished_at workflow_name steps event (executions, w)).1
unfolding run
run-Recorded started_at finished_at workflow_name steps event executions w =
    let i = event.event_id in
    let started =
      start started_at i workflow_name event.organization_id event.correlation_id executions in
    let row =
      start-RowIs i workflow_name started_at event.organization_id event.correlation_id
        executions in
    let after_steps = run_steps steps (context_of event) w in
    (
      after_steps.0,
      run_steps-Stepped steps (context_of event) w,
      record_outcome-Recorded i workflow_name started_at finished_at started after_steps.0 row,
      λ j m other.
          record_outcome-OthersKept i workflow_name finished_at started after_steps.0
            (any_of-find_first i workflow_name started row.0 row.1) j m other
          ∙ start-OthersKept i workflow_name started_at event.organization_id event.correlation_id
              executions j m other,
    )
