-- ===== src/Events/Workflow.antt =====
-- src/workflows/runtime.py and execution_tracking.py. A time is the reading of the clock that the
-- code makes there. A step returns a context or raises, and does what it does to a state of its own.
pub mod Rows
pub mod Steps
pub mod Outcome
use ai_pmo_copilot.Common.{
  ℕ, String, Option, none, some, Bool, ◌&&◌, List, [], ◌∷◌, ◌++◌, Result, ok, err, str_eq,
  str_append, truncate, if◌then◌else◌, any_of,
}
use ai_pmo_copilot.Events.Dispatch.{DomainEvent}

pub data Status : Type 0 where
  running completed failed : Status

pub record WorkflowExecution : Type 0 where
  pub event_id : String
  pub workflow_name : String
  pub organization_id : ℕ
  pub correlation_id : String
  pub status : Status
  pub started_at : ℕ
  pub finished_at : Option ℕ
  pub error : Option String

-- `type(exc).__name__` and `str(exc)`
pub record Raised : Type 0 where
  pub type_name : String
  pub message : String

abbrev pub max_error_length : ℕ
max_error_length = 500

unfoldable pub sanitize_error : Raised → String
sanitize_error exc =
    truncate max_error_length (str_append exc.type_name (str_append ": " exc.message))

abbrev pub is_run : String → String → WorkflowExecution → Bool
is_run event_id workflow_name e = str_eq e.event_id event_id && str_eq e.workflow_name workflow_name

-- a write to the row of the key, which `UNIQUE(event_id, workflow_name)` makes the only one
unfoldable pub update_run :
    String
    → String
    → (WorkflowExecution → WorkflowExecution)
    → List WorkflowExecution
    → List WorkflowExecution
update_run event_id workflow_name change [] = []
update_run event_id workflow_name change (e ∷ es) =
    if is_run event_id workflow_name e
    then change e ∷ es
    else e ∷ update_run event_id workflow_name change es

-- `start`: `INSERT ... ON CONFLICT DO UPDATE`
unfoldable pub start :
    ℕ → String → String → ℕ → String → List WorkflowExecution → List WorkflowExecution
unfolding update_run
start now event_id workflow_name organization_id correlation_id executions =
    if any_of (is_run event_id workflow_name) executions
    then update_run event_id workflow_name
        (λ e. record e { status = running; started_at = now; finished_at = none; error = none })
        executions
    else executions
      ++ record {
        event_id = event_id;
        workflow_name = workflow_name;
        organization_id = organization_id;
        correlation_id = correlation_id;
        status = running;
        started_at = now;
        finished_at = none;
        error = none;
      }
        ∷ []

-- `.one()` of `complete` and `fail`, which raises without a row
pub data TrackerError : Type 0 where
  no_result_found : TrackerError

unfoldable pub complete :
    ℕ → String → String → List WorkflowExecution → Result TrackerError (List WorkflowExecution)
unfolding update_run
complete now event_id workflow_name executions =
    if any_of (is_run event_id workflow_name) executions
    then ok (
        update_run event_id workflow_name
          (λ e. record e { status = completed; finished_at = some now; error = none }) executions)
    else err no_result_found

unfoldable pub fail :
    ℕ
    → String
    → String
    → Raised
    → List WorkflowExecution
    → Result TrackerError (List WorkflowExecution)
unfolding update_run sanitize_error
fail now event_id workflow_name exc executions =
    if any_of (is_run event_id workflow_name) executions
    then ok (
        update_run event_id workflow_name
          (λ e. record e {
            status = failed;
            finished_at = some now;
            error = some (sanitize_error exc);
          })
          executions)
    else err no_result_found

pub record WorkflowContext (P : Type 0) : Type 0 where
  pub correlation_id : String
  pub organization_id : ℕ
  pub payload : P

pub data RunError : Type 0 where
  step_raised : Raised → RunError
  tracker_raised : TrackerError → RunError

module _ {P : Type 0} where
  -- the answer, unless the tracker itself raises
  abbrev pub tracked :
      Result RunError (WorkflowContext P)
      → List WorkflowExecution
      → Result TrackerError (List WorkflowExecution)
      → Result RunError (WorkflowContext P) × List WorkflowExecution
  tracked answer started (ok executions) = (answer, executions)
  tracked answer started (err e) = (err (tracker_raised e), started)

  -- what the tracker records of the steps' result, and what `run` answers
  abbrev pub record_outcome :
      ℕ
      → String
      → String
      → List WorkflowExecution
      → Result Raised (WorkflowContext P)
      → Result RunError (WorkflowContext P) × List WorkflowExecution
  record_outcome now event_id workflow_name started (ok context) =
      tracked (ok context) started (complete now event_id workflow_name started)
  record_outcome now event_id workflow_name started (err exc) =
      tracked (err (step_raised exc)) started (fail now event_id workflow_name exc started)

  abbrev pub context_of : DomainEvent P → WorkflowContext P
  context_of event = record {
    correlation_id = event.correlation_id;
    organization_id = event.organization_id;
    payload = event.payload;
  }

module _ {P W : Type 0} where
  -- `for step in steps: context = step(context)`, with the state that the steps act on
  unfoldable pub run_steps :
      List (WorkflowContext P → W → Result Raised (WorkflowContext P) × W)
      → WorkflowContext P
      → W
      → Result Raised (WorkflowContext P) × W
  run_steps [] context w = (ok context, w)
  run_steps (step ∷ steps) context w = elim ((step context w).0) [
    | ok next ↦ run_steps steps next (step context w).1
    | err exc ↦ (err exc, (step context w).1)
  ]

  -- `WorkflowRuntime.run`: what it returns or raises, the executions and the steps' state after it
  unfoldable pub run :
      ℕ
      → ℕ
      → String
      → List (WorkflowContext P → W → Result Raised (WorkflowContext P) × W)
      → DomainEvent P
      → List WorkflowExecution × W
      → Result RunError (WorkflowContext P) × List WorkflowExecution × W
  unfolding start complete fail run_steps
  run started_at finished_at workflow_name steps event (executions, w) =
      let started =
        start started_at event.event_id workflow_name event.organization_id event.correlation_id
          executions in
      let stepped = run_steps steps (context_of event) w in
      let (answer, recorded) =
        record_outcome finished_at event.event_id workflow_name started stepped.0 in
      (answer, recorded, stepped.1)
