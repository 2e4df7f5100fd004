-- ===== src/Orchestrator/Types.antt =====
-- src/services/executive_orchestrator/types.py, with the types of selection_rule.py and of
-- src/services/ai_foundation/types.py that it holds. `D` stands for an evidence's content and
-- metadata, which are never read here.
use ai_pmo_copilot.Common.{
  ℕ, String, Bool, Option, none, some, List, [], ◌∷◌, ◌++◌, Result, ok, err,
}

pub data Capability : Type 0 where
  executive_briefing executive_narrative cross_advisor_correlation : Capability
  conflict_analysis recommendation_package decision_support : Capability

pub data InsufficientBasisReason : Type 0 where
  selection_empty collection_empty : InsufficientBasisReason

-- What is raised: `KeyError`, `ValueError`, `TypeError`, `AdvisorExecutionError`, and what the services that the
-- orchestrator calls raise.
pub data Exn : Type 0 where
  key_error value_error type_error advisor_execution_error : Exn
  service_error : String → Exn

pub record AdvisorIdentity : Type 0 where
  pub name : String
  pub description : String

pub record OrchestrationScope : Type 0 where
  pub project_name : Option String
  pub portfolio_id : Option ℕ

-- `explicit` lists a set.
pub record SelectionSignals : Type 0 where
  pub explicit : List String
  pub question : String
  pub scope : OrchestrationScope

pub record SelectionTraceEntry : Type 0 where
  pub signals : List String
  pub selected_advisor_names : List String

pub record SelectionOutcome : Type 0 where
  pub selected : List AdvisorIdentity
  pub trace_entry : SelectionTraceEntry

pub record Evidence (D : Type 0) : Type 0 where
  pub source_type : String
  pub source_id : ℕ
  pub source_label : String
  pub data_of : D

pub record Recommendation (D : Type 0) : Type 0 where
  pub answer : String
  pub cited_evidence : List (Evidence D)

-- `rationale` is a fixed text around this count.
pub record Explanation (D : Type 0) : Type 0 where
  pub recommendation : Recommendation D
  pub rationale_count : ℕ

pub record AttributedExplanation (D : Type 0) : Type 0 where
  pub advisor_name : String
  pub explanation : Explanation D

pub record CorrelationFinding (D : Type 0) : Type 0 where
  pub advisor_names : String × String
  pub is_structural_pair : Bool
  pub explanations : AttributedExplanation D × AttributedExplanation D

pub record ExecutionTraceEntry : Type 0 where
  pub advisor_name : String
  pub had_evidence : Bool

pub record CorrelationTraceEntry : Type 0 where
  pub advisor_names : String × String
  pub is_structural_pair : Bool

pub record SynthesisTraceEntry : Type 0 where
  pub source_advisor_names : List String

pub record CompositionTrace : Type 0 where
  pub selection : Option SelectionTraceEntry
  pub executions : List ExecutionTraceEntry
  pub correlations : List CorrelationTraceEntry
  pub synthesis : Option SynthesisTraceEntry

abbrev pub empty_trace : CompositionTrace
empty_trace = record { selection = none; executions = []; correlations = []; synthesis = none }

abbrev pub with_selection : SelectionTraceEntry → CompositionTrace → CompositionTrace
with_selection entry trace = record trace { selection = some entry }

abbrev pub with_execution : ExecutionTraceEntry → CompositionTrace → CompositionTrace
with_execution entry trace = record trace { executions = trace.executions ++ entry ∷ [] }

abbrev pub with_correlations : List CorrelationTraceEntry → CompositionTrace → CompositionTrace
with_correlations entries trace = record trace { correlations = trace.correlations ++ entries }

abbrev pub with_synthesis : SynthesisTraceEntry → CompositionTrace → CompositionTrace
with_synthesis entry trace = record trace { synthesis = some entry }

pub record ExecutiveIntelligenceResult (D : Type 0) : Type 0 where
  pub capability : Capability
  pub composition_trace : CompositionTrace
  pub advisor_identities : List AdvisorIdentity
  pub explanations : List (AttributedExplanation D)
  pub correlation : List (CorrelationFinding D)
  pub synthesis : Option String
  pub insufficient_basis_reason : Option InsufficientBasisReason

module _ {D : Type 0} where
  abbrev checked :
      Option InsufficientBasisReason
      → Option String
      → List (CorrelationFinding D)
      → ExecutiveIntelligenceResult D
      → Result Exn (ExecutiveIntelligenceResult D)
  checked none synthesis correlation r = ok r
  checked (some reason) (some text) correlation r = err value_error
  checked (some reason) none (finding ∷ findings) r = err value_error
  checked (some reason) none [] r = ok r

  -- `__post_init__`
  abbrev pub post_init : ExecutiveIntelligenceResult D → Result Exn (ExecutiveIntelligenceResult D)
  post_init r = checked r.insufficient_basis_reason r.synthesis r.correlation r

  abbrev pub insufficient_basis :
      Capability
      → CompositionTrace
      → InsufficientBasisReason
      → List AdvisorIdentity
      → List (AttributedExplanation D)
      → Result Exn (ExecutiveIntelligenceResult D)
  insufficient_basis capability trace reason advisor_identities explanations = post_init (record {
    capability = capability;
    composition_trace = trace;
    advisor_identities = advisor_identities;
    explanations = explanations;
    correlation = [];
    synthesis = none;
    insufficient_basis_reason = some reason;
  })

  abbrev pub complete :
      Capability
      → CompositionTrace
      → List AdvisorIdentity
      → List (AttributedExplanation D)
      → List (CorrelationFinding D)
      → Option String
      → Result Exn (ExecutiveIntelligenceResult D)
  complete capability trace advisor_identities explanations correlation synthesis =
      post_init (record {
        capability = capability;
        composition_trace = trace;
        advisor_identities = advisor_identities;
        explanations = explanations;
        correlation = correlation;
        synthesis = synthesis;
        insufficient_basis_reason = none;
      })
