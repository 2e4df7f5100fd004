-- ===== src/Orchestrator/Run.antt =====
-- src/services/executive_orchestrator/orchestrator.py. `synthesize` is the operation of synthesis.py,
-- given what it sends of each explanation: the advisor, its answer and whether it cited evidence.
pub mod Answering
pub mod Outcome
pub mod Totality
use ai_pmo_copilot.Common.{
  ℕ, String, Bool, true, false, ◌||◌, Option, none, some, List, [], ◌∷◌, ◌++◌, map, select, Result,
  ok, err, ◌>>=◌, if◌then◌else◌,
}
use ai_pmo_copilot.Orchestrator.Types.{
  Capability, executive_briefing, executive_narrative, cross_advisor_correlation, conflict_analysis,
  recommendation_package, decision_support, selection_empty, collection_empty, Exn, AdvisorIdentity,
  SelectionSignals, SelectionOutcome, AttributedExplanation, CorrelationFinding, CompositionTrace,
  empty_trace, with_selection, with_execution, with_correlations, with_synthesis,
  ExecutiveIntelligenceResult, insufficient_basis, complete,
}
use ai_pmo_copilot.Orchestrator.Catalog.{advisor_identity_catalog}
use ai_pmo_copilot.Orchestrator.Selection.{evaluate_selection_rule}
use ai_pmo_copilot.Orchestrator.Advising.{
  SessionContext, EvidenceAccess, Agents, AskedQuestion, framework_run, advised,
}
use ai_pmo_copilot.Orchestrator.Provisioning.{ProvisionedAdvisor, provision}
use ai_pmo_copilot.Orchestrator.Correlation.{is_cited, correlate, has_real_evidence}

-- `capability in CAPABILITIES_WITH_SYNTHESIS`
abbrev pub with_synthesis? : Capability → Bool
with_synthesis? executive_briefing = true
with_synthesis? executive_narrative = true
with_synthesis? cross_advisor_correlation = false
with_synthesis? conflict_analysis = false
with_synthesis? recommendation_package = true
with_synthesis? decision_support = true

-- `capability == Capability.CONFLICT_ANALYSIS`
abbrev pub is_conflict_analysis : Capability → Bool
is_conflict_analysis conflict_analysis = true
is_conflict_analysis _ = false

-- What the loop over the selected identities holds.
pub record Collected (D : Type 0) : Type 0 where
  pub explanations : List (AttributedExplanation D)
  pub any_had_evidence : Bool
  pub trace : CompositionTrace
  pub asked : List AskedQuestion

-- what `synthesize` sends of one explanation
pub record Contribution : Type 0 where
  pub advisor : String
  pub answer : String
  pub had_evidence : Bool

module _ {D : Type 0} where
  abbrev pub contribution : AttributedExplanation D → Contribution
  contribution item = record {
    advisor = item.advisor_name;
    answer = item.explanation.recommendation.answer;
    had_evidence = is_cited item.explanation.recommendation.cited_evidence;
  }

  unfoldable pub correlation_for :
      Capability → List (AttributedExplanation D) → List (CorrelationFinding D)
  unfolding correlate
  correlation_for capability explanations =
      if is_conflict_analysis capability
      then select (λ (f : CorrelationFinding D). f.is_structural_pair) (correlate explanations)
      else correlate explanations

  abbrev pub traced : List (CorrelationFinding D) → CompositionTrace → CompositionTrace
  traced findings trace =
      with_correlations
        (map
          (λ (f : CorrelationFinding D). record {
            advisor_names = f.advisor_names;
            is_structural_pair = f.is_structural_pair;
          })
          findings)
        trace

module _ {D R : Type 0} where
  -- one pass of the loop, for an advisor that has been provisioned and has answered
  abbrev pub with_answer :
      String
      → ProvisionedAdvisor D R
      → Collected D
      → List AskedQuestion
      → AttributedExplanation D
      → Collected D
  with_answer name provisioned c asked explanation = record {
    explanations = c.explanations ++ explanation ∷ [];
    any_had_evidence = c.any_had_evidence || is_cited provisioned.evidence;
    trace =
        with_execution
          (record { advisor_name = name; had_evidence = is_cited provisioned.evidence }) c.trace;
    asked = asked;
  }

module _ {D R : Type 0} (access : EvidenceAccess D R) (agents : Agents D R) where
  unfoldable pub collect :
      SessionContext
      → String
      → SelectionSignals
      → List AdvisorIdentity
      → Collected D
      → Result Exn (Collected D)
  unfolding provision framework_run
  collect session question signals [] c = ok c
  collect session question signals (identity ∷ identities) c = do
    provisioned ← provision access identity.name session question signals.scope
    let (answer, asked) =
        framework_run agents provisioned.agent session question provisioned.evidence
          provisioned.rag_context (some provisioned.no_evidence_answer) c.asked
    explanation ← answer
    collect session question signals identities (
        with_answer identity.name provisioned c asked
          (record { advisor_name = identity.name; explanation = explanation }))

module _ {D : Type 0}
    (synthesize : SessionContext → String → List Contribution → Result Exn String) where
  -- `run` after the collection
  unfoldable pub conclude :
      Capability
      → SessionContext
      → String
      → List AdvisorIdentity
      → Collected D
      → Result Exn (ExecutiveIntelligenceResult D)
  unfolding correlation_for has_real_evidence
  conclude capability session question selected c =
      if c.any_had_evidence
      then (if with_synthesis? capability
          then (synthesize session question (map contribution c.explanations) >>= λ text.
              complete capability
                (with_synthesis
                  (record {
                    source_advisor_names =
                        map (λ (item : AttributedExplanation D). item.advisor_name)
                          (select has_real_evidence c.explanations);
                  })
                  (traced (correlation_for capability c.explanations) c.trace))
                selected c.explanations (correlation_for capability c.explanations) (some text))
          else complete capability (traced (correlation_for capability c.explanations) c.trace)
              selected c.explanations (correlation_for capability c.explanations) none)
      else insufficient_basis capability c.trace collection_empty selected c.explanations

module _ {D R : Type 0} (access : EvidenceAccess D R) (agents : Agents D R)
    (synthesize : SessionContext → String → List Contribution → Result Exn String) where
  abbrev pub run_selected :
      Capability
      → SessionContext
      → String
      → SelectionSignals
      → SelectionOutcome
      → List AdvisorIdentity
      → List AskedQuestion
      → Result Exn (ExecutiveIntelligenceResult D × List AskedQuestion)
  run_selected capability session question signals outcome [] asked =
      insufficient_basis capability (with_selection outcome.trace_entry empty_trace) selection_empty
        [] []
      >>= λ result. ok (result, asked)
  run_selected capability session question signals outcome (identity ∷ identities) asked =
      collect access agents session question signals (identity ∷ identities) (record {
        explanations = [];
        any_had_evidence = false;
        trace = with_selection outcome.trace_entry empty_trace;
        asked = asked;
      })
      >>= λ c.
          conclude synthesize capability session question (identity ∷ identities) c >>= λ result.
          ok (result, c.asked)

  -- `run`, with the questions that are recorded when it returns
  unfoldable pub run :
      (String → String)
      → Capability
      → SessionContext
      → String
      → SelectionSignals
      → List AskedQuestion
      → Result Exn (ExecutiveIntelligenceResult D × List AskedQuestion)
  unfolding evaluate_selection_rule collect conclude
  run lower capability session question signals asked =
      evaluate_selection_rule lower signals advisor_identity_catalog >>= λ outcome.
      run_selected capability session question signals outcome outcome.selected asked
