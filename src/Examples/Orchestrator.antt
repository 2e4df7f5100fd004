-- ===== src/Examples/Orchestrator.antt =====
-- An orchestration at concrete services: src/services/executive_orchestrator/.
use ai_pmo_copilot.Common.{
  String, ◌≡◌, ◌≢◌, refl, true, none, some, List, [], ◌∷◌, Result, ok, Ensures, All, IsElem, length,
  select,
}
use ai_pmo_copilot.Orchestrator.Types.{
  SelectionSignals, SelectionOutcome, Evidence, Explanation, AttributedExplanation,
  CorrelationFinding, executive_briefing, Exn,
}
use ai_pmo_copilot.Orchestrator.Catalog.{advisor_identity_catalog}
use ai_pmo_copilot.Orchestrator.Selection.{evaluate_selection_rule, is_selected}
use ai_pmo_copilot.Orchestrator.Selection.Soundness.{
  IsOk, IsSelection, evaluate_selection_rule_sound, evaluate_selection_rule_total,
  is_selected-portfolio, is_selected-organization,
}
use ai_pmo_copilot.Orchestrator.Correlation.{correlate, has_real_evidence}
use ai_pmo_copilot.Orchestrator.Correlation.Pairs.{
  IsFinding, IsBefore, Cites, pairs, correlate-pairs,
}
use ai_pmo_copilot.Orchestrator.Advising.{
  ModelOutput, number, SessionContext, EvidenceAccess, Agents, advised,
}
use ai_pmo_copilot.Orchestrator.Advising.Citations.{advised-cites_evidence}
use ai_pmo_copilot.Orchestrator.Run.{Contribution, run}
use ai_pmo_copilot.Orchestrator.Run.Totality.{Reads, Answers, run_total}
use ai_pmo_copilot.Orchestrator.Run.Outcome.{IsOutcome, run-IsOutcome}

-- A lower-casing that leaves texts in lower case as they are.
abbrev lower : String → String
lower text = text

abbrev risk_question : SelectionSignals
risk_question = record {
  explicit = "risco" ∷ "portfolio" ∷ [];
  question = "";
  scope = record { project_name = none; portfolio_id = some 4 };
}

abbrev whole_organization : SelectionSignals
whole_organization = record {
  explicit = "risco" ∷ "pmo" ∷ [];
  question = "";
  scope = record { project_name = none; portfolio_id = none };
}

evaluate_selection_rule_sound_example :
    Ensures
      (IsSelection lower whole_organization advisor_identity_catalog)
      (evaluate_selection_rule lower whole_organization advisor_identity_catalog)
evaluate_selection_rule_sound_example =
    evaluate_selection_rule_sound lower whole_organization advisor_identity_catalog

evaluate_selection_rule_total_example :
    IsOk (evaluate_selection_rule lower risk_question advisor_identity_catalog)
evaluate_selection_rule_total_example = evaluate_selection_rule_total lower risk_question

portfolio_selected : is_selected lower risk_question "portfolio_advisor" ≡ ok true
unfolding is_selected
portfolio_selected = refl

is_selected-portfolio_example :
    (risk_question.scope.portfolio_id ≢ none) × (risk_question.scope.project_name ≡ none)
is_selected-portfolio_example = is_selected-portfolio lower risk_question portfolio_selected

pmo_selected : is_selected lower whole_organization "pmo_advisor" ≡ ok true
unfolding is_selected
pmo_selected = refl

is_selected-organization_example :
    (whole_organization.scope.portfolio_id ≡ none) × (whole_organization.scope.project_name ≡ none)
is_selected-organization_example =
    is_selected-organization lower whole_organization "pmo_advisor" refl pmo_selected

abbrev status : Evidence Unit
status = record {
  source_type = "analysis_record";
  source_id = 7;
  source_label = "Status";
  data_of = tt;
}

abbrev session : SessionContext
session = record { organization_id = 1; user_id = 2; session_id = "s" }

-- It cites one piece of evidence and invents another.
abbrev model_output : ModelOutput
model_output = record {
  structured = true;
  answer = some "ok";
  cited_analysis_ids = some (number 7 ∷ number 99 ∷ []);
}

abbrev agents : Agents Unit Unit
agents = record { advise = λ name s question evidence rag. ok model_output }

advised-cites_evidence_example :
    Ensures
      (λ (x : Explanation Unit).
        All (λ item. IsElem item (status ∷ [])) x.recommendation.cited_evidence)
      (advised agents "risk_advisor" session "risco?" (status ∷ []) none none)
advised-cites_evidence_example =
    advised-cites_evidence agents "risk_advisor" session "risco?" (status ∷ []) none none

abbrev explained : String → List (Evidence Unit) → AttributedExplanation Unit
explained name evidence = record {
  advisor_name = name;
  explanation = record {
    recommendation = record { answer = "ok"; cited_evidence = evidence };
    rationale_count = length evidence;
  };
}

abbrev three_advisors : List (AttributedExplanation Unit)
three_advisors =
    explained "risk_advisor" (status ∷ [])
    ∷ explained "delivery_advisor" (status ∷ [])
    ∷ explained "pmo_advisor" []
    ∷ []

correlate-pairs_example :
    (length (correlate three_advisors) ≡ pairs (length (select has_real_evidence three_advisors)))
    × All (IsFinding three_advisors) (correlate three_advisors)
    × ((a b : AttributedExplanation Unit)
        → IsBefore a b three_advisors
        → Cites a
        → Cites b
        → (finding : CorrelationFinding Unit) × IsElem finding (correlate three_advisors)
          × (finding.explanations ≡ (a, b)))
correlate-pairs_example = correlate-pairs three_advisors

abbrev access : EvidenceAccess Unit Unit
access = record {
  gather_context = λ organization_id project kind. ok (status ∷ []);
  gather_rag_context = λ organization_id question top_k. ok tt;
  normalize_rag_evidence = λ rag. [];
  assemble_portfolio = λ organization_id portfolio_id. ok none;
  assemble_pmo = λ organization_id. ok [];
  assemble_executive = λ organization_id. ok [];
  assemble_strategy = λ organization_id. ok [];
}

abbrev synthesize : SessionContext → String → List Contribution → Result Exn String
synthesize s question contributions = ok "summary"

run-IsOutcome_example :
    Ensures
      (λ result.
        (outcome : SelectionOutcome) × (evaluate_selection_rule lower whole_organization
            advisor_identity_catalog
          ≡ ok outcome)
        × IsOutcome access agents synthesize executive_briefing session "?" whole_organization
            outcome [] result)
      (run access agents synthesize lower executive_briefing session "?" whole_organization [])
run-IsOutcome_example =
    run-IsOutcome access agents synthesize executive_briefing session "?" whole_organization lower
      []

reads : Reads access
reads = record {
  context = λ g project kind. (_, refl);
  rag = λ g question k. (_, refl);
  portfolio = λ g id. (_, refl);
  pmo = λ g. (_, refl);
  executive = λ g. (_, refl);
  strategy = λ g. (_, refl);
}

answers : Answers agents
answers name s question evidence rag = (model_output, "ok", refl, refl, refl, (7 ∷ 99 ∷ [], refl))

run_total_example :
    IsOk (run access agents synthesize lower executive_briefing session "?" whole_organization [])
run_total_example =
    run_total access agents synthesize reads answers (λ s question cs. (_, refl)) lower
      executive_briefing session "?" whole_organization []
