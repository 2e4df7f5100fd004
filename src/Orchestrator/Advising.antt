-- ===== src/Orchestrator/Advising.antt =====
-- One advisor: `RecommendationEngine` and `ExplanationEngine` of src/services/ai_foundation/,
-- `AdvisorFramework.run` of src/services/advisor_framework/framework.py. The reads of the context
-- engine, of the evidence assemblers and of the retrieval, and the advisors' calls of the language model, are the
-- operations of the records `EvidenceAccess` and `Agents`; each returns or raises.
pub mod Citations
use ai_pmo_copilot.Common.{
  ℕ, String, Bool, true, false, ◌==◌, Option, none, some, List, [], ◌∷◌, ◌++◌, Result, ok, err,
  ◌>>=◌, or_raise, length, str_eq, if◌then◌else◌,
}
use ai_pmo_copilot.Orchestrator.Types.{
  Exn, type_error, advisor_execution_error, Evidence, Recommendation, Explanation,
  OrchestrationScope,
}

pub record SessionContext : Type 0 where
  pub organization_id : ℕ
  pub user_id : ℕ
  pub session_id : String

-- An element of the cited ids, which come from JSON unchecked: a number, a value that is no key of
-- `by_id` (a text, null), or one that cannot be looked up (a list, an object).
pub data CitedId : Type 0 where
  number : ℕ → CitedId
  unmatched unhashable : CitedId

-- `model_output`: `answer` where it is a text, and the elements of
-- `cited_analysis_ids or []`; `none` for a value that is not iterable.
pub record ModelOutput : Type 0 where
  pub structured : Bool
  pub answer : Option String
  pub cited_analysis_ids : Option (List CitedId)

-- `framework.gather_context`, `normalize_rag_evidence(gather_rag_context(...))` and the assemblers
pub record EvidenceAccess (D R : Type 0) : Type 0 where
  pub gather_context : ℕ → Option String → String → Result Exn (List (Evidence D))
  pub gather_rag_context : ℕ → String → ℕ → Result Exn R
  pub normalize_rag_evidence : R → List (Evidence D)
  pub assemble_portfolio : ℕ → Option ℕ → Result Exn (Option (List (Evidence D)))
  pub assemble_pmo : ℕ → Result Exn (List (Evidence D))
  pub assemble_executive : ℕ → Result Exn (List (Evidence D))
  pub assemble_strategy : ℕ → Result Exn (List (Evidence D))

-- `advisor.advise`, by the advisor's name
pub record Agents (D R : Type 0) : Type 0 where
  pub advise :
      String → SessionContext → String → List (Evidence D) → Option R → Result Exn ModelOutput

-- what `AIFoundationAudit.record_question` writes
pub record AskedQuestion : Type 0 where
  pub advisor_name : String
  pub question : String

abbrev pub default_no_evidence_answer : String
default_no_evidence_answer = "Nenhuma evidência identificada ainda para este projeto."

-- `answer or ...`
abbrev pub answer_or : Option String → String → String
answer_or none default = default
answer_or (some answer) default = if str_eq answer "" then default else answer

module _ {D : Type 0} where
  unfoldable pub no_evidence : Option String → Recommendation D
  no_evidence answer = record {
    answer = answer_or answer default_no_evidence_answer;
    cited_evidence = [];
  }

  -- an entry of the dictionary, unless a later one replaces it
  abbrev pub later_or : Evidence D → ℕ → Option (Evidence D) → Option (Evidence D)
  later_or item id none = if item.source_id == id then some item else none
  later_or item id (some later) = some later

  -- `by_id.get(id)`: of two pieces of evidence with one id the later
  unfoldable pub by_id : List (Evidence D) → ℕ → Option (Evidence D)
  by_id [] id = none
  by_id (item ∷ items) id = later_or item id (by_id items id)

  abbrev pub with_cited : Option (Evidence D) → List (Evidence D) → List (Evidence D)
  with_cited none rest = rest
  with_cited (some item) rest = item ∷ rest

  -- `[by_id[id] for id in cited_ids if id in by_id]`
  unfoldable pub cited : List (Evidence D) → List CitedId → Result Exn (List (Evidence D))
  unfolding by_id
  cited evidence [] = ok []
  cited evidence (number id ∷ ids) = do
    rest ← cited evidence ids
    ok (with_cited (by_id evidence id) rest)
  cited evidence (unmatched ∷ ids) = cited evidence ids
  cited evidence (unhashable ∷ ids) = err type_error

  unfoldable pub build : String → List CitedId → List (Evidence D) → Result Exn (Recommendation D)
  unfolding cited
  build answer cited_ids evidence = do
    cited_evidence ← cited evidence cited_ids
    ok (record { answer = answer; cited_evidence = cited_evidence })

  abbrev pub explain : Recommendation D → Explanation D
  explain recommendation = record {
    recommendation = recommendation;
    rationale_count = length recommendation.cited_evidence;
  }

  -- what `run` makes of the model's output
  abbrev pub interpreted :
      List (Evidence D) → ModelOutput → Option String → Result Exn (Explanation D)
  interpreted evidence output none = err advisor_execution_error
  interpreted evidence output (some answer) =
      if output.structured
      then (or_raise type_error output.cited_analysis_ids >>= λ cited_ids.
          build answer cited_ids evidence >>= λ recommendation. ok (explain recommendation))
      else err advisor_execution_error

module _ {D R : Type 0} (agents : Agents D R) where
  -- The answer to the question, after it has been recorded.
  unfoldable pub advised :
      String
      → SessionContext
      → String
      → List (Evidence D)
      → Option R
      → Option String
      → Result Exn (Explanation D)
  unfolding no_evidence build
  advised advisor_name session question [] rag_context no_evidence_answer =
      ok (explain (no_evidence no_evidence_answer))
  advised advisor_name session question (item ∷ items) rag_context no_evidence_answer =
      agents.advise advisor_name session question (item ∷ items) rag_context >>= λ output.
      interpreted (item ∷ items) output output.answer

  -- `AdvisorFramework.run`, and the questions recorded when it returns or raises
  unfoldable pub framework_run :
      String
      → SessionContext
      → String
      → List (Evidence D)
      → Option R
      → Option String
      → List AskedQuestion
      → Result Exn (Explanation D) × List AskedQuestion
  unfolding advised
  framework_run advisor_name session question evidence rag_context no_evidence_answer asked = (
    advised advisor_name session question evidence rag_context no_evidence_answer,
    asked ++ record { advisor_name = advisor_name; question = question } ∷ [],
  )
