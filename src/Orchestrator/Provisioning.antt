-- ===== src/Orchestrator/Provisioning.antt =====
-- src/services/executive_orchestrator/provisioning.py. An agent is its advisor's name.
use ai_pmo_copilot.Common.{
  String, Option, none, some, List, [], Result, ok, err, ◌>>=◌, str_eq, if◌then◌else◌,
}
use ai_pmo_copilot.Orchestrator.Types.{Exn, value_error, Evidence, OrchestrationScope}
use ai_pmo_copilot.Orchestrator.Advising.{SessionContext, EvidenceAccess}

pub record ProvisionedAdvisor (D R : Type 0) : Type 0 where
  pub agent : String
  pub evidence : List (Evidence D)
  pub rag_context : Option R
  pub no_evidence_answer : String

module _ {D R : Type 0} (access : EvidenceAccess D R) where
  open access use {
    gather_context, gather_rag_context, normalize_rag_evidence, assemble_portfolio, assemble_pmo,
    assemble_executive, assemble_strategy,
  }

  abbrev with_evidence :
      String
      → String
      → Option R
      → Result Exn (List (Evidence D))
      → Result Exn (ProvisionedAdvisor D R)
  with_evidence agent no_evidence_answer rag_context gathered = gathered >>= λ evidence.
      ok (record {
        agent = agent;
        evidence = evidence;
        rag_context = rag_context;
        no_evidence_answer = no_evidence_answer;
      })

  -- `result.evidence if result is not None else []`
  abbrev evidence_or_none : Option (List (Evidence D)) → List (Evidence D)
  evidence_or_none none = []
  evidence_or_none (some evidence) = evidence

  abbrev with_documents : String → String → Result Exn R → Result Exn (ProvisionedAdvisor D R)
  with_documents agent no_evidence_answer retrieved = retrieved >>= λ rag.
      with_evidence agent no_evidence_answer (some rag) (ok (normalize_rag_evidence rag))

  unfoldable pub provision :
      String → SessionContext → String → OrchestrationScope → Result Exn (ProvisionedAdvisor D R)
  provision advisor_name session question scope =
      if str_eq advisor_name "risk_advisor"
      then with_evidence "risk_advisor" "Nenhum risco identificado ainda para este projeto." none
          (gather_context session.organization_id scope.project_name "risk")
      else if str_eq advisor_name "delivery_advisor"
      then with_evidence "delivery_advisor"
          "Nenhuma análise de status registrada ainda para este projeto." none
          (gather_context session.organization_id scope.project_name "status")
      else if str_eq advisor_name "portfolio_advisor"
      then with_evidence "portfolio_advisor"
          "Nenhuma análise de status registrada para os projetos deste portfólio." none
          (assemble_portfolio session.organization_id scope.portfolio_id >>= λ result.
            ok (evidence_or_none result))
      else if str_eq advisor_name "pmo_advisor"
      then with_evidence "pmo_advisor"
          "Nenhuma análise de status registrada para os projetos desta organização." none
          (assemble_pmo session.organization_id)
      else if str_eq advisor_name "executive_advisor"
      then with_evidence "executive_advisor"
          "Nenhuma análise de status ou risco registrada para os projetos desta organização." none
          (assemble_executive session.organization_id)
      else if str_eq advisor_name "strategy_advisor"
      then with_evidence "strategy_advisor"
          "Nenhum objetivo declarado ou evidência de execução comparável registrada para esta organização."
          none (assemble_strategy session.organization_id)
      else if str_eq advisor_name "document_advisor"
      then with_documents "document_advisor"
          "Nenhum documento relevante foi encontrado para responder a esta pergunta."
          (gather_rag_context session.organization_id question 5)
      else if str_eq advisor_name "governance_advisor"
      then with_documents "governance_advisor"
          "[SEM EVIDÊNCIA]\nNenhuma referência de governança relevante foi encontrada para responder a esta pergunta."
          (gather_rag_context session.organization_id question 5)
      else err value_error
