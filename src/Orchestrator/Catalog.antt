-- ===== src/Orchestrator/Catalog.antt =====
-- src/services/executive_orchestrator/catalog.py. A dictionary is the list of its entries, a set the
-- list of its elements.
use ai_pmo_copilot.Common.{String, List, [], ◌∷◌}
use ai_pmo_copilot.Orchestrator.Types.{AdvisorIdentity}

abbrev identity : String → String → AdvisorIdentity
identity name description = record { name = name; description = description }

abbrev pub advisor_identity_catalog : List AdvisorIdentity
advisor_identity_catalog =
    identity "risk_advisor"
      "Sintetiza riscos já identificados de um projeto -- nunca cria ou infere um novo risco."
    ∷ identity "delivery_advisor"
        "Sintetiza o estado de entrega de um projeto a partir de ações, riscos e histórico já existentes."
    ∷ identity "portfolio_advisor"
        "Avalia equilíbrio, dependências e sobreposição entre os projetos de um Portfolio específico."
    ∷ identity "pmo_advisor"
        "Relata se o processo de acompanhamento de status é seguido pelos projetos da organização -- nunca decide composição de portfólio."
    ∷ identity "executive_advisor"
        "Síntese executiva do que exige atenção da liderança agora, combinando status e risco, sem referência a estratégia declarada."
    ∷ identity "strategy_advisor"
        "Responde se a execução continua alinhada com a estratégia declarada de Portfolio/Program/Project -- nunca 'o que exige atenção agora'."
    ∷ identity "document_advisor"
        "Responde perguntas pontuais sobre o conteúdo de documentos já indexados, citando document_id/chunk_id reais."
    ∷ identity "governance_advisor"
        "Responde perguntas de conformidade/governança sobre documentos já indexados, classificando institucionalmente a resposta."
    ∷ []

abbrev pub vocabulary : List (String × List String)
vocabulary =
    ("risk_advisor", "risco" ∷ "riscos" ∷ "mitigação" ∷ "ameaça" ∷ "escalação" ∷ [])
    ∷ ("delivery_advisor", "entrega" ∷ "status" ∷ "andamento" ∷ "progresso" ∷ [])
    ∷ ("portfolio_advisor", "portfólio" ∷ "portfolio" ∷ "equilíbrio" ∷ "sobreposição" ∷ [])
    ∷ ("pmo_advisor", "pmo" ∷ "processo de acompanhamento" ∷ "acompanhamento" ∷ [])
    ∷ ("executive_advisor", "liderança" ∷ "atenção da liderança" ∷ "executivo" ∷ [])
    ∷ ("strategy_advisor", "estratégia" ∷ "estratégico" ∷ "alinhamento" ∷ "objetivo declarado" ∷ [])
    ∷ ("document_advisor", "documento" ∷ "documentos" ∷ "runbook" ∷ [])
    ∷ ("governance_advisor", "governança" ∷ "conformidade" ∷ "política" ∷ [])
    ∷ []

abbrev pub advisor_names_requiring_portfolio_id : List String
advisor_names_requiring_portfolio_id = "portfolio_advisor" ∷ []

abbrev pub advisor_eligible_scopes : List (String × List String)
advisor_eligible_scopes =
    ("risk_advisor", "project" ∷ "organization" ∷ [])
    ∷ ("delivery_advisor", "project" ∷ "organization" ∷ [])
    ∷ ("portfolio_advisor", "portfolio" ∷ "organization" ∷ [])
    ∷ ("pmo_advisor", "organization" ∷ [])
    ∷ ("executive_advisor", "organization" ∷ [])
    ∷ ("strategy_advisor", "organization" ∷ [])
    ∷ ("document_advisor", "organization" ∷ [])
    ∷ ("governance_advisor", "organization" ∷ [])
    ∷ []
