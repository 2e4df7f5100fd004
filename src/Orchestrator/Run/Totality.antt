-- ===== src/Orchestrator/Run/Totality.antt =====
-- An orchestration returns when the services that it calls do.
use ai_pmo_copilot.Common.{
  ℕ, String, ◌≡◌, refl, true, Option, some, List, [], ◌∷◌, Result, ok, Ensures-at, All, All-of_elem,
  All-at, map,
}
use ai_pmo_copilot.Orchestrator.Types.{
  Capability, Exn, Evidence, AdvisorIdentity, OrchestrationScope, SelectionSignals,
  SelectionOutcome,
}
use ai_pmo_copilot.Orchestrator.Catalog.{advisor_identity_catalog}
use ai_pmo_copilot.Orchestrator.Selection.Soundness.{
  IsOk, IsOk-bind, IsOk-if, IsSelection, evaluate_selection_rule_sound,
  evaluate_selection_rule_total,
}
use ai_pmo_copilot.Orchestrator.Advising.{
  SessionContext, EvidenceAccess, Agents, ModelOutput, number, cited, build, AskedQuestion, advised,
  framework_run,
}
use ai_pmo_copilot.Orchestrator.Provisioning.{provision}
use ai_pmo_copilot.Orchestrator.Run.{
  Collected, Contribution, contribution, with_synthesis?, collect, conclude, run_selected, run,
}

module _ {D R : Type 0} where
  -- No read of evidence raises.
  pub record Reads (access : EvidenceAccess D R) : Type 0 where
    pub context :
        (g : ℕ) (project : Option String) (kind : String)
        → IsOk (access.gather_context g project kind)
    pub rag : (g : ℕ) (question : String) (k : ℕ) → IsOk (access.gather_rag_context g question k)
    pub portfolio : (g : ℕ) (id : Option ℕ) → IsOk (access.assemble_portfolio g id)
    pub pmo : (g : ℕ) → IsOk (access.assemble_pmo g)
    pub executive : (g : ℕ) → IsOk (access.assemble_executive g)
    pub strategy : (g : ℕ) → IsOk (access.assemble_strategy g)

  -- Every advisor answers with a text in the structured form, and cites numbers.
  abbrev pub Answers : Agents D R → Type 0
  Answers agents =
      (name : String) (session : SessionContext) (question : String) (evidence : List (Evidence D))
      (rag : Option R)
      → (output : ModelOutput) × (text : String) × (agents.advise name session question evidence rag
          ≡ ok output)
        × (output.structured ≡ true)
        × (output.answer ≡ some text)
        × ((ids : List ℕ) × (output.cited_analysis_ids ≡ some (map number ids)))

module _ {D R : Type 0} (access : EvidenceAccess D R) (reads : Reads access) where
  provision-catalog :
      (session : SessionContext) (question : String) (scope : OrchestrationScope)
      → All
          (λ (i : AdvisorIdentity). IsOk (provision access i.name session question scope))
          advisor_identity_catalog
  unfolding provision
  provision-catalog session question scope =
      let g = session.organization_id in
      (
        IsOk-bind _ _ (reads.context g scope.project_name "risk") (λ e. (_, refl)),
        (
          IsOk-bind _ _ (reads.context g scope.project_name "status") (λ e. (_, refl)),
          (
            IsOk-bind _ _ (IsOk-bind _ _ (reads.portfolio g scope.portfolio_id) (λ e. (_, refl)))
                (λ e. (_, refl)),
            (
              IsOk-bind _ _ (reads.pmo g) (λ e. (_, refl)),
              (
                IsOk-bind _ _ (reads.executive g) (λ e. (_, refl)),
                (
                  IsOk-bind _ _ (reads.strategy g) (λ e. (_, refl)),
                  (
                    IsOk-bind _ _ (reads.rag g question 5) (λ e. (_, refl)),
                    (IsOk-bind _ _ (reads.rag g question 5) (λ e. (_, refl)), tt),
                  ),
                ),
              ),
            ),
          ),
        ),
      )

cited-IsOk :
    {D : Type 0} (evidence : List (Evidence D)) (ids : List ℕ)
    → IsOk (cited evidence (map number ids))
unfolding cited
cited-IsOk evidence [] = ([], refl)
cited-IsOk evidence (id ∷ ids) = let (rest, e) = cited-IsOk evidence ids in rw e (_, refl)

module _ {D R : Type 0} (agents : Agents D R) (answers : Answers agents) where
  advised-IsOk :
      (name : String) (session : SessionContext) (question : String) (evidence : List (Evidence D))
      (rag : Option R) (none_answer : Option String)
      → IsOk (advised agents name session question evidence rag none_answer)
  unfolding advised build
  advised-IsOk name session question [] rag none_answer = (_, refl)
  advised-IsOk name session question (x ∷ xs) rag none_answer =
      let (output, text, said, structured, answered, (ids, listed)) =
        answers name session question (x ∷ xs) rag in
      let (found, looked_up) = cited-IsOk (x ∷ xs) ids in
      rw said (rw answered (rw structured (rw listed (rw looked_up (_, refl)))))

module _ {D R : Type 0} (access : EvidenceAccess D R) (agents : Agents D R)
    (answers : Answers agents) where
  collect-IsOk :
      (session : SessionContext) (question : String) (signals : SelectionSignals)
      (identities : List AdvisorIdentity) (c : Collected D)
      → All
          (λ (i : AdvisorIdentity). IsOk (provision access i.name session question signals.scope))
          identities
      → IsOk (collect access agents session question signals identities c)
  unfolding collect framework_run
  collect-IsOk session question signals [] c h = (c, refl)
  collect-IsOk session question signals (i ∷ is) c h = IsOk-bind _ _ h.0 λ p.
      IsOk-bind _ _
        (advised-IsOk agents answers p.agent session question p.evidence p.rag_context
          (some p.no_evidence_answer))
        λ x. collect-IsOk session question signals is _ h.1

module _ {D : Type 0} (synthesize : SessionContext → String → List Contribution → Result Exn String)
    (writes : (session : SessionContext) (question : String) (cs : List Contribution)
      → IsOk (synthesize session question cs)) where
  conclude-IsOk :
      (capability : Capability) (session : SessionContext) (question : String)
      (selected : List AdvisorIdentity) (c : Collected D)
      → IsOk (conclude synthesize capability session question selected c)
  unfolding conclude
  conclude-IsOk capability session question selected c =
      IsOk-if c.any_had_evidence _ _
        (IsOk-if (with_synthesis? capability) _ _
          (IsOk-bind _ _ (writes session question (map contribution c.explanations))
            (λ text. (_, refl)))
          (_, refl))
        (_, refl)

module _ {D R : Type 0} (access : EvidenceAccess D R) (agents : Agents D R)
    (synthesize : SessionContext → String → List Contribution → Result Exn String)
    (reads : Reads access) (answers : Answers agents)
    (writes : (session : SessionContext) (question : String) (cs : List Contribution)
      → IsOk (synthesize session question cs)) where
  run_selected-IsOk :
      (capability : Capability) (session : SessionContext) (question : String)
      (signals : SelectionSignals) (outcome : SelectionOutcome) (selected : List AdvisorIdentity)
      (asked : List AskedQuestion)
      → All
          (λ (i : AdvisorIdentity). IsOk (provision access i.name session question signals.scope))
          selected
      → IsOk (
          run_selected access agents synthesize capability session question signals outcome selected
            asked)
  run_selected-IsOk capability session question signals outcome [] asked h = (_, refl)
  run_selected-IsOk capability session question signals outcome (i ∷ is) asked h =
      IsOk-bind _ _ (collect-IsOk access agents answers session question signals (i ∷ is) _ h) λ c.
        IsOk-bind _ _ (conclude-IsOk synthesize writes capability session question (i ∷ is) c)
          λ result. (_, refl)

  -- If no read of evidence raises, every advisor answers with a text in the structured form and cites
  -- a list of numbers, whatever numbers, and the synthesis returns, then `run` returns, for every capability, question and selection: no selected advisor is
  -- unknown to the provisioning, and no result is refused.
  pub run_total :
      (lower : String → String) (capability : Capability) (session : SessionContext)
      (question : String) (signals : SelectionSignals) (asked : List AskedQuestion)
      → IsOk (run access agents synthesize lower capability session question signals asked)
  unfolding run
  run_total lower capability session question signals asked =
      let (outcome, e) = evaluate_selection_rule_total lower signals in
      let selection =
        Ensures-at (IsSelection lower signals advisor_identity_catalog) _ outcome
          (evaluate_selection_rule_sound lower signals advisor_identity_catalog) e in
      rw e (
        run_selected-IsOk capability session question signals outcome outcome.selected asked (
          All-of_elem _ outcome.selected λ i m.
            All-at
              (λ (j : AdvisorIdentity).
                IsOk (provision access j.name session question signals.scope))
              i advisor_identity_catalog
              (provision-catalog access reads session question signals.scope)
              ((selection.0 i).0 m).0))
