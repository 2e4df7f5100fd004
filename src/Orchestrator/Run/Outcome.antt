-- ===== src/Orchestrator/Run/Outcome.antt =====
-- The result of an orchestration that returns.
use ai_pmo_copilot.Common.{
  String, ◌≡◌, ◌≢◌, refl, ap, ◌∙◌, sym, Bool, true, false, Option, none, some, List, [], ◌∷◌, ◌++◌,
  map, select, Result, ok, err, ◌>>=◌, Ensures, Ensures-bind, Ensures-at, All, Bool-cases, inl, inr,
  if◌then◌else◌,
}
use mathlib.Core.Path.{subst}
use ai_pmo_copilot.Orchestrator.Types.{
  Capability, InsufficientBasisReason, selection_empty, collection_empty, Exn, AdvisorIdentity,
  SelectionSignals, SelectionOutcome, CorrelationFinding, ExecutiveIntelligenceResult,
  with_selection, empty_trace,
}
use ai_pmo_copilot.Orchestrator.Advising.{SessionContext, EvidenceAccess, Agents, AskedQuestion}
use ai_pmo_copilot.Orchestrator.Correlation.{correlate}
use ai_pmo_copilot.Orchestrator.Catalog.{advisor_identity_catalog}
use ai_pmo_copilot.Orchestrator.Selection.{evaluate_selection_rule}
use ai_pmo_copilot.Orchestrator.Run.{
  Collected, Contribution, with_synthesis?, is_conflict_analysis, correlation_for, collect,
  conclude, contribution, run_selected, run,
}
use ai_pmo_copilot.Orchestrator.Run.Answering.{
  Answered, none_selected, append-[], Ensures-imp, Extends, IsUncited, had_evidence?,
  collect-Extends, Answered-IsUncited,
}

-- The synthesis of a complete result, from the call of the language model.
abbrev pub Synthesized : Bool → Option String → Result Exn String → Type 0
Synthesized true synthesis call = (text : String) × (synthesis ≡ some text) × (call ≡ ok text)
Synthesized false synthesis call = synthesis ≡ none

Ensures-bind_bind :
    {A B C : Type 0} (Q : C → Type 0) (m : Result Exn A) (f : A → Result Exn B)
    (g : B → Result Exn C)
    → ((a : A) → m ≡ ok a → Ensures Q (f a >>= g))
    → Ensures Q (m >>= f >>= g)
Ensures-bind_bind Q (ok a) f g h = h a refl
Ensures-bind_bind Q (err e) f g h = tt

-- The loop's state before the first advisor.
abbrev start_of : {D : Type 0} → SelectionOutcome → List AskedQuestion → Collected D
start_of outcome asked = record {
  explanations = [];
  any_had_evidence = false;
  trace = with_selection outcome.trace_entry empty_trace;
  asked = asked;
}

module _ {D R : Type 0} (access : EvidenceAccess D R) (agents : Agents D R)
    (synthesize : SessionContext → String → List Contribution → Result Exn String)
    (capability : Capability) (session : SessionContext) (question : String)
    (signals : SelectionSignals) where
  -- What a result shows, by its reason for an insufficient basis.
  abbrev ByReason : Option InsufficientBasisReason → ExecutiveIntelligenceResult D → Type 0
  ByReason none r =
      (had_evidence? r.composition_trace.executions ≡ true)
      × Synthesized (with_synthesis? capability) r.synthesis
          (synthesize session question (map contribution r.explanations))
      × (r.correlation ≡ (
          if is_conflict_analysis capability
          then select (λ (f : CorrelationFinding D). f.is_structural_pair)
              (correlate r.explanations)
          else correlate r.explanations))
  ByReason (some selection_empty) r =
      (r.advisor_identities ≡ []) × (r.synthesis ≡ none) × (r.correlation ≡ [])
  ByReason (some collection_empty) r =
      (r.advisor_identities ≢ [])
      × (had_evidence? r.composition_trace.executions ≡ false)
      × All IsUncited r.explanations
      × (r.synthesis ≡ none)
      × (r.correlation ≡ [])

  -- The result and the questions recorded, for the rule's outcome and the questions before.
  abbrev pub IsOutcome :
      SelectionOutcome
      → List AskedQuestion
      → ExecutiveIntelligenceResult D × List AskedQuestion
      → Type 0
  IsOutcome outcome asked (r, recorded) =
      (qs : List AskedQuestion) × (recorded ≡ asked ++ qs)
      × Answered access agents session question signals outcome.selected r.explanations
          r.composition_trace.executions qs
      × (r.advisor_identities ≡ outcome.selected)
      × (r.composition_trace.selection ≡ some outcome.trace_entry)
      × (r.capability ≡ capability)
      × ByReason r.insufficient_basis_reason r

  -- What the loop leaves, from no explanation on.
  abbrev IsCollected :
      SelectionOutcome → List AdvisorIdentity → List AskedQuestion → Collected D → Type 0
  IsCollected outcome selected asked c =
      (qs : List AskedQuestion) × (c.asked ≡ asked ++ qs)
      × Answered access agents session question signals selected c.explanations c.trace.executions
          qs
      × (c.trace.selection ≡ some outcome.trace_entry)
      × (c.any_had_evidence ≡ had_evidence? c.trace.executions)

  Extends-IsCollected :
      (outcome : SelectionOutcome) (selected : List AdvisorIdentity) (asked : List AskedQuestion)
      (c : Collected D)
      → Extends access agents session question signals (start_of outcome asked) selected c
      → IsCollected outcome selected asked c
  Extends-IsCollected outcome selected asked c
        (xs, es, qs, replies, explained, executed, selection, recorded, any) =
      (
        qs,
        recorded,
        subst
            (λ l. Answered access agents session question signals selected l c.trace.executions qs)
            (sym explained)
            (subst (λ l. Answered access agents session question signals selected xs l qs)
              (sym executed) replies),
        selection,
        any ∙ sym (ap had_evidence? executed),
      )

  conclude-IsOutcome :
      (outcome : SelectionOutcome) (i : AdvisorIdentity) (is : List AdvisorIdentity)
      (asked : List AskedQuestion) (c : Collected D)
      → outcome.selected ≡ i ∷ is
      → IsCollected outcome (i ∷ is) asked c
      → Ensures
          (IsOutcome outcome asked)
          (conclude synthesize capability session question (i ∷ is) c >>= λ r. ok (r, c.asked))
  unfolding conclude correlation_for
  conclude-IsOutcome outcome i is asked c same (qs, recorded, replies, selection, any) =
      let all_answered =
        subst
          (λ l.
            Answered access agents session question signals l c.explanations c.trace.executions qs)
          (sym same) replies in
      elim (Bool-cases c.any_had_evidence) [
        | inr nothing ↦
            let none_had = sym any ∙ nothing in
            rw nothing (
              qs,
              recorded,
              all_answered,
              sym same,
              selection,
              refl,
              (
                (λ (e : i ∷ is ≡ []). cc),
                none_had,
                Answered-IsUncited access agents session question signals (i ∷ is) c.explanations
                    c.trace.executions qs replies none_had,
                refl,
                refl,
              ),
            )
        | inl something ↦
            let some_had = sym any ∙ something in
            rw something (elim (Bool-cases (with_synthesis? capability)) [
              | inr silent ↦ rw silent (
                qs,
                recorded,
                all_answered,
                sym same,
                selection,
                refl,
                (some_had, rw silent refl, refl),
              )
              | inl spoken ↦ rw spoken (
                  Ensures-bind_bind _
                    (synthesize session question (map contribution c.explanations)) _ _
                    λ text said. (
                      qs,
                      recorded,
                      all_answered,
                      sym same,
                      selection,
                      refl,
                      (some_had, rw spoken (text, refl, said), refl),
                    ))
            ])
      ]

  run_selected-IsOutcome :
      (outcome : SelectionOutcome) (selected : List AdvisorIdentity) (asked : List AskedQuestion)
      → outcome.selected ≡ selected
      → Ensures (IsOutcome outcome asked) (
          run_selected access agents synthesize capability session question signals outcome selected
            asked)
  run_selected-IsOutcome outcome [] asked same = (
    [],
    sym (append-[] asked),
    subst (λ l. Answered access agents session question signals l [] [] []) (sym same)
        none_selected,
    sym same,
    refl,
    refl,
    (refl, refl, refl),
  )
  run_selected-IsOutcome outcome (i ∷ is) asked same =
      Ensures-bind _ (collect access agents session question signals (i ∷ is) _) _ λ c e.
        conclude-IsOutcome outcome i is asked c same (
          Extends-IsCollected outcome (i ∷ is) asked c (
            Ensures-at
              (Extends access agents session question signals (start_of outcome asked) (i ∷ is)) _ c
              (collect-Extends access agents session question signals (i ∷ is)
                (start_of outcome asked))
              e))

  -- If `run` returns: the selection rule returned an outcome, which the trace holds, and the result is
  -- of its selected advisors. Each of them, in order, was provisioned, had its question recorded and
  -- answered; the explanations are these answers and the executions of the trace tell of each whether
  -- it was given evidence; no other question was recorded. The basis is insufficient for an empty
  -- selection, and if no selected advisor had evidence; then there is no synthesis, no correlation and
  -- no explanation that cites evidence. Otherwise some advisor had evidence, and the result is complete,
  -- with the text of the synthesis exactly for the four capabilities that include one, and the
  -- correlation of its explanations, of which a conflict analysis keeps the structural pairs.
  pub run-IsOutcome :
      (lower : String → String) (asked : List AskedQuestion)
      → Ensures
          (λ result.
            (outcome : SelectionOutcome) × (evaluate_selection_rule lower signals
                advisor_identity_catalog
              ≡ ok outcome)
            × IsOutcome outcome asked result)
          (run access agents synthesize lower capability session question signals asked)
  unfolding run
  run-IsOutcome lower asked =
      Ensures-bind _ (evaluate_selection_rule lower signals advisor_identity_catalog) _ λ outcome e.
        Ensures-imp (IsOutcome outcome asked) _
          (run_selected access agents synthesize capability session question signals outcome
            outcome.selected asked)
          (λ result h. (outcome, e, h)) (run_selected-IsOutcome outcome outcome.selected asked refl)
