-- ===== src/Orchestrator/Run/Answering.antt =====
-- The loop of `ExecutiveOrchestrator.run` over the selected advisors.
use ai_pmo_copilot.Common.{
  String, ◌≡◌, ◌≢◌, refl, sym, ap, ◌∙◌, ◌↔◌, Bool, true, false, ◌||◌, some, List, [], ◌∷◌, ◌++◌,
  Result, ok, err, Ensures, Ensures-bind, Ensures-at, All, IsElem, any_of, arith,
}
use mathlib.Core.Path.{subst}
use ai_pmo_copilot.Orchestrator.Types.{
  Exn, Evidence, AdvisorIdentity, SelectionSignals, AttributedExplanation, ExecutionTraceEntry,
  Explanation,
}
use ai_pmo_copilot.Orchestrator.Advising.{
  SessionContext, EvidenceAccess, Agents, AskedQuestion, framework_run, advised,
}
use ai_pmo_copilot.Orchestrator.Advising.Citations.{advised-cites_evidence}
use ai_pmo_copilot.Orchestrator.Provisioning.{ProvisionedAdvisor, provision}
use ai_pmo_copilot.Orchestrator.Correlation.{is_cited}
use ai_pmo_copilot.Orchestrator.Run.{Collected, collect, with_answer}

append_assoc : {A : Type 0} (xs ys zs : List A) → (xs ++ ys) ++ zs ≡ xs ++ (ys ++ zs)
append_assoc [] ys zs = refl
append_assoc (x ∷ xs) ys zs = ap (λ l. x ∷ l) (append_assoc xs ys zs)

pub append-[] : {A : Type 0} (xs : List A) → xs ++ [] ≡ xs
append-[] [] = refl
append-[] (x ∷ xs) = ap (λ l. x ∷ l) (append-[] xs)

or_assoc : (a b c : Bool) → ((a || b) || c) ≡ (a || (b || c))
or_assoc true b c = refl
or_assoc false b c = refl

or_false : (a : Bool) → (a || false) ≡ a
or_false true = refl
or_false false = refl

pub Ensures-imp :
    {A : Type 0} (P Q : A → Type 0) (m : Result Exn A)
    → ((a : A) → P a → Q a)
    → Ensures P m
    → Ensures Q m
Ensures-imp P Q (ok a) f h = f a h
Ensures-imp P Q (err e) f h = tt

abbrev pub had_evidence? : List ExecutionTraceEntry → Bool
had_evidence? es = any_of (λ (x : ExecutionTraceEntry). x.had_evidence) es

module _ {D : Type 0} where
  abbrev pub IsUncited : AttributedExplanation D → Type 0
  IsUncited x = x.explanation.recommendation.cited_evidence ≡ []

  is_cited_iff : (xs : List (Evidence D)) → (is_cited xs ≡ true) ↔ (xs ≢ [])
  is_cited_iff [] = (λ h. cc, λ h. elim (h refl) [ ])
  is_cited_iff (x ∷ xs) = (λ h. cc, λ h. refl)

  none_of_none : (xs : List (Evidence D)) → All (λ item. IsElem item []) xs → xs ≡ []
  none_of_none [] h = refl
  none_of_none (x ∷ xs) h = elim h.0 [ ]

module _ {D R : Type 0} (access : EvidenceAccess D R) (agents : Agents D R)
    (session : SessionContext) (question : String) (signals : SelectionSignals) where
  -- The advisors of these identities have been provisioned and have answered, in this order: their
  -- explanations, the trace of their executions and the questions recorded.
  pub data Answered
      : List AdvisorIdentity
        → List (AttributedExplanation D)
        → List ExecutionTraceEntry
        → List AskedQuestion
        → Type 0 where
    none_selected : Answered [] [] [] []
    answered :
        (identity : AdvisorIdentity) (identities : List AdvisorIdentity)
        (p : ProvisionedAdvisor D R) (x : Explanation D) (had : Bool)
        (xs : List (AttributedExplanation D)) (es : List ExecutionTraceEntry)
        (qs : List AskedQuestion)
        → provision access identity.name session question signals.scope ≡ ok p
        → advised agents p.agent session question p.evidence p.rag_context
            (some p.no_evidence_answer)
          ≡ ok x
        → (had ≡ true) ↔ (p.evidence ≢ [])
        → Answered identities xs es qs
        → Answered
            (identity ∷ identities)
            (record { advisor_name = identity.name; explanation = x } ∷ xs)
            (record { advisor_name = identity.name; had_evidence = had } ∷ es)
            (record { advisor_name = p.agent; question = question } ∷ qs)

  -- What the loop adds to its state for these identities.
  abbrev pub Extends : Collected D → List AdvisorIdentity → Collected D → Type 0
  Extends c identities end =
      (xs : List (AttributedExplanation D)) × (es : List ExecutionTraceEntry) × (qs : List
        AskedQuestion)
      × Answered identities xs es qs
      × (end.explanations ≡ c.explanations ++ xs)
      × (end.trace.executions ≡ c.trace.executions ++ es)
      × (end.trace.selection ≡ c.trace.selection)
      × (end.asked ≡ c.asked ++ qs)
      × (end.any_had_evidence ≡ (c.any_had_evidence || had_evidence? es))

  abbrev next_of :
      AdvisorIdentity → ProvisionedAdvisor D R → Explanation D → Collected D → Collected D
  next_of i p x c =
      with_answer i.name p c
        (c.asked ++ record { advisor_name = p.agent; question = question } ∷ [])
        (record { advisor_name = i.name; explanation = x })

  Extends-again :
      (c end : Collected D) (i : AdvisorIdentity) (is : List AdvisorIdentity)
      (p : ProvisionedAdvisor D R) (x : Explanation D)
      → provision access i.name session question signals.scope ≡ ok p
      → advised agents p.agent session question p.evidence p.rag_context (some p.no_evidence_answer)
        ≡ ok x
      → Extends (next_of i p x c) is end
      → Extends c (i ∷ is) end
  Extends-again c end i is p x provisioned said (xs, es, qs, rest, ex, tr, sel, asked, any) = (
    record { advisor_name = i.name; explanation = x } ∷ xs,
    record { advisor_name = i.name; had_evidence = is_cited p.evidence } ∷ es,
    record { advisor_name = p.agent; question = question } ∷ qs,
    answered i is p x (is_cited p.evidence) xs es qs provisioned said (is_cited_iff p.evidence)
        rest,
    ex ∙ append_assoc c.explanations _ xs,
    tr ∙ append_assoc c.trace.executions _ es,
    sel,
    asked ∙ append_assoc c.asked _ qs,
    any ∙ or_assoc c.any_had_evidence (is_cited p.evidence) (had_evidence? es),
  )

  pub collect-Extends :
      (identities : List AdvisorIdentity) (c : Collected D)
      → Ensures (Extends c identities) (collect access agents session question signals identities c)
  unfolding collect framework_run
  collect-Extends [] c = (
    [],
    [],
    [],
    none_selected,
    sym (append-[] c.explanations),
    sym (append-[] c.trace.executions),
    refl,
    sym (append-[] c.asked),
    sym (or_false c.any_had_evidence),
  )
  collect-Extends (i ∷ is) c =
      Ensures-bind _ (provision access i.name session question signals.scope) _ λ p provisioned.
        Ensures-bind _
          (advised agents p.agent session question p.evidence p.rag_context
            (some p.no_evidence_answer))
          _
          λ x said.
            Ensures-imp (Extends (next_of i p x c) is) (Extends c (i ∷ is))
              (collect access agents session question signals is (next_of i p x c))
              (λ end h. Extends-again c end i is p x provisioned said h)
              (collect-Extends is (next_of i p x c))

  cites_nothing :
      (p : ProvisionedAdvisor D R) (x : Explanation D)
      → advised agents p.agent session question p.evidence p.rag_context (some p.no_evidence_answer)
        ≡ ok x
      → p.evidence ≡ []
      → x.recommendation.cited_evidence ≡ []
  cites_nothing p x e h =
      let from =
        Ensures-at
          (λ (y : Explanation D).
            All (λ item. IsElem item p.evidence) y.recommendation.cited_evidence)
          (advised agents p.agent session question p.evidence p.rag_context
            (some p.no_evidence_answer))
          x
          (advised-cites_evidence agents p.agent session question p.evidence p.rag_context
            (some p.no_evidence_answer))
          e in
      none_of_none x.recommendation.cited_evidence
        (subst (λ es. All (λ item. IsElem item es) x.recommendation.cited_evidence) h from)

  no_evidence_of :
      (had : Bool) (evidence : List (Evidence D))
      → (had ≡ true) ↔ (evidence ≢ [])
      → had ≡ false
      → evidence ≡ []
  no_evidence_of had [] h e = refl
  no_evidence_of had (x ∷ xs) h e = let yes_had : had ≡ true = h.1 (cc) in cc

  -- Where no advisor had evidence, no explanation cites any.
  pub Answered-IsUncited :
      (identities : List AdvisorIdentity) (xs : List (AttributedExplanation D))
      (es : List ExecutionTraceEntry) (qs : List AskedQuestion)
      → Answered identities xs es qs
      → had_evidence? es ≡ false
      → All IsUncited xs
  Answered-IsUncited _ _ _ _ none_selected h = tt
  Answered-IsUncited _ _ _ _ (answered i is p x had xs es qs provisioned said evident rest) h =
      let this : had ≡ false = ground (arith, h) in
      let others : had_evidence? es ≡ false = ground (arith, h) in
      (
        cites_nothing p x said (no_evidence_of had p.evidence evident this),
        Answered-IsUncited is xs es qs rest others,
      )
