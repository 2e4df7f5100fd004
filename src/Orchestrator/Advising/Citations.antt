-- ===== src/Orchestrator/Advising/Citations.antt =====
-- What an advisor's explanation cites.
use ai_pmo_copilot.Common.{
  ℕ, String, ◌≡◌, ap, ◌∙◌, ◌==◌, ==_iff, Option, none, some, List, [], ◌∷◌, Ensures, Ensures-bind,
  IsElem, at_head, in_tail, All, Bool-cases, inl, inr, Ensures-at, Option-cases, or_raise,
}
use ai_pmo_copilot.Orchestrator.Types.{Evidence, Explanation, Recommendation, type_error}
use ai_pmo_copilot.Orchestrator.Advising.{
  SessionContext, Agents, ModelOutput, CitedId, number, unmatched, unhashable, by_id, later_or,
  with_cited, cited, build, interpreted, advised,
}

module _ {D : Type 0} where
  later_or-IsElem :
      (x : Evidence D) (xs : List (Evidence D)) (id : ℕ) (o : Option (Evidence D))
      (item : Evidence D)
      → (o ≡ some item → IsElem item xs × (item.source_id ≡ id))
      → later_or x id o ≡ some item
      → IsElem item (x ∷ xs) × (item.source_id ≡ id)
  later_or-IsElem x xs id none item h e = elim (Bool-cases (x.source_id == id)) [
    | inl same ↦
        let found : some x ≡ some item = rw same at e in
        let here : item ≡ x = cc in
        (at_head here, ap (λ (v : Evidence D). v.source_id) here ∙ (==_iff x.source_id id).0 same)
    | inr other ↦ let gone : none ≡ some item = rw other at e in cc
  ]
  later_or-IsElem x xs id (some later) item h e = let k = h e in (in_tail k.0, k.1)

  by_id-IsElem :
      (evidence : List (Evidence D)) (id : ℕ) (item : Evidence D)
      → by_id evidence id ≡ some item
      → IsElem item evidence × (item.source_id ≡ id)
  unfolding by_id
  by_id-IsElem [] id item e = cc
  by_id-IsElem (x ∷ xs) id item e =
      later_or-IsElem x xs id (by_id xs id) item (by_id-IsElem xs id item) e

  with_cited-IsElem :
      (evidence rest : List (Evidence D)) (id : ℕ)
      → All (λ item. IsElem item evidence) rest
      → All (λ item. IsElem item evidence) (with_cited (by_id evidence id) rest)
  with_cited-IsElem evidence rest id h = elim (Option-cases (by_id evidence id)) [
    | inl unknown ↦ rw unknown h
    | inr (item, found) ↦ rw found ((by_id-IsElem evidence id item found).0, h)
  ]

  cited-IsElem :
      (evidence : List (Evidence D)) (ids : List CitedId)
      → Ensures (All (λ item. IsElem item evidence)) (cited evidence ids)
  unfolding cited
  cited-IsElem evidence [] = tt
  cited-IsElem evidence (number id ∷ ids) = Ensures-bind _ (cited evidence ids) _ λ rest e.
      with_cited-IsElem evidence rest id (
        Ensures-at (All (λ item. IsElem item evidence)) (cited evidence ids) rest
          (cited-IsElem evidence ids) e)
  cited-IsElem evidence (unmatched ∷ ids) = cited-IsElem evidence ids
  cited-IsElem evidence (unhashable ∷ ids) = tt

  build-IsElem :
      (answer : String) (ids : List CitedId) (evidence : List (Evidence D))
      → Ensures
          (λ (r : Recommendation D). All (λ item. IsElem item evidence) r.cited_evidence)
          (build answer ids evidence)
  unfolding build
  build-IsElem answer ids evidence = Ensures-bind _ (cited evidence ids) _ λ found e.
      Ensures-at (All (λ item. IsElem item evidence)) (cited evidence ids) found
        (cited-IsElem evidence ids) e

  interpreted-IsElem :
      (evidence : List (Evidence D)) (output : ModelOutput) (answer : Option String)
      → Ensures
          (λ (x : Explanation D).
            All (λ item. IsElem item evidence) x.recommendation.cited_evidence)
          (interpreted evidence output answer)
  interpreted-IsElem evidence output none = tt
  interpreted-IsElem evidence output (some answer) = elim (Bool-cases output.structured) [
    | inl yes_structured ↦ rw yes_structured (
        Ensures-bind _ (or_raise type_error output.cited_analysis_ids) _ λ ids _.
          Ensures-bind _ (build answer ids evidence) _ λ r e.
            Ensures-at
              (λ (r : Recommendation D). All (λ item. IsElem item evidence) r.cited_evidence)
              (build answer ids evidence) r (build-IsElem answer ids evidence) e)
    | inr unstructured ↦ rw unstructured tt
  ]

module _ {D R : Type 0} (agents : Agents D R) where
  -- Whatever the model answers: an explanation cites only evidence that its advisor was given, and no
  -- evidence at all if it was given none.
  pub advised-cites_evidence :
      (advisor_name : String) (session : SessionContext) (question : String)
      (evidence : List (Evidence D)) (rag_context : Option R) (no_evidence_answer : Option String)
      → Ensures
          (λ (x : Explanation D).
            All (λ item. IsElem item evidence) x.recommendation.cited_evidence)
          (advised agents advisor_name session question evidence rag_context no_evidence_answer)
  unfolding advised
  advised-cites_evidence name session question [] rag none_answer = tt
  advised-cites_evidence name session question (x ∷ xs) rag none_answer =
      Ensures-bind _ (agents.advise name session question (x ∷ xs) rag) _
        λ output _. interpreted-IsElem (x ∷ xs) output output.answer
