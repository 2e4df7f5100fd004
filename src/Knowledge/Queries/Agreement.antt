-- ===== src/Knowledge/Queries/Agreement.antt =====
-- `get_document` and `list_documents` agree.
use mathlib.Core.Path.{subst}
use ai_pmo_copilot.Common.{
  ℕ, ◌≡◌, refl, sym, ap, ◌∙◌, String, Option, none, some, true, List, ok, ◌==◌, ==_iff, All-at,
  IsElem, find_first-IsElem, arith, Option-cases, Bool-cases, inl, inr, ◌↔◌,
}
use ai_pmo_copilot.Knowledge.Tables.{
  Document, DocumentVersion, Store, IngestedDocument, document_at,
}
use ai_pmo_copilot.Knowledge.Repository.{latest_version}
use ai_pmo_copilot.Knowledge.Queries.{get_document, list_documents}
use ai_pmo_copilot.Knowledge.Queries.Listing.{
  shown, IsElem-of_listed, IsElem-listed, of_organization, IsElem-of_organization,
}
use ai_pmo_copilot.Knowledge.Repository.Consistency.{IsConsistent, HasVersion}
use ai_pmo_copilot.Knowledge.Repository.History.{
  Request, perform_all, empty_store, empty_store-IsConsistent, perform_all-IsConsistent,
}

module _ {V : Type 0} (s : Store V) where
  pub get_document-stored :
      (organization_id document_id : ℕ) (d : Document) (v : DocumentVersion)
      → document_at document_id s.documents ≡ some d
      → d.organization_id ≡ organization_id
      → latest_version d.id s.versions ≡ some v
      → get_document organization_id document_id s ≡ ok (some (shown s d v))
  unfolding get_document
  get_document-stored organization_id document_id d v at_d its latest =
      let here : (d.organization_id == organization_id) ≡ true =
        (==_iff d.organization_id organization_id).1 its in
      rw at_d (rw here (rw latest refl))

  -- `get_document` answers with `answer`, which is what the list holds of the document.
  abbrev pub AnswersAs : ℕ → ℕ → Option IngestedDocument → Type 0
  AnswersAs organization_id document_id answer =
      (get_document organization_id document_id s ≡ ok answer)
      × ((a : IngestedDocument)
          → (answer ≡ some a)
            ↔ (IsElem a (list_documents organization_id none s) × (a.id ≡ document_id)))

module _ {V : Type 0} (s : Store V) (consistent : IsConsistent s) (organization_id : ℕ) where
  -- a row of the list comes from the row that the primary key finds
  listed_at :
      (a : IngestedDocument)
      → IsElem a (list_documents organization_id none s)
      → (d : Document) × (v : DocumentVersion) × (document_at a.id s.documents ≡ some d)
        × (d.organization_id ≡ organization_id)
        × (latest_version d.id s.versions ≡ some v)
        × (a ≡ shown s d v)
  unfolding list_documents
  listed_at a m =
      let (d, v, elem, latest, same) = IsElem-of_listed s a (of_organization s organization_id) m in
      let (stored, its) = (IsElem-of_organization s organization_id d).0 elem in
      (
        d,
        v,
        ap (λ (x : IngestedDocument). document_at x.id s.documents) same
            ∙ All-at (λ (x : Document). document_at x.id s.documents ≡ some x) d s.documents
                consistent.0.documents_found stored,
        its,
        latest,
        same,
      )

  -- the other way
  at_listed :
      (document_id : ℕ) (d : Document) (v : DocumentVersion)
      → document_at document_id s.documents ≡ some d
      → d.organization_id ≡ organization_id
      → latest_version d.id s.versions ≡ some v
      → IsElem (shown s d v) (list_documents organization_id none s) × (d.id ≡ document_id)
  unfolding list_documents
  at_listed document_id d v at_d its latest =
      let found = find_first-IsElem (λ (x : Document). x.id == document_id) s.documents d at_d in
      (
        IsElem-listed s d v (of_organization s organization_id)
            ((IsElem-of_organization s organization_id d).1 (found.0, its)) latest,
        (==_iff d.id document_id).0 found.1,
      )

  -- no answer, where nothing that the key finds is of the organization
  answers_none :
      (document_id : ℕ)
      → get_document organization_id document_id s ≡ ok none
      → ((d : Document)
          → document_at document_id s.documents ≡ some d
          → d.organization_id ≡ organization_id
          → ⊥)
      → AnswersAs s organization_id document_id none
  answers_none document_id answered absent = (
    answered,
    λ a. (
      λ h. cc,
      λ h.
          let (d, v, at_d, its, _, _) = listed_at a h.0 in
          let bad = absent d (ap (λ n. document_at n s.documents) (sym h.1) ∙ at_d) its in
          elim bad [ ],
    ),
  )

  answers_some :
      (document_id : ℕ) (d : Document) (v : DocumentVersion)
      → document_at document_id s.documents ≡ some d
      → d.organization_id ≡ organization_id
      → latest_version d.id s.versions ≡ some v
      → get_document organization_id document_id s ≡ ok (some (shown s d v))
      → AnswersAs s organization_id document_id (some (shown s d v))
  answers_some document_id d v at_d its latest answered = (
    answered,
    λ a. (
      λ h.
          let same : shown s d v ≡ a = cc in
          let (elem, key) = at_listed document_id d v at_d its latest in
          (
            subst (λ x. IsElem x (list_documents organization_id none s)) same elem,
            ap (λ (x : IngestedDocument). x.id) (sym same) ∙ key,
          ),
      λ h.
          let (e, w, at_e, _, latest_e, same) = listed_at a h.0 in
          let one : some d ≡ some e =
            sym at_d ∙ ap (λ n. document_at n s.documents) (sym h.1) ∙ at_e in
          let d_e : d ≡ e = cc in
          let two : some v ≡ some w =
            sym latest ∙ ap (λ (x : Document). latest_version x.id s.versions) d_e ∙ latest_e in
          let v_w : v ≡ w = cc in
          ap some (ap (λ x. shown s x v) d_e ∙ ap (λ x. shown s e x) v_w ∙ sym same),
    ),
  )

  get_document-AnswersAs :
      (document_id : ℕ)
      → (answer : Option IngestedDocument) × AnswersAs s organization_id document_id answer
  unfolding get_document
  get_document-AnswersAs document_id = elim (Option-cases (document_at document_id s.documents)) [
    | inl missing ↦ (
      none,
      answers_none document_id (rw missing refl)
          (λ d at_d _. let bad : none ≡ some d = sym missing ∙ at_d in cc),
    )
    | inr (d, at_d) ↦ elim (Bool-cases (d.organization_id == organization_id)) [
      | inl its ↦
          let stored =
            find_first-IsElem (λ (x : Document). x.id == document_id) s.documents d at_d in
          let (v, latest) = All-at (HasVersion s.versions) d s.documents consistent.1 stored.0 in
          let org = (==_iff d.organization_id organization_id).0 its in
          (
            some (shown s d v),
            answers_some document_id d v at_d org latest
                (get_document-stored s organization_id document_id d v at_d org latest),
          )
      | inr other ↦ (
        none,
        answers_none document_id (rw at_d (rw other refl)) (λ e at_e its.
            let one : some d ≡ some e = sym at_d ∙ at_e in
            let d_e : d ≡ e = cc in
            let org : d.organization_id ≡ organization_id =
              ap (λ (x : Document). x.organization_id) d_e ∙ its in
            ground (arith, other, org)),
      )
    ]
  ]

-- Whatever calls of `ingest` and `index` came before, from the empty tables: `get_document` returns,
-- without an error for a missing version, and it answers with a document exactly when
-- `list_documents` of the same organization, without a project, holds that document under the id.
pub get_document-list_documents :
    {V : Type 0} (strip : String → String) (calls : List (Request V))
    (organization_id document_id : ℕ)
    → (answer : Option IngestedDocument) × AnswersAs
        (perform_all strip calls empty_store)
        organization_id
        document_id
        answer
get_document-list_documents strip calls organization_id document_id =
    get_document-AnswersAs (perform_all strip calls empty_store)
      (perform_all-IsConsistent strip calls empty_store empty_store-IsConsistent) organization_id
      document_id
