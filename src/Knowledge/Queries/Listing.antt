-- ===== src/Knowledge/Queries/Listing.antt =====
-- The rows of `list_documents`, and the documents that they come from.
use ai_pmo_copilot.Common.{
  ℕ, ◌≡◌, refl, sym, ap, ◌∙◌, Option, none, some, true, ◌&&◌, List, [], ◌∷◌, ◌==◌, select, IsElem,
  at_head, in_tail, IsElem-of_select, IsElem-select, arith, ◌↔◌,
}
use ai_pmo_copilot.Common.Sorting.{sort_by, IsElem-of_sort_by, IsElem-sort_by}
use ai_pmo_copilot.Knowledge.Tables.{Document, DocumentVersion, Store, IngestedDocument}
use ai_pmo_copilot.Knowledge.Repository.{latest_version, count_chunks, ingested}
use ai_pmo_copilot.Knowledge.Queries.{with_latest, listed}

module _ {V : Type 0} (s : Store V) where
  abbrev pub shown : Document → DocumentVersion → IngestedDocument
  shown d v = ingested d v.id (count_chunks v.id s.chunks)

  pub IsElem-of_listed :
      (a : IngestedDocument) (ds : List Document)
      → IsElem a (listed s ds)
      → (d : Document) × (v : DocumentVersion) × IsElem d ds
        × (latest_version d.id s.versions ≡ some v)
        × (a ≡ shown d v)
  IsElem-of_listed a [] h = elim h [ ]
  IsElem-of_listed a (x ∷ xs) h = go (latest_version x.id s.versions) refl (IsElem-of_listed a xs) h
    where
      later :
          (d : Document) × (v : DocumentVersion) × IsElem d xs
            × (latest_version d.id s.versions ≡ some v)
            × (a ≡ shown d v)
          → (d : Document) × (v : DocumentVersion) × IsElem d (x ∷ xs)
            × (latest_version d.id s.versions ≡ some v)
            × (a ≡ shown d v)
      later (d, v, m, e, same) = (d, v, in_tail m, e, same)

      go :
          (found : Option DocumentVersion)
          → latest_version x.id s.versions ≡ found
          → (IsElem a (listed s xs)
              → (d : Document) × (v : DocumentVersion) × IsElem d xs
                × (latest_version d.id s.versions ≡ some v)
                × (a ≡ shown d v))
          → IsElem a (with_latest s x found (listed s xs))
          → (d : Document) × (v : DocumentVersion) × IsElem d (x ∷ xs)
            × (latest_version d.id s.versions ≡ some v)
            × (a ≡ shown d v)
      go none e ih m = later (ih m)
      go (some v) e ih (at_head same) = (x, v, at_head refl, e, same)
      go (some v) e ih (in_tail m) = later (ih m)

  pub IsElem-listed :
      (d : Document) (v : DocumentVersion) (ds : List Document)
      → IsElem d ds
      → latest_version d.id s.versions ≡ some v
      → IsElem (shown d v) (listed s ds)
  IsElem-listed d v [] h e = elim h [ ]
  IsElem-listed d v (x ∷ xs) (at_head same) e =
      let here : latest_version x.id s.versions ≡ some v =
        ap (λ (y : Document). latest_version y.id s.versions) (sym same) ∙ e in
      rw here (at_head (ap (λ y. shown y v) same))
  IsElem-listed d v (x ∷ xs) (in_tail m) e =
      go (latest_version x.id s.versions) (IsElem-listed d v xs m e)
    where
      go :
          (found : Option DocumentVersion)
          → IsElem (shown d v) (listed s xs)
          → IsElem (shown d v) (with_latest s x found (listed s xs))
      go none k = k
      go (some w) k = in_tail k

  -- a document of the organization, as the query of the list gives it
  abbrev pub of_organization : ℕ → List Document
  of_organization organization_id =
      sort_by (λ (d : Document). d.id)
        (select (λ (d : Document). d.organization_id == organization_id && true) s.documents)

  pub IsElem-of_organization :
      (organization_id : ℕ) (d : Document)
      → IsElem d (of_organization organization_id)
        ↔ (IsElem d s.documents × (d.organization_id ≡ organization_id))
  IsElem-of_organization organization_id d =
      let p = λ (x : Document). x.organization_id == organization_id && true in
      (
        λ m.
            let kept =
              IsElem-of_select d p s.documents
                (IsElem-of_sort_by (λ (x : Document). x.id) d (select p s.documents) m) in
            (kept.0, ground (arith, kept.1)),
        λ h.
            IsElem-sort_by (λ (x : Document). x.id) d (select p s.documents)
              (IsElem-select d p s.documents h.0 (ground (arith, h.1))),
      )
