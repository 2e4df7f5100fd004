-- ===== src/Knowledge/Repository/Ingesting.antt =====
-- What `ingest` does to consistent tables, and what `index` does to the document after it.
use mathlib.Core.Path.{subst}
use ai_pmo_copilot.Common.{
  IsElem-last, ℕ, ◌≡◌, refl, sym, ◌∙◌, String, Option, none, some, true, List, [], ◌∷◌, ◌++◌, ok,
  ◌==◌, ==_iff, eq_iff, str_eq, select, All, All-at, IsElem, at_head, IsElem-of_select, Ensures-at,
  arith, inl, inr, ◌⊎◌,
}
use ai_pmo_copilot.Knowledge.Tables.{
  Document, DocumentVersion, Store, IngestedDocument, document_at,
}
use ai_pmo_copilot.Knowledge.Repository.{
  latest_version, is_source, one_or_none, document_for, with_version, ingest, ingested,
}
use ai_pmo_copilot.Knowledge.Repository.Consistency.{
  OneSource, IsConsistent, latest_version-append, document_for-IsKeyed,
}
use ai_pmo_copilot.Knowledge.Repository.History.{ingest-IsConsistent}

-- A source has no document, or one.
one_or_none-cases :
    (organization_id : ℕ) (source_name : String) (documents : List Document)
    → All (OneSource documents) documents
    → (select (is_source organization_id source_name) documents ≡ [])
      ⊎ ((d : Document) × (select (is_source organization_id source_name) documents ≡ d ∷ [])
          × IsElem d documents
          × (d.organization_id ≡ organization_id))
one_or_none-cases organization_id source_name documents one =
    go (select (is_source organization_id source_name) documents) refl
  where
    go :
        (found : List Document)
        → select (is_source organization_id source_name) documents ≡ found
        → (found ≡ [])
          ⊎ ((d : Document) × (found ≡ d ∷ [])
              × IsElem d documents
              × (d.organization_id ≡ organization_id))
    go [] e = inl refl
    go (d ∷ ds) e =
        let here : IsElem d (select (is_source organization_id source_name) documents) =
          rw e (at_head refl) in
        let kept = IsElem-of_select d (is_source organization_id source_name) documents here in
        let org : (d.organization_id == organization_id) ≡ true = ground (arith, kept.1) in
        let name : str_eq d.source_name source_name ≡ true = ground (arith, kept.1) in
        let same_org = (==_iff d.organization_id organization_id).0 org in
        let same_name : d.source_name ≡ source_name = (eq_iff d.source_name source_name).0 name in
        let alone : select (is_source organization_id source_name) documents ≡ d ∷ [] =
          subst (λ (n : ℕ). select (is_source n source_name) documents ≡ d ∷ []) same_org
            (subst (λ (t : String). select (is_source d.organization_id t) documents ≡ d ∷ [])
              same_name (All-at (OneSource documents) d documents one kept.0)) in
        inr (d, sym e ∙ alone, kept.0, same_org)

abbrev pub new_version : {V : Type 0} → Store V → ℕ → String → ℕ → DocumentVersion
new_version s document_id text now = record {
  id = s.next_version;
  document_id = document_id;
  content = text;
  created_at = now;
}

-- `t` is `s` after `text` was ingested as the latest version of `d`, a document of `s` or a new one;
-- nothing else is written.
pub record IsIngested {V : Type 0} (organization_id : ℕ) (text : String) (now : ℕ) (s t : Store V)
    (d : Document) : Type 0 where
  pub stored : document_at d.id t.documents ≡ some d
  pub its : d.organization_id ≡ organization_id
  pub documents : (t.documents ≡ s.documents) ⊎ (t.documents ≡ s.documents ++ d ∷ [])
  pub versions : t.versions ≡ s.versions ++ new_version s d.id text now ∷ []
  pub latest : latest_version d.id t.versions ≡ some (new_version s d.id text now)
  pub chunks : t.chunks ≡ s.chunks
  pub published : t.published ≡ s.published
  pub consistent : IsConsistent t

module _ {V : Type 0} (organization_id : ℕ) (source_name text : String) (project_id : Option ℕ)
    (now : ℕ) (s : Store V) (consistent : IsConsistent s) where
  -- the call answers, and what it leaves is consistent
  after :
      (found : Option Document)
      → one_or_none (select (is_source organization_id source_name) s.documents) ≡ ok found
      → (ingest organization_id source_name text project_id now s
          ≡ ok (
              with_version text now
                (document_for organization_id source_name project_id now s found)))
        × IsConsistent
            (with_version text now
              (document_for organization_id source_name project_id now s found)).1
  unfolding ingest
  after found e =
      let answered : ingest organization_id source_name text project_id now s
          ≡ ok (
              with_version text now
                (document_for organization_id source_name project_id now s found)) =
        rw e refl in
      (
        answered,
        Ensures-at (λ (r : IngestedDocument × Store V). IsConsistent r.1) _ _
            (ingest-IsConsistent organization_id source_name text project_id now s consistent)
            answered,
      )

  -- `ingest` on consistent tables never raises; its answer is of a document of the organization, which
  -- has `text` as its latest version, added to the versions that there were.
  pub ingest-IsIngested :
      (d : Document) × (t : Store V) × (ingest organization_id source_name text project_id now s
        ≡ ok (ingested d s.next_version 0, t))
      × IsIngested organization_id text now s t d
  ingest-IsIngested =
      elim (one_or_none-cases organization_id source_name s.documents consistent.0.one_source) [
        | inl none_yet ↦
            let (answered, kept) = after none (rw none_yet refl) in
            let added = document_for organization_id source_name project_id now s none in
            let keyed =
              document_for-IsKeyed s consistent.0 organization_id source_name project_id now
                none_yet in
            let d = added.0 in
            (
              d,
              (with_version text now added).1,
              answered,
              record {
                stored =
                    All-at (λ (x : Document). document_at x.id (s.documents ++ d ∷ []) ≡ some x) d
                      (s.documents ++ d ∷ []) keyed.documents_found (IsElem-last s.documents d);
                its = refl;
                documents = inr refl;
                versions = refl;
                latest =
                    latest_version-append s.versions (new_version s d.id text now)
                      consistent.0.versions_fresh;
                chunks = refl;
                published = refl;
                consistent = kept;
              },
            )
        | inr (d, one, elem, org) ↦
            let (answered, kept) = after (some d) (rw one refl) in
            (
              d,
              (with_version text now (d, s)).1,
              answered,
              record {
                stored =
                    All-at (λ (x : Document). document_at x.id s.documents ≡ some x) d s.documents
                      consistent.0.documents_found elem;
                its = org;
                documents = inl refl;
                versions = refl;
                latest =
                    latest_version-append s.versions (new_version s d.id text now)
                      consistent.0.versions_fresh;
                chunks = refl;
                published = refl;
                consistent = kept;
              },
            )
      ]
