-- ===== src/Knowledge/Repository/History.antt =====
-- The calls of the knowledge repository, one after another.
use ai_pmo_copilot.Common.{
  ℕ, ◌+◌, ◌≡◌, refl, ap, ◌∙◌, String, Option, none, some, List, [], ◌∷◌, Result, ok, err, Ensures,
  Ensures-bind, Ensures-at, Ensures-or_raise, ◌==◌, ==_iff, select, All, All-append, All-imp,
  IsElem, inl, inr, All-at, IsElem-of_select, last_of_list-IsElem,
}
use ai_pmo_copilot.Common.Sorting.{sort_by, IsElem-of_sort_by}
use ai_pmo_copilot.Knowledge.Chunking.{chunk_text}
use ai_pmo_copilot.Knowledge.Tables.{
  Document, DocumentVersion, Chunk, Store, EmbeddingProvider, KnowledgeError, IngestedDocument,
  document_at, version_at, does_not_exist, no_version_to_index, endless,
}
use ai_pmo_copilot.Knowledge.Repository.{
  latest_version, is_source, one_or_none, document_for, with_version, ingest, embedded, with_index,
  index, as_raised,
}
use ai_pmo_copilot.Knowledge.Repository.Consistency.{
  IsOwned, HasVersion, IsKeyed, IsConsistent, HasVersion-append, document_for-IsKeyed,
  with_version-IsKeyed,
}

one_or_none-none : (ds : List Document) → one_or_none ds ≡ ok none → ds ≡ []
one_or_none-none [] h = refl
one_or_none-none (d ∷ []) h = cc
one_or_none-none (d ∷ e ∷ ds) h = cc

-- what is the latest is a version of the document
pub latest_version-IsElem :
    (document_id : ℕ) (versions : List DocumentVersion) (v : DocumentVersion)
    → latest_version document_id versions ≡ some v
    → IsElem v versions × (v.document_id ≡ document_id)
unfolding latest_version
latest_version-IsElem document_id versions v h =
    let p = λ (w : DocumentVersion). w.document_id == document_id in
    let key = λ (w : DocumentVersion). w.id in
    let found = IsElem-of_select v p versions (
      IsElem-of_sort_by key v (select p versions)
        (last_of_list-IsElem (sort_by key (select p versions)) v h)) in
    (found.0, (==_iff v.document_id document_id).0 found.1)

module _ {V : Type 0} where
  pub ingest-IsConsistent :
      (organization_id : ℕ) (source_name text : String) (project_id : Option ℕ) (now : ℕ)
      (s : Store V)
      → IsConsistent s
      → Ensures
          (λ (r : IngestedDocument × Store V). IsConsistent r.1)
          (ingest organization_id source_name text project_id now s)
  unfolding ingest
  ingest-IsConsistent organization_id source_name text project_id now s (keyed, versioned) =
      Ensures-bind (λ (r : IngestedDocument × Store V). IsConsistent r.1)
        (one_or_none (select (is_source organization_id source_name) s.documents)) _ each
    where
      each :
          (found : Option Document)
          → one_or_none (select (is_source organization_id source_name) s.documents) ≡ ok found
          → IsConsistent
              (with_version text now
                (document_for organization_id source_name project_id now s found)).1
      each (some d) e = (
        with_version-IsKeyed s keyed text now d,
        All-imp (HasVersion s.versions) (HasVersion _) s.documents
            (λ x h. HasVersion-append s.versions _ x keyed.versions_fresh (inr h)) versioned,
      )
      each none e =
          let none_yet =
            one_or_none-none (select (is_source organization_id source_name) s.documents) e in
          let added = document_for organization_id source_name project_id now s none in
          (
            with_version-IsKeyed added.1
                (document_for-IsKeyed s keyed organization_id source_name project_id now none_yet)
                text now added.0,
            All-append (HasVersion _) s.documents (added.0 ∷ [])
                (All-imp (HasVersion s.versions) (HasVersion _) s.documents
                  (λ x h. HasVersion-append s.versions _ x keyed.versions_fresh (inr h)) versioned)
                (HasVersion-append s.versions _ added.0 keyed.versions_fresh (inl refl), tt),
          )

  -- the rows of a version are of its document's organization
  embedded-All :
      (provider : EmbeddingProvider V) (d : Document) (v : DocumentVersion) (n id : ℕ)
      (texts : List String)
      → Ensures
          (All (λ (c : Chunk V).
            (c.document_version_id ≡ v.id) × (d.organization_id ≡ c.organization_id)))
          (embedded provider d v n id texts)
  unfolding embedded
  embedded-All provider d v n id [] = tt
  embedded-All provider d v n id (text ∷ texts) =
      Ensures-bind _ (as_raised (provider.embed text)) _ (λ vector _.
        Ensures-bind _ (embedded provider d v (n + 1) (id + 1) texts) _ (λ rows e.
          ((refl, refl), Ensures-at _ _ rows (embedded-All provider d v (n + 1) (id + 1) texts) e)))

  index-IsConsistent :
      (strip : String → String) (provider : EmbeddingProvider V) (document_id : ℕ)
      (correlation_id : String) (s : Store V)
      → IsConsistent s
      → Ensures IsConsistent (index strip provider document_id correlation_id s)
  unfolding index
  index-IsConsistent strip provider document_id correlation_id s (keyed, versioned) =
      Ensures-or_raise IsConsistent does_not_exist (document_at document_id s.documents) _
        (λ d at_d.
          Ensures-or_raise IsConsistent no_version_to_index (latest_version document_id s.versions)
            _
            (λ v at_v.
              Ensures-or_raise IsConsistent endless (chunk_text strip v.content) _ (λ texts _.
                Ensures-bind IsConsistent (embedded provider d v 0 s.next_chunk texts) _ (λ rows e.
                  (
                    with_rows d v rows at_d at_v
                        (Ensures-at _ _ rows (embedded-All provider d v 0 s.next_chunk texts) e),
                    versioned,
                  )))))
    where
      with_rows :
          (d : Document) (v : DocumentVersion) (rows : List (Chunk V))
          → document_at document_id s.documents ≡ some d
          → latest_version document_id s.versions ≡ some v
          → All
              (λ (c : Chunk V).
                (c.document_version_id ≡ v.id) × (d.organization_id ≡ c.organization_id))
              rows
          → IsKeyed (with_index document_id v.id rows d.organization_id correlation_id s)
      with_rows d v rows at_d at_v its =
          let (elem, of_document) = latest_version-IsElem document_id s.versions v at_v in
          record {
            documents_fresh = keyed.documents_fresh;
            documents_found = keyed.documents_found;
            one_source = keyed.one_source;
            versions_fresh = keyed.versions_fresh;
            versions_found = keyed.versions_found;
            owned = All-append (IsOwned s.documents s.versions) s.chunks rows keyed.owned (
                All-imp
                  (λ (c : Chunk V).
                    (c.document_version_id ≡ v.id) × (d.organization_id ≡ c.organization_id))
                  (IsOwned s.documents s.versions) rows
                  (λ c h. (
                    v,
                    d,
                    ap (λ n. version_at n s.versions) h.0
                        ∙ All-at (λ (w : DocumentVersion). version_at w.id s.versions ≡ some w) v
                            s.versions keyed.versions_found elem,
                    ap (λ n. document_at n s.documents) of_document ∙ at_d,
                    h.1,
                  ))
                  its);
          }

-- A call: of `ingest`, with the clock's reading, or of `index`, with the provider of that time.
pub data Request (V : Type 0) : Type 0 where
  ingest_call : ℕ → String → String → Option ℕ → ℕ → Request V
  index_call : EmbeddingProvider V → ℕ → String → Request V

module _ {V : Type 0} (strip : String → String) where
  -- a call that raises leaves the tables as they were
  abbrev pub perform : Request V → Store V → Store V
  perform (ingest_call organization_id source_name text project_id now) s =
      elim (ingest organization_id source_name text project_id now s) [ ok r ↦ r.1 | err e ↦ s ]
  perform (index_call provider document_id correlation_id) s =
      elim (index strip provider document_id correlation_id s) [ ok t ↦ t | err e ↦ s ]

  abbrev pub perform_all : List (Request V) → Store V → Store V
  perform_all [] s = s
  perform_all (r ∷ rs) s = perform_all rs (perform r s)

abbrev pub empty_store : {V : Type 0} → Store V
empty_store = record {
  documents = [];
  versions = [];
  chunks = [];
  next_document = 1;
  next_version = 1;
  next_chunk = 1;
  published = [];
}

module _ {V : Type 0} (strip : String → String) where
  perform-IsConsistent :
      (r : Request V) (s : Store V) → IsConsistent s → IsConsistent (perform strip r s)
  perform-IsConsistent (ingest_call organization_id source_name text project_id now) s h =
      from (ingest organization_id source_name text project_id now s)
        (ingest-IsConsistent organization_id source_name text project_id now s h)
    where
      from :
          (m : Result KnowledgeError (IngestedDocument × Store V))
          → Ensures (λ (r : IngestedDocument × Store V). IsConsistent r.1) m
          → IsConsistent (elim m [ ok r ↦ r.1 | err e ↦ s ])
      from (ok r) k = k
      from (err e) k = h
  perform-IsConsistent (index_call provider document_id correlation_id) s h =
      from (index strip provider document_id correlation_id s)
        (index-IsConsistent strip provider document_id correlation_id s h)
    where
      from :
          (m : Result KnowledgeError (Store V))
          → Ensures IsConsistent m
          → IsConsistent (elim m [ ok t ↦ t | err e ↦ s ])
      from (ok t) k = k
      from (err e) k = h

  pub perform_all-IsConsistent :
      (rs : List (Request V)) (s : Store V) → IsConsistent s → IsConsistent (perform_all strip rs s)
  perform_all-IsConsistent [] s h = h
  perform_all-IsConsistent (r ∷ rs) s h =
      perform_all-IsConsistent rs (perform strip r s) (perform-IsConsistent r s h)

pub empty_store-IsConsistent : {V : Type 0} → IsConsistent (empty_store {V = V})
empty_store-IsConsistent = (
  record {
    documents_fresh = tt;
    documents_found = tt;
    one_source = tt;
    versions_fresh = tt;
    versions_found = tt;
    owned = tt;
  },
  tt,
)
