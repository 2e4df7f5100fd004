-- ===== src/Knowledge/Repository/Consistency.antt =====
-- What every sequence of calls keeps of the tables of the knowledge platform: primary keys that find
-- their rows, one document for each source, a version for each document, and chunks that carry the
-- organization of their document.
use mathlib.Core.Path.{subst}
use ai_pmo_copilot.Common.{
  ◌⊎◌, All-found_append, str_eq_refl, ℕ, ◌+◌, ◌<◌, ◌≤◌, ◌≡◌, refl, ◌∙◌, String, Option, none, some,
  true, false, List, [], ◌∷◌, ◌++◌, ◌==◌, ==_iff, str_eq, eq_iff, select, All, All-append, All-imp,
  find_first-append, select-append, arith, inl, inr, Bool-cases, All-select, select-append_none,
  last_of_list-append,
}
use ai_pmo_copilot.Common.Sorting.{sort_by, sort_by-append_last}
use ai_pmo_copilot.Knowledge.Tables.{
  Document, DocumentVersion, Chunk, Store, document_at, version_at,
}
use ai_pmo_copilot.Knowledge.Repository.{latest_version, is_source, document_for, with_version}

abbrev pub OneSource : List Document → Document → Type 0
OneSource documents d = select (is_source d.organization_id d.source_name) documents ≡ d ∷ []

abbrev pub HasVersion : List DocumentVersion → Document → Type 0
HasVersion versions d = (version : DocumentVersion) × (latest_version d.id versions ≡ some version)

module _ {V : Type 0} where
  -- the chunk's version and document are there, and the document is of the chunk's organization
  abbrev pub IsOwned : List Document → List DocumentVersion → Chunk V → Type 0
  IsOwned documents versions chunk =
      (version : DocumentVersion) × (document : Document) × (version_at chunk.document_version_id
          versions
        ≡ some version)
      × (document_at version.document_id documents ≡ some document)
      × (document.organization_id ≡ chunk.organization_id)

  pub record IsKeyed (s : Store V) : Type 0 where
    pub documents_fresh : All (λ (d : Document). d.id < s.next_document) s.documents
    pub documents_found : All (λ (d : Document). document_at d.id s.documents ≡ some d) s.documents
    pub one_source : All (OneSource s.documents) s.documents
    pub versions_fresh : All (λ (v : DocumentVersion). v.id < s.next_version) s.versions
    pub versions_found :
        All (λ (v : DocumentVersion). version_at v.id s.versions ≡ some v) s.versions
    pub owned : All (IsOwned s.documents s.versions) s.chunks

  abbrev pub IsConsistent : Store V → Type 0
  IsConsistent s = IsKeyed s × All (HasVersion s.versions) s.documents

-- the latest version after another one was added, of its document and of the others
pub latest_version-append :
    (versions : List DocumentVersion) (v : DocumentVersion)
    → All (λ (w : DocumentVersion). w.id < v.id) versions
    → latest_version v.document_id (versions ++ v ∷ []) ≡ some v
unfolding latest_version
latest_version-append versions v fresh =
    let p = λ (w : DocumentVersion). w.document_id == v.document_id in
    let key = λ (w : DocumentVersion). w.id in
    let last : select p (v ∷ []) ≡ v ∷ [] = ground arith in
    rw (select-append p versions (v ∷ [])) (
      rw last (
        rw
          (sort_by-append_last key (select p versions) v (
            All-select (λ w. key w ≤ key v) p versions
              (All-imp (λ w. key w < key v) (λ w. key w ≤ key v) versions (λ w h. omega arith)
                fresh)))
          (last_of_list-append (sort_by key (select p versions)) v)))

latest_version-other :
    (document_id : ℕ) (versions : List DocumentVersion) (v : DocumentVersion)
    → (v.document_id == document_id) ≡ false
    → latest_version document_id (versions ++ v ∷ []) ≡ latest_version document_id versions
unfolding latest_version
latest_version-other document_id versions v other =
    rw
      (select-append_none (λ (w : DocumentVersion). w.document_id == document_id) versions (v ∷ [])
        (other, tt))
      refl

-- a source that no document has stays apart from the others
is_source-other :
    (documents : List Document) (d new : Document)
    → OneSource documents d
    → select (is_source new.organization_id new.source_name) documents ≡ []
    → is_source d.organization_id d.source_name new ≡ false
is_source-other documents d new one none_yet =
    elim (Bool-cases (is_source d.organization_id d.source_name new)) [
      | inl both ↦
          let org : (new.organization_id == d.organization_id) ≡ true = ground arith in
          let name : str_eq new.source_name d.source_name ≡ true = ground arith in
          let same_org : new.organization_id ≡ d.organization_id =
            (==_iff new.organization_id d.organization_id).0 org in
          let same_name : new.source_name ≡ d.source_name =
            (eq_iff new.source_name d.source_name).0 name in
          let emptied : select (is_source d.organization_id d.source_name) documents ≡ [] =
            subst (λ (n : ℕ). select (is_source n d.source_name) documents ≡ []) same_org
              (subst (λ (t : String). select (is_source new.organization_id t) documents ≡ [])
                same_name none_yet) in
          cc
      | inr other ↦ other
    ]

is_source_refl : (d : Document) → is_source d.organization_id d.source_name d ≡ true
is_source_refl d = let name = str_eq_refl d.source_name in ground arith

OneSource-append :
    (documents : List Document) (new : Document)
    → All (OneSource documents) documents
    → select (is_source new.organization_id new.source_name) documents ≡ []
    → All (OneSource (documents ++ new ∷ [])) (documents ++ new ∷ [])
OneSource-append documents new one none_yet =
    All-append (OneSource (documents ++ new ∷ [])) documents (new ∷ [])
      (All-imp (OneSource documents) (OneSource (documents ++ new ∷ [])) documents
        (λ d h.
          select-append_none (is_source d.organization_id d.source_name) documents (new ∷ [])
            (is_source-other documents d new h none_yet, tt)
          ∙ h)
        one)
      (
        select-append (is_source new.organization_id new.source_name) documents (new ∷ [])
            ∙ rw none_yet (rw (is_source_refl new) refl),
        tt,
      )

fresh-append :
    {A : Type 0} (key : A → ℕ) (next : ℕ) (xs : List A) (a : A)
    → All (λ x. key x < next) xs
    → key a ≡ next
    → All (λ x. key x < next + 1) (xs ++ a ∷ [])
fresh-append key next xs a fresh new =
    All-append (λ x. key x < next + 1) xs (a ∷ [])
      (All-imp (λ x. key x < next) (λ x. key x < next + 1) xs (λ x h. omega arith) fresh)
      (omega arith, tt)

HasVersion-own :
    (versions : List DocumentVersion) (v : DocumentVersion) (d : Document)
    → All (λ (w : DocumentVersion). w.id < v.id) versions
    → v.document_id ≡ d.id
    → HasVersion (versions ++ v ∷ []) d
HasVersion-own versions v d fresh its = (
  v,
  subst (λ n. latest_version n (versions ++ v ∷ []) ≡ some v) its
      (latest_version-append versions v fresh),
)

pub HasVersion-append :
    (versions : List DocumentVersion) (v : DocumentVersion) (d : Document)
    → All (λ (w : DocumentVersion). w.id < v.id) versions
    → (v.document_id ≡ d.id) ⊎ HasVersion versions d
    → HasVersion (versions ++ v ∷ []) d
HasVersion-append versions v d fresh (inl its) = HasVersion-own versions v d fresh its
HasVersion-append versions v d fresh (inr (w, h)) = elim (Bool-cases (v.document_id == d.id)) [
  | inl its ↦ HasVersion-own versions v d fresh ((==_iff v.document_id d.id).0 its)
  | inr other ↦ (w, latest_version-other d.id versions v other ∙ h)
]

module _ {V : Type 0} (s : Store V) (keyed : IsKeyed s) where
  open keyed use {
    documents_fresh, documents_found, one_source, versions_fresh, versions_found, owned,
  }

  -- a new document of a source that has none
  pub document_for-IsKeyed :
      (organization_id : ℕ) (source_name : String) (project_id : Option ℕ) (now : ℕ)
      → select (is_source organization_id source_name) s.documents ≡ []
      → IsKeyed (document_for organization_id source_name project_id now s none).1
  document_for-IsKeyed organization_id source_name project_id now none_yet = record {
    documents_fresh =
        fresh-append (λ (d : Document). d.id) s.next_document s.documents new documents_fresh refl;
    documents_found =
        All-found_append (λ (d : Document). d.id) s.next_document s.documents new documents_fresh
          documents_found refl;
    one_source = OneSource-append s.documents new one_source none_yet;
    versions_fresh = versions_fresh;
    versions_found = versions_found;
    owned =
        All-imp (IsOwned s.documents s.versions) (IsOwned (s.documents ++ new ∷ []) s.versions)
          s.chunks
          (λ c h.
            let (v, d, at_v, at_d, same) = h in
            (
              v,
              d,
              at_v,
              find_first-append (λ (e : Document). e.id == v.document_id) s.documents (new ∷ []) d
                  at_d,
              same,
            ))
          owned;
  }
    where
      new : Document
      new = (document_for organization_id source_name project_id now s none).0

  pub with_version-IsKeyed :
      (text : String) (now : ℕ) (d : Document) → IsKeyed (with_version text now (d, s)).1
  with_version-IsKeyed text now d = record {
    documents_fresh = documents_fresh;
    documents_found = documents_found;
    one_source = one_source;
    versions_fresh =
        fresh-append (λ (v : DocumentVersion). v.id) s.next_version s.versions new versions_fresh
          refl;
    versions_found =
        All-found_append (λ (v : DocumentVersion). v.id) s.next_version s.versions new
          versions_fresh versions_found refl;
    owned =
        All-imp (IsOwned s.documents s.versions) (IsOwned s.documents (s.versions ++ new ∷ []))
          s.chunks
          (λ c h.
            let (v, e, at_v, at_e, same) = h in
            (
              v,
              e,
              find_first-append (λ (w : DocumentVersion). w.id == c.document_version_id) s.versions
                  (new ∷ []) v at_v,
              at_e,
              same,
            ))
          owned;
  }
    where
      new : DocumentVersion
      new = record { id = s.next_version; document_id = d.id; content = text; created_at = now }
