-- ===== src/Knowledge/Queries.antt =====
-- The queries of src/services/knowledge_platform/knowledge_repository.py, and `similarity_search` of
-- vector_repository.py.
pub mod Tenancy
pub mod Listing
pub mod Agreement
use ai_pmo_copilot.Common.{
  limited, ℕ, zero, suc, String, Option, none, some, Bool, true, false, not, ◌&&◌, List, [], ◌∷◌,
  map, Result, ok, err, ◌>>=◌, or_raise, ◌==◌, some_is, select, if◌then◌else◌,
}
use ai_pmo_copilot.Common.Sorting.{sort_by}
use ai_pmo_copilot.Knowledge.Tables.{
  Document, DocumentVersion, Chunk, Store, IngestedDocument, DocumentVersionInfo, ScoredChunk,
  EmbeddingProvider, VectorIndex, KnowledgeError, no_latest_version, document_at, version_at,
}
use ai_pmo_copilot.Knowledge.Repository.{latest_version, count_chunks, ingested, as_raised}

-- `Document.project_id == project_id`, unless it is `None`
abbrev pub in_project : Option ℕ → Document → Bool
in_project none document = true
in_project (some project_id) document = some_is document.project_id project_id

module _ {V : Type 0} where
  -- the document in the organization, with its latest version
  abbrev pub document_of : ℕ → Store V → Document → Result KnowledgeError (Option IngestedDocument)
  document_of organization_id store document =
      if not (document.organization_id == organization_id) then ok none else do
        version ← or_raise no_latest_version (latest_version document.id store.versions)
        ok (some (ingested document version.id (count_chunks version.id store.chunks)))

  abbrev pub document_found :
      ℕ → Store V → Option Document → Result KnowledgeError (Option IngestedDocument)
  document_found organization_id store none = ok none
  document_found organization_id store (some document) = document_of organization_id store document

  unfoldable pub get_document : ℕ → ℕ → Store V → Result KnowledgeError (Option IngestedDocument)
  get_document organization_id document_id store =
      document_found organization_id store (document_at document_id store.documents)

  -- the row of a list, unless the document has no version
  abbrev pub with_latest :
      Store V → Document → Option DocumentVersion → List IngestedDocument → List IngestedDocument
  with_latest store document none results = results
  with_latest store document (some version) results =
      ingested document version.id (count_chunks version.id store.chunks) ∷ results

  abbrev pub listed : Store V → List Document → List IngestedDocument
  listed store [] = []
  listed store (document ∷ documents) =
      with_latest store document (latest_version document.id store.versions)
        (listed store documents)

  unfoldable pub list_documents : ℕ → Option ℕ → Store V → List IngestedDocument
  list_documents organization_id project_id store = listed store (
      sort_by (λ (d : Document). d.id)
        (select (λ (d : Document). d.organization_id == organization_id && in_project project_id d)
          store.documents))

  abbrev pub version_info : Store V → DocumentVersion → DocumentVersionInfo
  version_info store version = record {
    id = version.id;
    document_id = version.document_id;
    created_at = version.created_at;
    chunk_count = count_chunks version.id store.chunks;
  }

  abbrev pub versions_found : ℕ → Store V → Option Document → List DocumentVersionInfo
  versions_found organization_id store none = []
  versions_found organization_id store (some document) =
      if not (document.organization_id == organization_id)
      then []
      else map (version_info store) (
          sort_by (λ (v : DocumentVersion). v.id)
            (select (λ (v : DocumentVersion). v.document_id == document.id) store.versions))

  unfoldable pub list_versions : ℕ → ℕ → Store V → List DocumentVersionInfo
  list_versions organization_id document_id store =
      versions_found organization_id store (document_at document_id store.documents)

  -- the join of a chunk to its version, by the version's primary key
  abbrev pub join_version :
      Chunk V
      → Option DocumentVersion
      → List (Chunk V × DocumentVersion)
      → List (Chunk V × DocumentVersion)
  join_version chunk none rows = rows
  join_version chunk (some version) rows = (chunk, version) ∷ rows

  abbrev pub joined : List DocumentVersion → List (Chunk V) → List (Chunk V × DocumentVersion)
  joined versions [] = []
  joined versions (chunk ∷ chunks) =
      join_version chunk (version_at chunk.document_version_id versions) (joined versions chunks)

module _ {V S : Type 0} (vectors : VectorIndex V S) where
  abbrev pub scored : V → Chunk V × DocumentVersion → ScoredChunk S
  scored query (chunk, version) = record {
    chunk_id = chunk.id;
    document_id = version.document_id;
    text = chunk.text;
    score = vectors.score query chunk.embedding;
    document_version_created_at = version.created_at;
  }

  unfoldable pub similarity_search : ℕ → V → ℕ → Store V → List (ScoredChunk S)
  similarity_search organization_id query top_k store = map (scored query) (
      limited top_k (
        vectors.order_by_distance query (λ (r : Chunk V × DocumentVersion). r.0.embedding)
          (select (λ (r : Chunk V × DocumentVersion). r.0.organization_id == organization_id)
            (joined store.versions store.chunks))))

  unfoldable pub search :
      EmbeddingProvider V → ℕ → String → ℕ → Store V → Result KnowledgeError (List (ScoredChunk S))
  unfolding similarity_search
  search provider organization_id query top_k store = do
    query_embedding ← as_raised (provider.embed query)
    ok (similarity_search organization_id query_embedding top_k store)
