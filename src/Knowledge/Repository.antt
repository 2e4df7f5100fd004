-- ===== src/Knowledge/Repository.antt =====
-- src/services/knowledge_platform/knowledge_repository.py, with `similarity_search` of
-- vector_repository.py. An operation that raises has committed nothing. `now` is the clock's reading.
pub mod Consistency
pub mod History
pub mod Ingesting
pub mod Indexing
use ai_pmo_copilot.Common.{
  ℕ, zero, suc, ◌+◌, String, Option, none, some, Bool, true, false, not, ◌&&◌, List, [], ◌∷◌, ◌++◌,
  map, Result, ok, err, ◌>>=◌, or_raise, ◌==◌, str_eq, some_is, length, select, find_first,
  last_of_list, if◌then◌else◌,
}
use ai_pmo_copilot.Common.Sorting.{sort_by}
use ai_pmo_copilot.Domain.Service.{Published}
use ai_pmo_copilot.Knowledge.Chunking.{chunk_text}
use ai_pmo_copilot.Knowledge.Tables.{
  Document, DocumentVersion, Chunk, Store, IngestedDocument, DocumentVersionInfo, ScoredChunk,
  EmbeddingProvider, VectorIndex, KnowledgeError, does_not_exist, no_version_to_index,
  no_latest_version, multiple_results, endless, embedding_failed, document_at, version_at,
}

-- `.order_by(DocumentVersion.id.desc()).first()`
unfoldable pub latest_version : ℕ → List DocumentVersion → Option DocumentVersion
latest_version document_id versions = last_of_list (
    sort_by (λ (v : DocumentVersion). v.id)
      (select (λ (v : DocumentVersion). v.document_id == document_id) versions))

abbrev pub is_source : ℕ → String → Document → Bool
is_source organization_id source_name document =
    document.organization_id == organization_id && str_eq document.source_name source_name

abbrev pub ingested : Document → ℕ → ℕ → IngestedDocument
ingested document version_id chunk_count = record {
  id = document.id;
  organization_id = document.organization_id;
  project_id = document.project_id;
  source_name = document.source_name;
  version_id = version_id;
  chunk_count = chunk_count;
  created_at = document.created_at;
}

-- `.one_or_none()`
abbrev pub one_or_none : List Document → Result KnowledgeError (Option Document)
one_or_none [] = ok none
one_or_none (d ∷ []) = ok (some d)
one_or_none (d ∷ e ∷ ds) = err multiple_results

abbrev pub indexed : ℕ → ℕ → ℕ → ℕ → String → Published
indexed document_id version_id chunk_count organization_id correlation_id = record {
  event_type = "document.indexed";
  payload =
      ("document_id", document_id) ∷ ("version_id", version_id) ∷ ("chunk_count", chunk_count) ∷ [];
  organization_id = organization_id;
  correlation_id = correlation_id;
  origin = "knowledge_repository";
}

-- what `embed` raises passes through
abbrev pub as_raised : {V : Type 0} → Result String V → Result KnowledgeError V
as_raised (ok vector) = ok vector
as_raised (err message) = err (embedding_failed message)

module _ {V : Type 0} where
  -- `func.count(Chunk.id)` of one version
  unfoldable pub count_chunks : ℕ → List (Chunk V) → ℕ
  count_chunks version_id chunks =
      length (select (λ (c : Chunk V). c.document_version_id == version_id) chunks)

  -- The document that was found, or a new one.
  abbrev pub document_for :
      ℕ → String → Option ℕ → ℕ → Store V → Option Document → Document × Store V
  document_for organization_id source_name project_id now store (some document) = (document, store)
  document_for organization_id source_name project_id now store none =
      let document : Document = record {
        id = store.next_document;
        organization_id = organization_id;
        project_id = project_id;
        source_name = source_name;
        created_at = now;
      } in
      (
        document,
        record store {
          documents = store.documents ++ document ∷ [];
          next_document = store.next_document + 1;
        },
      )

  abbrev pub with_version : String → ℕ → Document × Store V → IngestedDocument × Store V
  with_version text now (document, store) = (
    ingested document store.next_version 0,
    record store {
      versions =
          store.versions
          ++ record {
            id = store.next_version;
            document_id = document.id;
            content = text;
            created_at = now;
          }
            ∷ [];
      next_version = store.next_version + 1;
    },
  )

  -- The organization and the project exist; the database refuses others by their foreign keys.
  unfoldable pub ingest :
      ℕ
      → String
      → String
      → Option ℕ
      → ℕ
      → Store V
      → Result KnowledgeError (IngestedDocument × Store V)
  ingest organization_id source_name text project_id now store = do
    found ← one_or_none (select (is_source organization_id source_name) store.documents)
    ok (with_version text now (document_for organization_id source_name project_id now store found))

  abbrev pub row_of :
      EmbeddingProvider V → Document → DocumentVersion → ℕ → ℕ → String → V → Chunk V
  row_of provider document version chunk_index id text vector = record {
    id = id;
    document_version_id = version.id;
    organization_id = document.organization_id;
    chunk_index = chunk_index;
    text = text;
    embedding = vector;
    embedding_provider = provider.provider_name;
    embedding_model = provider.model_name;
  }

  -- The rows of the chunks of a version, with their numbers from `chunk_index` and ids from `id`.
  unfoldable pub embedded :
      EmbeddingProvider V
      → Document
      → DocumentVersion
      → ℕ
      → ℕ
      → List String
      → Result KnowledgeError (List (Chunk V))
  embedded provider document version chunk_index id [] = ok []
  embedded provider document version chunk_index id (text ∷ texts) = do
    vector ← as_raised (provider.embed text)
    rows ← embedded provider document version (chunk_index + 1) (id + 1) texts
    ok (row_of provider document version chunk_index id text vector ∷ rows)

  abbrev pub with_index : ℕ → ℕ → List (Chunk V) → ℕ → String → Store V → Store V
  with_index document_id version_id rows organization_id correlation_id store = record store {
    chunks = store.chunks ++ rows;
    next_chunk = store.next_chunk + length rows;
    published =
        store.published
        ++ indexed document_id version_id (length rows) organization_id correlation_id ∷ [];
  }

  -- `strip` is Python's `str.strip`.
  unfoldable pub index :
      (String → String)
      → EmbeddingProvider V
      → ℕ
      → String
      → Store V
      → Result KnowledgeError (Store V)
  index strip provider document_id correlation_id store = do
    document ← or_raise does_not_exist (document_at document_id store.documents)
    version ← or_raise no_version_to_index (latest_version document_id store.versions)
    texts ← or_raise endless (chunk_text strip version.content)
    rows ← embedded provider document version 0 store.next_chunk texts
    ok (with_index document_id version.id rows document.organization_id correlation_id store)
