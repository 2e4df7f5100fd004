-- ===== src/Knowledge/Ingestion.antt =====
-- src/services/knowledge_platform/document_ingestion_service.py. A call answers or raises, and leaves a
-- state in both cases, since what it has committed before it raises stays. `uploaded_at` and
-- `finished_at` are the clock's readings of a call.
pub mod Status
pub mod Uploading
use ai_pmo_copilot.Common.{
  ℕ, String, Option, none, some, Bool, true, false, List, [], ◌∷◌, Result, ok, err, ◌>>=◌, ltb,
  str_eq, if◌then◌else◌,
}
use ai_pmo_copilot.Administration.AuditLog.{AuditLog, record_audit, list_audit_log}
use ai_pmo_copilot.Knowledge.Tables.{
  Store, IngestedDocument, DocumentVersionInfo, EmbeddingProvider, KnowledgeError, does_not_exist,
}
use ai_pmo_copilot.Knowledge.Repository.{ingest, index}
use ai_pmo_copilot.Knowledge.Queries as Queries
use ai_pmo_copilot.Knowledge.Queries.{get_document}

-- what the repository raised, `DocumentIndexingError`, and the `AttributeError` of a document that is
-- gone after its index
pub data IngestionError : Type 0 where
  raised : KnowledgeError → IngestionError
  document_indexing : ℕ → ℕ → KnowledgeError → IngestionError
  no_document : IngestionError

pub record State (V : Type 0) : Type 0 where
  pub store : Store V
  pub audit : List AuditLog

abbrev pub Call : Type 0 → Type 0
Call V = Result IngestionError IngestedDocument × State V

-- `recent and recent[0].action == ACTION_INDEX_FAILED`
abbrev pub failed_last : List AuditLog → Bool
failed_last [] = false
failed_last (entry ∷ entries) = str_eq entry.action "document.index_failed"

module _ {V : Type 0} where
  abbrev pub audited : ℕ → ℕ → String → ℕ → ℕ → State V → State V
  audited organization_id user_id action document_id now s = record s {
    audit = record_audit organization_id user_id action "document" (some document_id) now s.audit;
  }

  -- after the second `get_document`
  abbrev pub finished :
      ℕ → ℕ → ℕ → ℕ → State V → Result KnowledgeError (Option IngestedDocument) → Call V
  finished organization_id user_id document_id now s (err e) = (err (raised e), s)
  finished organization_id user_id document_id now s (ok none) = (err no_document, s)
  finished organization_id user_id document_id now s (ok (some document)) =
      (ok document, audited organization_id user_id "document.indexed" document_id now s)

  -- the `try` around `index`, with the version that the document had before
  abbrev pub after_index : ℕ → ℕ → ℕ → ℕ → ℕ → State V → Result KnowledgeError (Store V) → Call V
  after_index organization_id user_id document_id version_id now s (err e) = (
    err (document_indexing document_id version_id e),
    audited organization_id user_id "document.index_failed" document_id now s,
  )
  after_index organization_id user_id document_id version_id now s (ok store) =
      finished organization_id user_id document_id now (record s { store = store })
        (get_document organization_id document_id store)

  abbrev pub index_found :
      (String → String)
      → EmbeddingProvider V
      → ℕ
      → ℕ
      → ℕ
      → String
      → ℕ
      → State V
      → Result KnowledgeError (Option IngestedDocument)
      → Call V
  index_found strip provider organization_id user_id document_id correlation_id now s (err e) =
      (err (raised e), s)
  index_found strip provider organization_id user_id document_id correlation_id now s (ok none) =
      (err (raised does_not_exist), s)
  index_found strip provider organization_id user_id document_id correlation_id now s
        (ok (some document)) =
      after_index organization_id user_id document_id document.version_id now s
        (index strip provider document_id correlation_id s.store)

  -- `reindex`, and `_index` of which it is the call
  unfoldable pub reindex :
      (String → String) → EmbeddingProvider V → ℕ → ℕ → ℕ → String → ℕ → State V → Call V
  reindex strip provider organization_id user_id document_id correlation_id now s =
      index_found strip provider organization_id user_id document_id correlation_id now s
        (get_document organization_id document_id s.store)

  abbrev pub index_ingested :
      (String → String)
      → EmbeddingProvider V
      → ℕ
      → ℕ
      → String
      → ℕ
      → ℕ
      → State V
      → Result KnowledgeError (IngestedDocument × Store V)
      → Call V
  index_ingested strip provider organization_id user_id correlation_id uploaded_at finished_at s
        (err e) =
      (err (raised e), s)
  index_ingested strip provider organization_id user_id correlation_id uploaded_at finished_at s
        (ok (document, store)) =
      reindex strip provider organization_id user_id document.id correlation_id finished_at (
        audited organization_id user_id "document.uploaded" document.id uploaded_at
          (record s { store = store }))

  unfoldable pub upload :
      (String → String)
      → EmbeddingProvider V
      → ℕ
      → ℕ
      → String
      → String
      → String
      → Option ℕ
      → ℕ
      → ℕ
      → State V
      → Call V
  upload strip provider organization_id user_id source_name text correlation_id project_id
        uploaded_at finished_at s =
      index_ingested strip provider organization_id user_id correlation_id uploaded_at finished_at s
        (ingest organization_id source_name text project_id uploaded_at s.store)

  abbrev pub status_of : ℕ → ℕ → State V → Option IngestedDocument → Option String
  status_of organization_id document_id s none = none
  status_of organization_id document_id s (some document) =
      if ltb 0 document.chunk_count
      then some "indexed"
      else if failed_last
          (list_audit_log organization_id 1 (some "document") (some document_id) s.audit)
      then some "failed"
      else some "ingested_pending_index"

  unfoldable pub get_status : ℕ → ℕ → State V → Result KnowledgeError (Option String)
  get_status organization_id document_id s = do
    document ← get_document organization_id document_id s.store
    ok (status_of organization_id document_id s document)
