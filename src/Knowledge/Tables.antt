-- ===== src/Knowledge/Tables.antt =====
-- The tables of the knowledge platform (src/database/models.py), what its operations answer with
-- (src/services/knowledge_platform/types.py), and the parts that it is given. `V` is the type of the
-- vectors.
use ai_pmo_copilot.Common.{ℕ, String, Option, List, Result, IsElem, ◌↔◌, ◌==◌, find_first}
use ai_pmo_copilot.Domain.Service.{Published}

pub record Document : Type 0 where
  pub id : ℕ
  pub organization_id : ℕ
  pub project_id : Option ℕ
  pub source_name : String
  pub created_at : ℕ

pub record DocumentVersion : Type 0 where
  pub id : ℕ
  pub document_id : ℕ
  pub content : String
  pub created_at : ℕ

pub record Chunk (V : Type 0) : Type 0 where
  pub id : ℕ
  pub document_version_id : ℕ
  pub organization_id : ℕ
  pub chunk_index : ℕ
  pub text : String
  pub embedding : V
  pub embedding_provider : String
  pub embedding_model : String

-- The tables, the sequences of their primary keys, and what was given to the publisher, in order.
pub record Store (V : Type 0) : Type 0 where
  pub documents : List Document
  pub versions : List DocumentVersion
  pub chunks : List (Chunk V)
  pub next_document : ℕ
  pub next_version : ℕ
  pub next_chunk : ℕ
  pub published : List Published

pub record IngestedDocument : Type 0 where
  pub id : ℕ
  pub organization_id : ℕ
  pub project_id : Option ℕ
  pub source_name : String
  pub version_id : ℕ
  pub chunk_count : ℕ
  pub created_at : ℕ

pub record DocumentVersionInfo : Type 0 where
  pub id : ℕ
  pub document_id : ℕ
  pub created_at : ℕ
  pub chunk_count : ℕ

pub record ScoredChunk (S : Type 0) : Type 0 where
  pub chunk_id : ℕ
  pub document_id : ℕ
  pub text : String
  pub score : S
  pub document_version_created_at : ℕ

-- `EmbeddingProvider`; `embed` may raise, with the error's text.
pub record EmbeddingProvider (V : Type 0) : Type 0 where
  pub provider_name : String
  pub model_name : String
  pub embed : String → Result String V

-- What pgvector does for a query vector: it orders rows by their distance, and gives the score.
pub record VectorIndex (V S : Type 0) : Type 1 where
  pub order_by_distance : {A : Type 0} → V → (A → V) → List A → List A
  pub elem_order_by_distance :
      {A : Type 0} (query : V) (column : A → V) (rows : List A) (a : A)
      → IsElem a (order_by_distance query column rows) ↔ IsElem a rows
  pub score : V → V → S

-- the two `ValueError`s of `index`, what `embed` raised, and the `AttributeError` on a document that
-- has no version, SQLAlchemy's `MultipleResultsFound`; `endless` is no error of the code but the fuel of the loop over a text
pub data KnowledgeError : Type 0 where
  does_not_exist no_version_to_index no_latest_version multiple_results endless : KnowledgeError
  embedding_failed : String → KnowledgeError

-- `session.get(Model, id)`
abbrev pub document_at : ℕ → List Document → Option Document
document_at document_id documents = find_first (λ (d : Document). d.id == document_id) documents

abbrev pub version_at : ℕ → List DocumentVersion → Option DocumentVersion
version_at version_id versions = find_first (λ (v : DocumentVersion). v.id == version_id) versions
