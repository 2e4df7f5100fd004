-- ===== src/Knowledge/Ingestion/Uploading.antt =====
-- What an upload comes to.
use mathlib.Core.Path.{subst}
use ai_pmo_copilot.Common.{
  ℕ, ◌≤◌, ◌<◌, ◌≡◌, refl, sym, ap, ◌∙◌, String, Option, some, List, [], ◌∷◌, ◌++◌, ok, err, ltb,
  All, All-imp, All-append, length, arith, if◌then◌else◌, inl, inr, ◌⊎◌, Bool-cases,
}
use ai_pmo_copilot.Administration.AuditLog.{AuditLog, entry_of, record_audit}
use ai_pmo_copilot.Knowledge.Chunking.{chunk_text}
use ai_pmo_copilot.Knowledge.Chunking.Rejoining.{chunk_text-rejoined}
use ai_pmo_copilot.Knowledge.Tables.{
  Document, Chunk, Store, IngestedDocument, EmbeddingProvider, embedding_failed,
}
use ai_pmo_copilot.Knowledge.Repository.{indexed, with_index}
use ai_pmo_copilot.Knowledge.Repository.Consistency.{IsConsistent}
use ai_pmo_copilot.Knowledge.Repository.Ingesting.{new_version, IsIngested, ingest-IsIngested}
use ai_pmo_copilot.Knowledge.Repository.Indexing.{
  Embeds, Refuses, IsRows, index-cases, count_chunks-added, count_chunks-none, chunks-older,
}
use ai_pmo_copilot.Knowledge.Queries.{get_document}
use ai_pmo_copilot.Knowledge.Queries.Agreement.{get_document-stored}
use ai_pmo_copilot.Knowledge.Queries.Listing.{shown}
use ai_pmo_copilot.Knowledge.Ingestion.Status.{get_status-of, status_of-audited}
use ai_pmo_copilot.Knowledge.Ingestion.{
  document_indexing, State, Call, audited, after_index, finished, reindex, upload, status_of,
  get_status,
}

-- An audit entry of the service about a document.
abbrev pub document_entry : ℕ → ℕ → String → ℕ → ℕ → AuditLog
document_entry organization_id user_id action document_id now = record {
  organization_id = organization_id;
  actor_user_id = user_id;
  action = action;
  entity_type = "document";
  entity_id = some document_id;
  created_at = now;
}

-- What an upload is called with, and the readings of the clock in it.
pub record UploadRequest : Type 0 where
  pub organization_id : ℕ
  pub user_id : ℕ
  pub text : String
  pub correlation_id : String
  pub uploaded_at : ℕ
  pub finished_at : ℕ

module _ {V : Type 0} where
  -- What stays of every upload: the text as the new version of a document, which was there or is
  -- added, and two audit entries, of the upload and of how its index ended.
  pub record IsKept (q : UploadRequest) (document_id : ℕ) (ended : String) (s t : State V)
      : Type 0 where
    pub documents :
        (t.store.documents ≡ s.store.documents)
        ⊎ ((d : Document) × (d.id ≡ document_id)
            × (d.organization_id ≡ q.organization_id)
            × (t.store.documents ≡ s.store.documents ++ d ∷ []))
    pub versions :
        t.store.versions
        ≡ s.store.versions ++ new_version s.store document_id q.text q.uploaded_at ∷ []
    pub audit :
        t.audit
        ≡ (s.audit
            ++ document_entry q.organization_id q.user_id "document.uploaded" document_id
                q.uploaded_at
              ∷ [])
          ++ document_entry q.organization_id q.user_id ended document_id q.finished_at ∷ []

  -- The document is answered with its new version, one event says so, and the status follows.
  abbrev pub IsUploaded : UploadRequest → List String → State V → Call V → Type 0
  IsUploaded q texts s result =
      (x : IngestedDocument) × (result.0 ≡ ok x)
      × (x.organization_id ≡ q.organization_id)
      × (x.version_id ≡ s.store.next_version)
      × (x.chunk_count ≡ length texts)
      × IsKept q x.id "document.indexed" s result.1
      × (result.1.store.published
          ≡ s.store.published
            ++ indexed x.id x.version_id x.chunk_count q.organization_id q.correlation_id ∷ [])
      × (get_status q.organization_id x.id result.1
          ≡ ok (some (if ltb 0 (length texts) then "indexed" else "ingested_pending_index")))

  -- The error tells the document and the version; the chunks and the events are those of before.
  abbrev pub IsLeftFailed : UploadRequest → String → State V → Call V → Type 0
  IsLeftFailed q message s result =
      (document_id : ℕ) × (result.0
        ≡ err (document_indexing document_id s.store.next_version (embedding_failed message)))
      × IsKept q document_id "document.index_failed" s result.1
      × (result.1.store.chunks ≡ s.store.chunks)
      × (result.1.store.published ≡ s.store.published)
      × (get_status q.organization_id document_id result.1 ≡ ok (some "failed"))

module _ {V : Type 0} (strip : String → String) (provider : EmbeddingProvider V)
    (organization_id user_id : ℕ) (text correlation_id : String) (uploaded_at finished_at : ℕ)
    (s : State V) (consistent : IsConsistent s.store) (texts : List String)
    (chunked : chunk_text strip text ≡ some texts) where
  abbrev q : UploadRequest
  q = record {
    organization_id = organization_id;
    user_id = user_id;
    text = text;
    correlation_id = correlation_id;
    uploaded_at = uploaded_at;
    finished_at = finished_at;
  }

  -- the state after the ingestion of `d` and its audit entry
  abbrev after_ingest : Document → Store V → State V
  after_ingest d t =
      audited organization_id user_id "document.uploaded" d.id uploaded_at (record s { store = t })

  module _ (older : All (λ (a : AuditLog). a.created_at ≤ uploaded_at) s.audit)
      (earlier : uploaded_at < finished_at) (d : Document) (t : Store V)
      (i : IsIngested organization_id text uploaded_at s.store t d) where
    open i use {stored, its, documents, versions, latest, chunks, published}

    -- after the second audit entry, where the index changed no document and no version
    kept :
        (ended : String) (u : Store V)
        → u.documents ≡ t.documents
        → u.versions ≡ t.versions
        → IsKept q d.id ended s (
            audited organization_id user_id ended d.id finished_at
              (record (after_ingest d t) { store = u }))
    unfolding record_audit
    kept ended u same_documents same_versions = record {
      documents = elim documents [
        | inl old ↦ inl (same_documents ∙ old)
        | inr new ↦ inr (d, refl, its, same_documents ∙ new)
      ];
      versions = same_versions ∙ versions;
      audit = refl;
    }

    older_entries : All (λ (a : AuditLog). a.created_at ≤ finished_at) (after_ingest d t).audit
    unfolding record_audit
    older_entries =
        All-append (λ (a : AuditLog). a.created_at ≤ finished_at) s.audit
          (entry_of organization_id user_id "document.uploaded" "document" (some d.id) uploaded_at
            ∷ [])
          (All-imp (λ (a : AuditLog). a.created_at ≤ uploaded_at)
            (λ (a : AuditLog). a.created_at ≤ finished_at) s.audit (λ a h. omega arith) older)
          (omega arith, tt)

    before_index :
        get_document organization_id d.id t
        ≡ ok (some (shown t d (new_version s.store d.id text uploaded_at)))
    before_index =
        get_document-stored t organization_id d.id d (new_version s.store d.id text uploaded_at)
          stored its latest

    older_chunks : All (λ (c : Chunk V). c.document_version_id < s.store.next_version) t.chunks
    older_chunks =
        subst (All (λ (c : Chunk V). c.document_version_id < s.store.next_version)) (sym chunks)
          (chunks-older s.store consistent)

    left_failed :
        (message : String)
        → IsLeftFailed q message s (
            after_index organization_id user_id d.id s.store.next_version finished_at
              (after_ingest d t)
              (err (embedding_failed message)))
    left_failed message = (
      d.id,
      refl,
      kept "document.index_failed" t refl refl,
      chunks,
      published,
      get_status-of organization_id d.id _ (shown t d (new_version s.store d.id text uploaded_at))
            before_index
          ∙ ap ok (
              status_of-audited organization_id user_id "document.index_failed" d.id finished_at
                (after_ingest d t) (shown t d (new_version s.store d.id text uploaded_at))
                older_entries (count_chunks-none s.store.next_version t.chunks older_chunks)),
    )

    module _ (rows : List (Chunk V))
        (are : IsRows (new_version s.store d.id text uploaded_at) texts rows) where
      abbrev after_rows : Store V
      after_rows = with_index d.id s.store.next_version rows d.organization_id correlation_id t

      abbrev answer : IngestedDocument
      answer = shown after_rows d (new_version s.store d.id text uploaded_at)

      after_index-get_document : get_document organization_id d.id after_rows ≡ ok (some answer)
      after_index-get_document =
          get_document-stored after_rows organization_id d.id d
            (new_version s.store d.id text uploaded_at) stored its latest

      answer-chunk_count : answer.chunk_count ≡ length texts
      answer-chunk_count =
          count_chunks-added s.store.next_version t.chunks rows older_chunks are.1 ∙ are.0

      answer-status :
          status_of organization_id d.id
            (audited organization_id user_id "document.indexed" d.id finished_at
              (record (after_ingest d t) { store = after_rows }))
            (some answer)
          ≡ some (if ltb 0 (length texts) then "indexed" else "ingested_pending_index")
      answer-status = elim (Bool-cases (ltb 0 (length texts))) [
        | inl some_chunks ↦ rw answer-chunk_count (rw some_chunks refl)
        | inr no_chunks ↦
            let empty : answer.chunk_count ≡ 0 = let e = answer-chunk_count in ground arith in
            status_of-audited organization_id user_id "document.indexed" d.id finished_at
              (record (after_ingest d t) { store = after_rows }) answer older_entries empty
            ∙ rw no_chunks refl
      ]

      uploaded : IsUploaded q texts s (
          finished organization_id user_id d.id finished_at
            (record (after_ingest d t) { store = after_rows })
            (get_document organization_id d.id after_rows))
      uploaded = rw after_index-get_document (
        answer,
        refl,
        its,
        refl,
        answer-chunk_count,
        kept "document.indexed" after_rows refl refl,
        published_here,
        get_status-of organization_id d.id _ answer after_index-get_document ∙ ap ok answer-status,
      )
        where
          counts : length rows ≡ answer.chunk_count
          counts = are.0 ∙ sym answer-chunk_count

          published_here :
              after_rows.published
              ≡ s.store.published
                ++ indexed d.id s.store.next_version answer.chunk_count organization_id
                    correlation_id
                  ∷ []
          published_here = rw published (rw its (rw counts refl))

    -- the call of `reindex` on what the ingestion left
    reindexed :
        (Embeds provider texts
          × IsUploaded q texts s (
              reindex strip provider organization_id user_id d.id correlation_id finished_at
                (after_ingest d t)))
        ⊎ ((message : String) × Refuses provider texts message
            × IsLeftFailed q message s (
                reindex strip provider organization_id user_id d.id correlation_id finished_at
                  (after_ingest d t)))
    unfolding reindex
    reindexed =
        elim (index-cases strip provider correlation_id t d
          (new_version s.store d.id text uploaded_at) texts stored latest chunked) [
            | inl (embeds, (rows, indexed_now, are)) ↦
                inl (embeds, rw before_index (rw indexed_now (uploaded rows are)))
            | inr (message, refused, failed) ↦
                inr (message, refused, rw before_index (rw failed (left_failed message)))
          ]

-- For consistent tables, audit entries that are not newer than the upload, and an index that ends
-- after it; the organization and the project exist. An upload leaves its text as the new version of a
-- document, which was there or is added, and two audit entries: "document.uploaded", then
-- "document.indexed" or "document.index_failed". If the provider embeds all chunks of the text, the
-- document is answered, under the id of the new version and with the number of its chunks, one event
-- with the same is published after the others, and the status of the document is "indexed", or
-- "ingested_pending_index" if the text has no chunks. If the provider refuses a chunk, `upload` raises
-- a `DocumentIndexingError` with the document and the new version; the chunks and the events are those
-- of before, and the status is "failed".
pub upload-outcome :
    {V : Type 0} (strip : String → String) (provider : EmbeddingProvider V) (q : UploadRequest)
    (source_name : String) (project_id : Option ℕ) (s : State V)
    → IsConsistent s.store
    → All (λ (a : AuditLog). a.created_at ≤ q.uploaded_at) s.audit
    → q.uploaded_at < q.finished_at
    → (texts : List String) × (chunk_text strip q.text ≡ some texts)
      × ((Embeds provider texts
            × IsUploaded q texts s (
                upload strip provider q.organization_id q.user_id source_name q.text
                  q.correlation_id project_id q.uploaded_at q.finished_at s))
          ⊎ ((message : String) × Refuses provider texts message
              × IsLeftFailed q message s (
                  upload strip provider q.organization_id q.user_id source_name q.text
                    q.correlation_id project_id q.uploaded_at q.finished_at s)))
unfolding upload
upload-outcome strip provider q source_name project_id s consistent older earlier =
    let (texts, chunked, _, _) = chunk_text-rejoined strip q.text in
    let (d, t, answered, i) =
      ingest-IsIngested q.organization_id source_name q.text project_id q.uploaded_at s.store
        consistent in
    (
      texts,
      chunked,
      rw answered (
          reindexed strip provider q.organization_id q.user_id q.text q.correlation_id q.uploaded_at
            q.finished_at s consistent texts chunked older earlier d t i),
    )
