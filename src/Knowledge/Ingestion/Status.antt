-- ===== src/Knowledge/Ingestion/Status.antt =====
-- The status of a document, by its chunks and by the audit entry that is recorded last.
use ai_pmo_copilot.Common.{
  ℕ, ◌≤◌, ◌≡◌, refl, String, Option, some, Bool, true, false, ok, All, arith, if◌then◌else◌, str_eq,
  ◌==◌,
}
use ai_pmo_copilot.Administration.AuditLog.{AuditLog, entry_of, record_audit, list_audit_log-last}
use ai_pmo_copilot.Knowledge.Tables.{IngestedDocument}
use ai_pmo_copilot.Knowledge.Queries.{get_document}
use ai_pmo_copilot.Knowledge.Ingestion.{State, audited, status_of, get_status}

module _ {V : Type 0} where
  pub get_status-of :
      (organization_id document_id : ℕ) (s : State V) (x : IngestedDocument)
      → get_document organization_id document_id s.store ≡ ok (some x)
      → get_status organization_id document_id s
        ≡ ok (status_of organization_id document_id s (some x))
  unfolding get_status
  get_status-of organization_id document_id s x h = rw h refl

  -- the audit entry that a call records last decides the status of a document without chunks
  pub status_of-audited :
      (organization_id user_id : ℕ) (action : String) (document_id now : ℕ) (s : State V)
      (x : IngestedDocument)
      → All (λ (a : AuditLog). a.created_at ≤ now) s.audit
      → x.chunk_count ≡ 0
      → status_of organization_id document_id
          (audited organization_id user_id action document_id now s)
          (some x)
        ≡ some
            (if str_eq action "document.index_failed" then "failed" else "ingested_pending_index")
  unfolding record_audit
  status_of-audited organization_id user_id action document_id now s x older empty =
      let entry = entry_of organization_id user_id action "document" (some document_id) now in
      let here : (organization_id == organization_id) ≡ true = ground arith in
      let its : (document_id == document_id) ≡ true = ground arith in
      rw empty (
        rw
          (list_audit_log-last organization_id (some "document") (some document_id) s.audit entry
            older (rw here (rw its refl)))
          (on_action (str_eq action "document.index_failed")))
    where
      on_action :
          (b : Bool)
          → ◌≡◌ {A = Option String}
              (if b then some "failed" else some "ingested_pending_index")
              (some (if b then "failed" else "ingested_pending_index"))
      on_action true = refl
      on_action false = refl
