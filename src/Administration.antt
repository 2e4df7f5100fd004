-- ===== src/Administration.antt =====
-- Administration of an organization: src/database/administration_repository.py.
pub mod Accounts
pub mod AuditLog
pub mod Users
pub mod Invitations
