-- ===== src/Identity/Sessions.antt =====
-- The sessions of src/database/administration_repository.py, `logout` of
-- src/services/identity/auth_service.py, and `revoke_session` of
-- src/services/administration_service.py. `now` is the clock's reading.
pub mod Revocation
use ai_pmo_copilot.Common.{
  ℕ, String, Option, none, some, Bool, true, false, not, ◌&&◌, List, [], ◌∷◌, ◌++◌, Result, ok, err,
  ◌==◌, str_eq, is_none, select, find_first, if◌then◌else◌,
}
use ai_pmo_copilot.Common.Sorting.{sort_by}
use ai_pmo_copilot.Administration.AuditLog.{AuditLog, record_audit, reversed}

pub record UserSession : Type 0 where
  pub id : String
  pub user_id : ℕ
  pub organization_id : ℕ
  pub created_at : ℕ
  pub last_seen_at : Option ℕ
  pub revoked_at : Option ℕ

-- the `IntegrityError` of an id that is there
pub data SessionError : Type 0 where
  session_exists : SessionError

-- `session.get(UserSession, session_id)`
unfoldable pub get_session : String → List UserSession → Option UserSession
get_session session_id sessions = find_first (λ (u : UserSession). str_eq u.id session_id) sessions

-- the commit of a change of the row
unfoldable pub update_session :
    String → (UserSession → UserSession) → List UserSession → List UserSession
update_session session_id change [] = []
update_session session_id change (u ∷ us) =
    if str_eq u.id session_id then change u ∷ us else u ∷ update_session session_id change us

abbrev pub new_session : String → ℕ → ℕ → ℕ → UserSession
new_session session_id user_id organization_id now = record {
  id = session_id;
  user_id = user_id;
  organization_id = organization_id;
  created_at = now;
  last_seen_at = none;
  revoked_at = none;
}

unfoldable pub create_session :
    String → ℕ → ℕ → ℕ → List UserSession → Result SessionError (List UserSession)
unfolding get_session
create_session session_id user_id organization_id now sessions =
    if is_none (get_session session_id sessions)
    then ok (sessions ++ new_session session_id user_id organization_id now ∷ [])
    else err session_exists

-- The newest first; those of one time in the reverse of the table's order, where the database may
-- choose.
unfoldable pub list_active_sessions : ℕ → List UserSession → List UserSession
list_active_sessions organization_id sessions = reversed (
    sort_by (λ (u : UserSession). u.created_at)
      (select (λ (u : UserSession). u.organization_id == organization_id && is_none u.revoked_at)
        sessions))

abbrev pub as_revoked : ℕ → UserSession → UserSession
as_revoked now u = record u { revoked_at = some now }

abbrev pub revoke_found :
    String → ℕ → List UserSession → Option UserSession → Option UserSession × List UserSession
revoke_found session_id now sessions none = (none, sessions)
revoke_found session_id now sessions (some u) =
    if not (is_none u.revoked_at)
    then (none, sessions)
    else (some (as_revoked now u), update_session session_id (as_revoked now) sessions)

unfoldable pub revoke_session :
    String → ℕ → List UserSession → Option UserSession × List UserSession
unfolding get_session update_session
revoke_session session_id now sessions =
    revoke_found session_id now sessions (get_session session_id sessions)

-- `logout`
abbrev pub logout : String → ℕ → List UserSession → List UserSession
logout session_id now sessions = (revoke_session session_id now sessions).1

abbrev pub revoked_row : Option UserSession → Bool
revoked_row none = false
revoked_row (some u) = not (is_none u.revoked_at)

unfoldable pub is_session_revoked : String → List UserSession → Bool
unfolding get_session
is_session_revoked session_id sessions = revoked_row (get_session session_id sessions)

unfoldable pub touch_session_last_seen : String → ℕ → List UserSession → List UserSession
unfolding update_session
touch_session_last_seen session_id now sessions =
    update_session session_id (λ (u : UserSession). record u { last_seen_at = some now }) sessions

-- what `AdministrationService.revoke_session` does with the answer of the repository
abbrev pub revoked_by :
    ℕ
    → ℕ
    → ℕ
    → List AuditLog
    → Option UserSession × List UserSession
    → Option UserSession × List UserSession × List AuditLog
revoked_by organization_id actor_user_id now log (none, sessions) = (none, sessions, log)
revoked_by organization_id actor_user_id now log (some u, sessions) = (
  some u,
  sessions,
  record_audit organization_id actor_user_id "session.revoked" "session" none now log,
)

abbrev pub revoke_in :
    String
    → ℕ
    → ℕ
    → ℕ
    → List UserSession
    → List AuditLog
    → Option UserSession
    → Option UserSession × List UserSession × List AuditLog
revoke_in session_id organization_id actor_user_id now sessions log none = (none, sessions, log)
revoke_in session_id organization_id actor_user_id now sessions log (some existing) =
    if not (existing.organization_id == organization_id)
    then (none, sessions, log)
    else revoked_by organization_id actor_user_id now log (revoke_session session_id now sessions)

unfoldable pub revoke_session_of :
    String
    → ℕ
    → ℕ
    → ℕ
    → List UserSession
    → List AuditLog
    → Option UserSession × List UserSession × List AuditLog
unfolding get_session
revoke_session_of session_id organization_id actor_user_id now sessions log =
    revoke_in session_id organization_id actor_user_id now sessions log
      (get_session session_id sessions)
