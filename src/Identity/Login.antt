-- ===== src/Identity/Login.antt =====
-- `login` of src/api/routes/auth.py, with `create_session` of src/services/identity/auth_service.py.
-- The answer is the response, or the status of the HTTP error.
pub mod Entitlement
pub mod Outcome
use ai_pmo_copilot.Common.{ℕ, String, str_append, Option, none, some, List, Result, ok, err}
use ai_pmo_copilot.Domain.Tables.{Organization}
use ai_pmo_copilot.Administration.Accounts.{User}
use ai_pmo_copilot.Administration.Users.{Texts, normalize_email}
use ai_pmo_copilot.Access.LoginGuard.{
  Policy, Guard, LoginLocked, check, record_failure, record_success,
}
use ai_pmo_copilot.Identity.Sessions.{UserSession, SessionError, create_session}
use ai_pmo_copilot.Identity.Authentication.{Credentials, Identified, authenticate}

pub record LoginRequest : Type 0 where
  pub organization : String
  pub email : String
  pub password : String

pub record LoginResponse : Type 0 where
  pub user_id : ℕ
  pub organization_id : ℕ
  pub session_id : String

-- 429, 401, and 500 on an id of a session that is there
pub data LoginError : Type 0 where
  too_many_attempts unauthorized server_error : LoginError

-- What a login reads and writes.
pub record Realm : Type 0 where
  pub guard : Guard
  pub organizations : List Organization
  pub users : List User
  pub sessions : List UserSession

abbrev pub Answer : Type 0
Answer = Result LoginError LoginResponse × Realm

module _ (texts : Texts) where
  abbrev pub login_identity_key : String → String → String
  login_identity_key organization email =
      str_append (texts.lower (texts.strip organization))
        (str_append ":" (normalize_email texts email))

-- the new session, under the id that the server mints
abbrev pub with_session :
    Identified → String → Realm → Result SessionError (List UserSession) → Answer
with_session (user, organization) session_id s (err e) = (err server_error, s)
with_session (user, organization) session_id s (ok sessions) = (
  ok (record {
    user_id = user.user_id;
    organization_id = organization.organization_id;
    session_id = session_id;
  }),
  record s { sessions = sessions },
)

module _ (policy : Policy) where
  abbrev pub after_authenticate :
      String → String → ℕ → Realm → Option Identified × List User → Answer
  after_authenticate identity_key session_id now s (none, users) = (
    err unauthorized,
    record s { guard = record_failure policy now identity_key s.guard; users = users },
  )
  after_authenticate identity_key session_id now s (some (user, organization), users) =
      with_session (user, organization) session_id
        (record s { guard = record_success identity_key s.guard; users = users })
        (create_session session_id user.user_id organization.organization_id now s.sessions)

module _ (texts : Texts) (credentials : Credentials) (policy : Policy) where
  abbrev pub after_check :
      LoginRequest → String → String → ℕ → Realm → Result LoginLocked Guard → Answer
  after_check request identity_key session_id now s (err locked) = (err too_many_attempts, s)
  after_check request identity_key session_id now s (ok guard) =
      after_authenticate policy identity_key session_id now (record s { guard = guard })
        (authenticate credentials request.password texts request.organization request.email
          s.organizations s.users)

  unfoldable pub login : LoginRequest → String → ℕ → Realm → Answer
  unfolding check authenticate
  login request session_id now s =
      after_check request (login_identity_key texts request.organization request.email) session_id
        now s (check now (login_identity_key texts request.organization request.email) s.guard)
