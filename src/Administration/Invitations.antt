-- ===== src/Administration/Invitations.antt =====
-- Invitations: `Invitation` of src/database/models.py, the operations of
-- src/database/administration_repository.py on them, and those of
-- src/services/administration_service.py that a token authorizes. `now` is the clock's reading.
pub mod Lifecycle
pub mod History
pub mod Acceptance
use ai_pmo_copilot.Common.{
  ℕ, ◌+◌, String, Option, none, some, Bool, true, false, not, ◌&&◌, ◌||◌, List, [], ◌∷◌, ◌++◌,
  Result, ok, err, ◌>>=◌, ◌==◌, leb, str_eq, is_none, any_of, select, find_first, keep_if, truncate,
  if◌then◌else◌,
}
use ai_pmo_copilot.Administration.Accounts.{User, AdministrationError, unknown_role}
use ai_pmo_copilot.Administration.Users.{
  Texts, Directory, normalize_email, create_user_in_session, with_role_of,
}

pub record Invitation : Type 0 where
  pub id : ℕ
  pub organization_id : ℕ
  pub email : String
  pub role_name : String
  pub invited_by_user_id : ℕ
  pub token_prefix : String
  pub hashed_token : String
  pub created_at : ℕ
  pub expires_at : ℕ
  pub accepted_at : Option ℕ
  pub cancelled_at : Option ℕ

-- what `status` answers
pub data Status : Type 0 where
  pending accepted expired cancelled : Status

unfoldable pub status : Invitation → ℕ → Status
status i now =
    if not (is_none i.cancelled_at)
    then cancelled
    else if not (is_none i.accepted_at)
    then accepted
    else if leb i.expires_at now
    then expired
    else pending

-- the tables that an invitation and its acceptance touch
pub record Onboarding : Type 0 where
  pub directory : Directory
  pub invitations : List Invitation
  pub next_invitation : ℕ

abbrev pub invitation_at : ℕ → List Invitation → Option Invitation
invitation_at invitation_id invitations =
    find_first (λ (i : Invitation). i.id == invitation_id) invitations

-- the commit of a change of the row
unfoldable pub update_invitation : ℕ → (Invitation → Invitation) → List Invitation → List Invitation
update_invitation invitation_id change [] = []
update_invitation invitation_id change (i ∷ is) =
    if i.id == invitation_id then change i ∷ is else i ∷ update_invitation invitation_id change is

abbrev pub is_terminal : Invitation → Bool
is_terminal i = not (is_none i.accepted_at) || not (is_none i.cancelled_at)

abbrev pub as_cancelled : ℕ → Invitation → Invitation
as_cancelled now i = record i { cancelled_at = some now }

abbrev pub cancel_found : ℕ → Onboarding → Option Invitation → Option Invitation × Onboarding
cancel_found now s none = (none, s)
cancel_found now s (some i) = if is_terminal i then (none, s) else (
  some (as_cancelled now i),
  record s { invitations = update_invitation i.id (as_cancelled now) s.invitations },
)

unfoldable pub cancel_invitation : ℕ → ℕ → ℕ → Onboarding → Option Invitation × Onboarding
cancel_invitation invitation_id organization_id now s = cancel_found now s (
    keep_if (λ (i : Invitation). i.organization_id == organization_id)
      (invitation_at invitation_id s.invitations))

unfoldable pub list_pending_invitations_by_prefix : String → List Invitation → List Invitation
list_pending_invitations_by_prefix token_prefix invitations =
    select
      (λ (i : Invitation).
        str_eq i.token_prefix token_prefix && is_none i.accepted_at && is_none i.cancelled_at)
      invitations

abbrev pub as_accepted : ℕ → Invitation → Invitation
as_accepted now i = record i { accepted_at = some now }

-- the rows that the acceptance commits together
abbrev pub with_acceptance :
    ℕ → Invitation → Onboarding → User × Directory → Option User × Onboarding
with_acceptance now i s (user, d) = (
  some user,
  record s { directory = d; invitations = update_invitation i.id (as_accepted now) s.invitations },
)

-- `catalog` is the names of the table of roles.
module _ (texts : Texts) (catalog : List String) where
  unfoldable pub create_invitation :
      ℕ
      → String
      → String
      → ℕ
      → String
      → String
      → ℕ
      → ℕ
      → Onboarding
      → Result AdministrationError (Invitation × Onboarding)
  create_invitation organization_id email role_name invited_by_user_id token_prefix hashed_token
        expires_at now s =
      if not (any_of (str_eq role_name) catalog)
      then err unknown_role
      else let invitation : Invitation = record {
        id = s.next_invitation;
        organization_id = organization_id;
        email = normalize_email texts email;
        role_name = role_name;
        invited_by_user_id = invited_by_user_id;
        token_prefix = token_prefix;
        hashed_token = hashed_token;
        created_at = now;
        expires_at = expires_at;
        accepted_at = none;
        cancelled_at = none;
      } in
        ok (
          invitation,
          record s {
            invitations = s.invitations ++ invitation ∷ [];
            next_invitation = s.next_invitation + 1;
          },
        )

  abbrev pub accept_found :
      String
      → String
      → ℕ
      → Onboarding
      → Option Invitation
      → Result AdministrationError (Option User × Onboarding)
  accept_found display_name password_hash now s none = ok (none, s)
  accept_found display_name password_hash now s (some i) =
      if is_terminal i || leb i.expires_at now
      then ok (none, s)
      else if not (any_of (str_eq i.role_name) catalog)
      then err unknown_role
      else do
        created ←
            create_user_in_session texts i.organization_id i.email display_name password_hash
              s.directory
        ok (with_acceptance now i s (with_role_of i.role_name created))

  unfoldable pub accept_invitation :
      ℕ → String → String → ℕ → Onboarding → Result AdministrationError (Option User × Onboarding)
  accept_invitation invitation_id display_name password_hash now s =
      accept_found display_name password_hash now s (invitation_at invitation_id s.invitations)
