-- ===== src/Identity/Authentication.antt =====
-- `authenticate` of src/services/identity/auth_service.py.
use ai_pmo_copilot.Common.{
  ℕ, String, Option, none, some, Bool, not, ◌&&◌, List, ◌==◌, str_eq, find_first, if◌then◌else◌,
}
use ai_pmo_copilot.Domain.Tables.{Organization}
use ai_pmo_copilot.Administration.Accounts.{User, update_user_row}
use ai_pmo_copilot.Administration.Users.{Texts, normalize_email}

-- the credential verifier, Argon2 in the service
pub record Credentials : Type 0 where
  pub hash : String → String
  pub verify : String → String → Bool
  pub needs_rehash : String → Bool

pub record AuthenticatedUser : Type 0 where
  pub user_id : ℕ
  pub email : String
  pub display_name : String
  pub identity_type : String

pub record OrganizationIdentity : Type 0 where
  pub organization_id : ℕ
  pub name : String
  pub slug : String

abbrev pub Identified : Type 0
Identified = AuthenticatedUser × OrganizationIdentity

-- `.filter(Organization.slug == slug).one_or_none()`; the slug is unique
unfoldable pub get_organization_by_slug : String → List Organization → Option Organization
get_organization_by_slug slug organizations =
    find_first (λ (o : Organization). str_eq o.slug slug) organizations

-- `one_or_none` again; the email is unique in an organization
unfoldable pub get_user_by_email : ℕ → String → List User → Option User
get_user_by_email organization_id email users =
    find_first (λ (u : User). u.organization_id == organization_id && str_eq u.email email) users

abbrev pub identified : Organization → User → Identified
identified organization user = (
  record {
    user_id = user.id;
    email = user.email;
    display_name = user.display_name;
    identity_type = user.identity_type;
  },
  record { organization_id = organization.id; name = organization.name; slug = organization.slug },
)

module _ (credentials : Credentials) (password : String) where
  abbrev pub rehashed : String → User → List User → List User
  rehashed password_hash user users =
      if credentials.needs_rehash password_hash
      then update_user_row user.id
          (λ (u : User). record u { password_hash = some (credentials.hash password) }) users
      else users

  abbrev pub authenticate_hash :
      Organization → User → List User → Option String → Option Identified × List User
  authenticate_hash organization user users none = (none, users)
  authenticate_hash organization user users (some password_hash) =
      if not user.is_active
      then (none, users)
      else if not (credentials.verify password password_hash)
      then (none, users)
      else (some (identified organization user), rehashed password_hash user users)

  abbrev pub authenticate_user :
      Organization → List User → Option User → Option Identified × List User
  authenticate_user organization users none = (none, users)
  authenticate_user organization users (some user) =
      authenticate_hash organization user users user.password_hash

  abbrev pub authenticate_in :
      Texts → String → List User → Option Organization → Option Identified × List User
  authenticate_in texts email users none = (none, users)
  authenticate_in texts email users (some organization) =
      authenticate_user organization users
        (get_user_by_email organization.id (normalize_email texts email) users)

  unfoldable pub authenticate :
      Texts → String → String → List Organization → List User → Option Identified × List User
  unfolding get_user_by_email get_organization_by_slug update_user_row
  authenticate texts organization_slug email organizations users =
      authenticate_in texts email users (get_organization_by_slug organization_slug organizations)
