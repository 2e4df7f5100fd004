-- ===== src/Administration/Accounts.antt =====
-- `set_user_active`, `remove_role` and `assign_role` of src/database/administration_repository.py.
-- The roles of a user are the set of the rows that `user_roles`, whose primary key is the user and the
-- role, holds of the user; a role is its unique name. An operation raises, or answers with the user and
-- the table of users after it.
pub mod LastAdmin
pub mod LastRole
pub mod History
use ai_pmo_copilot.Common.{
  ℕ, String, Bool, true, false, not, ◌&&◌, Option, none, some, List, [], ◌∷◌, ◌++◌, map, Result, ok,
  err, ◌==◌, leb, str_eq, if◌then◌else◌, select, any_of, length, find_first, keep_if,
}

pub record User : Type 0 where
  pub id : ℕ
  pub organization_id : ℕ
  pub email : String
  pub display_name : String
  pub password_hash : Option String
  pub identity_type : String
  pub is_active : Bool
  pub roles : List String

-- `SelfDeactivationError`, `LastActiveAdminError`, `ValueError` and `EmailConflictError`
pub data AdministrationError : Type 0 where
  self_deactivation last_active_admin unknown_role email_conflict : AdministrationError

abbrev pub admin_role_name : String
admin_role_name = "organization_admin"

-- what an operation answers: the user, and the table
abbrev pub Change : Type 0
Change = Result AdministrationError (Option User × List User)

abbrev pub has_role : String → User → Bool
has_role role user = any_of (str_eq role) user.roles

abbrev pub is_active_admin : ℕ → User → Bool
is_active_admin organization_id user =
    user.organization_id == organization_id && user.is_active && has_role admin_role_name user

-- `_lock_active_admin_user_ids`
unfoldable pub active_admin_user_ids : ℕ → List User → List ℕ
active_admin_user_ids organization_id users =
    map (λ (u : User). u.id) (select (is_active_admin organization_id) users)

abbrev pub user_at : ℕ → List User → Option User
user_at user_id users = find_first (λ (u : User). u.id == user_id) users

-- `.filter(User.id == ..., User.organization_id == ...).one_or_none()`, by primary key
unfoldable pub get_user : ℕ → ℕ → List User → Option User
get_user user_id organization_id users =
    keep_if (λ (u : User). u.organization_id == organization_id) (user_at user_id users)

-- the commit of a change of the row
unfoldable pub update_user_row : ℕ → (User → User) → List User → List User
update_user_row user_id change [] = []
update_user_row user_id change (u ∷ us) =
    if u.id == user_id then change u ∷ us else u ∷ update_user_row user_id change us

abbrev pub set_active : Bool → User → User
set_active is_active user = record user { is_active = is_active }

abbrev pub set_active_on : ℕ → ℕ → Bool → List User → Option User → Change
set_active_on user_id organization_id is_active users none = ok (none, users)
set_active_on user_id organization_id is_active users (some user) =
    if not is_active
      && user.is_active
      && has_role admin_role_name user
      && leb (length (active_admin_user_ids organization_id users)) 1
    then err last_active_admin
    else ok (some (set_active is_active user), update_user_row user_id (set_active is_active) users)

unfoldable pub set_user_active : ℕ → ℕ → Bool → ℕ → List User → Change
unfolding get_user active_admin_user_ids update_user_row
set_user_active user_id organization_id is_active actor_user_id users =
    if not is_active && user_id == actor_user_id
    then err self_deactivation
    else set_active_on user_id organization_id is_active users
        (get_user user_id organization_id users)

-- `session.delete(user_role)`
abbrev pub without_role : String → User → User
without_role role user = record user { roles = select (λ r. not (str_eq role r)) user.roles }

abbrev pub remove_role_on : List String → ℕ → ℕ → String → List User → Option User → Change
remove_role_on catalog user_id organization_id role users none = ok (none, users)
remove_role_on catalog user_id organization_id role users (some user) =
    if not (any_of (str_eq role) catalog)
    then err unknown_role
    else if str_eq role admin_role_name
        && user.is_active
        && leb (length (active_admin_user_ids organization_id users)) 1
        && any_of (λ id. id == user_id) (active_admin_user_ids organization_id users)
    then err last_active_admin
    else ok (some (without_role role user), update_user_row user_id (without_role role) users)

-- `catalog` is the names of the table of roles.
unfoldable pub remove_role : List String → ℕ → ℕ → String → List User → Change
unfolding get_user active_admin_user_ids update_user_row
remove_role catalog user_id organization_id role users =
    remove_role_on catalog user_id organization_id role users
      (get_user user_id organization_id users)

-- `session.add(UserRole(...))`, unless the user has the role
abbrev pub with_role : String → User → User
with_role role user =
    if has_role role user then user else record user { roles = user.roles ++ role ∷ [] }

abbrev pub assign_role_on : List String → ℕ → String → List User → Option User → Change
assign_role_on catalog user_id role users none = ok (none, users)
assign_role_on catalog user_id role users (some user) =
    if not (any_of (str_eq role) catalog)
    then err unknown_role
    else ok (some (with_role role user), update_user_row user_id (with_role role) users)

unfoldable pub assign_role : List String → ℕ → ℕ → String → List User → Change
unfolding get_user update_user_row
assign_role catalog user_id organization_id role users =
    assign_role_on catalog user_id role users (get_user user_id organization_id users)
