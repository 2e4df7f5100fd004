-- ===== src/Administration/Users.antt =====
-- `create_user` and `update_user` of src/database/administration_repository.py, with
-- `create_user_in_session` of src/database/enterprise_repository.py and `normalize_email` of
-- src/services/identity/email_normalization.py.
use ai_pmo_copilot.Common.{
  ℕ, ◌+◌, String, Option, none, some, Bool, true, not, ◌&&◌, List, [], ◌∷◌, ◌++◌, Result, ok, err,
  ◌>>=◌, ◌==◌, str_eq, any_of, if◌then◌else◌,
}
use ai_pmo_copilot.Administration.Accounts.{
  User, AdministrationError, unknown_role, email_conflict, get_user, update_user_row, with_role,
}

-- Python's `strip` and `lower`, and the `lower` of the database's index on emails.
pub record Texts : Type 0 where
  pub strip : String → String
  pub lower : String → String
  pub index_lower : String → String

abbrev pub normalize_email : Texts → String → String
normalize_email texts email = texts.lower (texts.strip email)

-- the table of users and the sequence of its primary key
pub record Directory : Type 0 where
  pub users : List User
  pub next_user : ℕ

-- two rows that uq_users_org_email_lower does not admit together
abbrev pub is_same_email : Texts → ℕ → String → User → Bool
is_same_email texts organization_id email user =
    user.organization_id == organization_id
    && str_eq (texts.index_lower user.email) (texts.index_lower email)

abbrev pub new_user : Directory → ℕ → String → String → String → User
new_user d organization_id email display_name password_hash = record {
  id = d.next_user;
  organization_id = organization_id;
  email = email;
  display_name = display_name;
  password_hash = some password_hash;
  identity_type = "standard";
  is_active = true;
  roles = [];
}

-- `assign_role_in_session` of a role of the catalog
abbrev pub with_role_of : String → User × Directory → User × Directory
with_role_of role (user, d) =
    (with_role role user, record d { users = update_user_row user.id (with_role role) d.users })

module _ (texts : Texts) where
  -- the flush raises what the callers turn into `EmailConflictError`
  unfoldable pub create_user_in_session :
      ℕ → String → String → String → Directory → Result AdministrationError (User × Directory)
  create_user_in_session organization_id email display_name password_hash d =
      if any_of (is_same_email texts organization_id email) d.users
      then err email_conflict
      else ok (
        new_user d organization_id email display_name password_hash,
        record {
          users = d.users ++ new_user d organization_id email display_name password_hash ∷ [];
          next_user = d.next_user + 1;
        },
      )

  unfoldable pub create_user :
      List String
      → ℕ
      → String
      → String
      → String
      → String
      → Directory
      → Result AdministrationError (User × Directory)
  create_user catalog organization_id email display_name password_hash role_name d =
      if not (any_of (str_eq role_name) catalog) then err unknown_role else do
        created ←
            create_user_in_session organization_id (normalize_email texts email) display_name
              password_hash d
        ok (with_role_of role_name created)

  abbrev pub with_fields : Option String → Option String → User → User
  with_fields none none user = user
  with_fields none (some display_name) user = record user { display_name = display_name }
  with_fields (some email) none user = record user { email = normalize_email texts email }
  with_fields (some email) (some display_name) user = record user {
    email = normalize_email texts email;
    display_name = display_name;
  }

  -- the email and the name of a row, for the audit
  abbrev pub state_of : User → String × String
  state_of user = (user.email, user.display_name)

  -- the commit, which the other rows of the table may refuse
  abbrev pub update_user_on :
      Option String
      → Option String
      → Directory
      → Option User
      → Result AdministrationError
          (Option (User × (String × String) × (String × String)) × Directory)
  update_user_on email display_name d none = ok (none, d)
  update_user_on email display_name d (some user) =
      let changed = with_fields email display_name user in
      if any_of
        (λ (u : User).
          not (u.id == user.id) && is_same_email texts changed.organization_id changed.email u)
        d.users
      then err email_conflict
      else ok (
        some (changed, state_of user, state_of changed),
        record d { users = update_user_row user.id (with_fields email display_name) d.users },
      )

  unfoldable pub update_user :
      ℕ
      → ℕ
      → Option String
      → Option String
      → Directory
      → Result AdministrationError
          (Option (User × (String × String) × (String × String)) × Directory)
  update_user user_id organization_id email display_name d =
      update_user_on email display_name d (get_user user_id organization_id d.users)
