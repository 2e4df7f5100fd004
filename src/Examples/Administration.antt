-- ===== src/Examples/Administration.antt =====
-- The last active administrator: src/database/administration_repository.py.
use ai_pmo_copilot.Common.{
  none, ℕ, String, ◌≡◌, refl, ◌≤◌, Bool, true, false, List, [], ◌∷◌, err, arith,
}
use ai_pmo_copilot.Administration.Accounts.{
  User, set_user_active, last_active_admin, get_user, active_admin_user_ids,
}
use ai_pmo_copilot.Administration.Accounts.LastAdmin.{admin_count}
use ai_pmo_copilot.Administration.Accounts.History.{
  Operation, activation, removal, assignment, requests, requests-keep_admin,
}

abbrev catalog : List String
catalog = "organization_admin" ∷ "viewer" ∷ []

abbrev member : ℕ → String → Bool → List String → User
member id email is_active roles = record {
  id = id;
  organization_id = 1;
  email = email;
  display_name = "PM";
  password_hash = none;
  identity_type = "standard";
  is_active = is_active;
  roles = roles;
}

abbrev users : List User
users =
    member 1 "ana@acme.example" true ("organization_admin" ∷ [])
    ∷ member 2 "rui@acme.example" true ("viewer" ∷ [])
    ∷ []

-- The only administrator cannot be deactivated by another user.
last_is_refused : set_user_active 1 1 false 2 users ≡ err last_active_admin
unfolding set_user_active get_user active_admin_user_ids
last_is_refused = refl

-- The administrator hands over and is deactivated, and the new one keeps the role.
abbrev handover : List Operation
handover =
    assignment 2 1 "organization_admin"
    ∷ activation 1 1 false 2
    ∷ removal 2 1 "organization_admin"
    ∷ []

requests-keep_admin_example : 1 ≤ admin_count 1 (requests catalog handover users)
requests-keep_admin_example = requests-keep_admin catalog 1 handover users (omega arith)
