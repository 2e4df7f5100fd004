-- ===== src/Examples/Invitations.antt =====
-- An invitation on its way: src/database/administration_repository.py.
use ai_pmo_copilot.Common.{true, ℕ, ◌≡◌, refl, String, some, none, List, [], ◌∷◌, arith}
use ai_pmo_copilot.Administration.Accounts.{User}
use ai_pmo_copilot.Administration.Users.{Texts}
use ai_pmo_copilot.Administration.Invitations.{Invitation, status, Onboarding, invitation_at}
use ai_pmo_copilot.Administration.Invitations.Lifecycle.{Reaches}
use ai_pmo_copilot.Administration.Invitations.History.{
  Operation, cancellation, acceptance, performs, HasTermsOf, performs-Reaches,
}
use ai_pmo_copilot.Administration.Invitations.Acceptance.{IsOutcome, accept_invitation-outcome}

abbrev plain : Texts
plain = record { strip = λ t. t; lower = λ t. t; index_lower = λ t. t }

abbrev catalog : List String
catalog = "organization_admin" ∷ "viewer" ∷ []

abbrev invited : Invitation
invited = record {
  id = 4;
  organization_id = 1;
  email = "rui@acme.example";
  role_name = "viewer";
  invited_by_user_id = 1;
  token_prefix = "inv_abcdefgh";
  hashed_token = "argon2";
  created_at = 10;
  expires_at = 80;
  accepted_at = none;
  cancelled_at = none;
}

abbrev one_user : User
one_user = record {
  id = 1;
  organization_id = 1;
  email = "ana@acme.example";
  display_name = "Ana";
  password_hash = none;
  identity_type = "standard";
  is_active = true;
  roles = "organization_admin" ∷ [];
}

abbrev waiting : Onboarding
waiting = record {
  directory = record { users = one_user ∷ []; next_user = 2 };
  invitations = invited ∷ [];
  next_invitation = 5;
}

-- It expires, is cancelled after that, and cannot be accepted any more.
abbrev late : List (ℕ × Operation)
late = (90, cancellation 4 1) ∷ (95, acceptance 4 "Rui" "hash") ∷ []

performs-Reaches_example :
    (j : Invitation) × (invitation_at 4 (performs plain catalog late waiting).invitations ≡ some j)
    × HasTermsOf invited j
    × Reaches (status invited 20) (status j 100)
performs-Reaches_example =
    performs-Reaches plain catalog late 20 100 waiting invited refl
      (omega arith, (omega arith, omega arith))

accept_invitation-outcome_example : IsOutcome plain catalog 4 "Rui" "hash" 20 waiting invited
accept_invitation-outcome_example =
    accept_invitation-outcome plain catalog 4 "Rui" "hash" 20 waiting invited refl (omega arith, tt)
