-- ===== src/Examples/Identity.antt =====
-- Logins and sessions: src/api/routes/auth.py and src/services/identity/auth_service.py.
use ai_pmo_copilot.Common.{
  ℕ, ◌≡◌, refl, String, some, none, true, false, List, [], ◌∷◌, ok, str_eq, arith, ◌⊎◌,
}
use ai_pmo_copilot.Domain.Tables.{Organization}
use ai_pmo_copilot.Administration.Accounts.{User}
use ai_pmo_copilot.Administration.Users.{Texts}
use ai_pmo_copilot.Access.LoginGuard.{Policy, new_guard, record_success}
use ai_pmo_copilot.Access.LoginGuard.Lockout.{fail_at}
use ai_pmo_copilot.Identity.Sessions.{
  UserSession, new_session, get_session, is_session_revoked, logout,
}
use ai_pmo_copilot.Identity.Sessions.Revocation.{
  Operation, creation, touch, revocation, performs, logout-final,
}
use ai_pmo_copilot.Identity.Authentication.{
  Credentials, get_organization_by_slug, get_user_by_email,
}
use ai_pmo_copilot.Identity.Login.{LoginRequest, Realm, login, login_identity_key}
use ai_pmo_copilot.Identity.Login.Outcome.{
  IsLocked, IsRefused, IsLoggedIn, login-outcome, login-after_lockout,
}

abbrev active_session : UserSession
active_session = new_session "3f2a" 1 1 10

abbrev afterwards : List Operation
afterwards = touch "3f2a" 30 ∷ creation "3f2a" 1 1 40 ∷ revocation "3f2a" 50 ∷ []

session_found : get_session "3f2a" (active_session ∷ []) ≡ some active_session
unfolding get_session
session_found = refl

logout-final_example :
    is_session_revoked "3f2a" (performs afterwards (logout "3f2a" 20 (active_session ∷ []))) ≡ true
logout-final_example =
    logout-final "3f2a" 20 (active_session ∷ []) active_session afterwards session_found

abbrev plain : Texts
plain = record { strip = λ t. t; lower = λ t. t; index_lower = λ t. t }

-- a hash that shows its password
abbrev clear : Credentials
clear = record { hash = λ p. p; verify = str_eq; needs_rehash = λ h. false }

abbrev ana : User
ana = record {
  id = 1;
  organization_id = 1;
  email = "ana@acme.example";
  display_name = "Ana";
  password_hash = some "secret";
  identity_type = "standard";
  is_active = true;
  roles = [];
}

abbrev acme : Organization
acme = record { id = 1; name = "Acme"; slug = "acme" }

abbrev policy : Policy
policy = record { max_attempts = 3; window = 900; lockout = 600 }

abbrev request : LoginRequest
request = record { organization = "acme"; email = "ana@acme.example"; password = "secret" }

abbrev key : String
key = login_identity_key plain "acme" "ana@acme.example"

abbrev three_failures : List ℕ
three_failures = 1 ∷ 5 ∷ 9 ∷ []

abbrev locked : Realm
locked = record {
  guard = fail_at policy key three_failures (record_success key new_guard);
  organizations = acme ∷ [];
  users = ana ∷ [];
  sessions = [];
}

no_session : get_session "3f2a" [] ≡ none
unfolding get_session
no_session = refl

login-outcome_example :
    IsLocked plain clear policy request "3f2a" 100 locked
      (login plain clear policy request "3f2a" 100 locked)
    ⊎ IsRefused plain clear policy request "3f2a" 100 locked
        (login plain clear policy request "3f2a" 100 locked)
    ⊎ IsLoggedIn plain clear policy request "3f2a" 100 locked
        (login plain clear policy request "3f2a" 100 locked)
login-outcome_example = login-outcome plain clear policy request "3f2a" 100 locked no_session

acme_found : get_organization_by_slug "acme" (acme ∷ []) ≡ some acme
unfolding get_organization_by_slug
acme_found = refl

ana_found : get_user_by_email 1 "ana@acme.example" (ana ∷ []) ≡ some ana
unfolding get_user_by_email
ana_found = refl

login-after_lockout_example :
    (login plain clear policy request "3f2a" 609 locked).0
    ≡ ok (record { user_id = 1; organization_id = 1; session_id = "3f2a" })
login-after_lockout_example =
    login-after_lockout plain clear policy request "3f2a" 1 609 three_failures new_guard locked acme
      ana (omega arith) (omega arith, (omega arith, (omega arith, omega arith))) refl (omega arith)
      no_session (acme_found, ana_found, refl, ("secret", refl, refl))
