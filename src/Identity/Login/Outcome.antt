-- ===== src/Identity/Login/Outcome.antt =====
-- What a login comes to.
use ai_pmo_copilot.Common.{
  ℕ, ◌+◌, ◌≤◌, ◌≡◌, refl, sym, ap, ◌∙◌, String, Option, none, some, true, false, ◌&&◌, List, [],
  ◌∷◌, ◌++◌, Result, ok, err, ◌==◌, ==_iff, str_eq, find_first-IsElem, inl, inr, ◌⊎◌, arith, ltb,
  leb, length,
}
use ai_pmo_copilot.Domain.Tables.{Organization}
use ai_pmo_copilot.Administration.Accounts.{User}
use ai_pmo_copilot.Administration.Users.{Texts, normalize_email}
use ai_pmo_copilot.Access.LoginGuard.{
  Policy, Guard, LoginLocked, login_locked, check, record_failure, record_success,
}
use ai_pmo_copilot.Access.LoginGuard.Lockout.{
  is_locked_out, fail_at, IsBurst, last_of, check-fail_at,
}
use ai_pmo_copilot.Identity.Sessions.{get_session, new_session, create_session}
use ai_pmo_copilot.Identity.Authentication.{Credentials, Identified, get_user_by_email}
use ai_pmo_copilot.Identity.Login.Entitlement.{
  IsEntitled, NoneEntitled, IsAuthentication, entitled_user, authenticate-IsAuthentication,
}
use ai_pmo_copilot.Identity.Login.{
  LoginRequest, LoginResponse, LoginError, too_many_attempts, unauthorized, Realm,
  login_identity_key, after_authenticate, after_check, login,
}

module _ (texts : Texts) (credentials : Credentials) (policy : Policy) (request : LoginRequest)
    (session_id : String) (now : ℕ) (s : Realm) where
  abbrev pub key : String
  key = login_identity_key texts request.organization request.email

  abbrev pub IsLocked : Result LoginError LoginResponse × Realm → Type 0
  IsLocked result =
      (is_locked_out (check now key s.guard) ≡ true) × (result ≡ (err too_many_attempts, s))

  abbrev pub IsRefused : Result LoginError LoginResponse × Realm → Type 0
  IsRefused result =
      (guard : Guard) × (check now key s.guard ≡ ok guard)
      × NoneEntitled texts credentials s request
      × (result ≡ (err unauthorized, record s { guard = record_failure policy now key guard }))

  abbrev pub IsLoggedIn : Result LoginError LoginResponse × Realm → Type 0
  IsLoggedIn result =
      (guard : Guard) × (organization : Organization) × (user : User) × (t : Realm) × (check now key
          s.guard
        ≡ ok guard)
      × IsEntitled texts credentials s request organization user
      × (user.organization_id ≡ organization.id)
      × (result ≡ (
        ok (record {
          user_id = user.id;
          organization_id = organization.id;
          session_id = session_id;
        }),
        t,
      ))
      × (t.guard ≡ record_success key guard)
      × (t.sessions ≡ s.sessions ++ new_session session_id user.id organization.id now ∷ [])

  user_of_organization :
      (organization : Organization) (user : User)
      → get_user_by_email organization.id (normalize_email texts request.email) s.users ≡ some user
      → user.organization_id ≡ organization.id
  unfolding get_user_by_email
  user_of_organization organization user h =
      let found =
        find_first-IsElem
          (λ (u : User).
            u.organization_id == organization.id
            && str_eq u.email (normalize_email texts request.email))
          s.users user h in
      let its : (user.organization_id == organization.id) ≡ true = ground (arith, found.1) in
      (==_iff user.organization_id organization.id).0 its

  authenticated-outcome :
      (guard : Guard) (result : Option Identified × List User)
      → check now key s.guard ≡ ok guard
      → get_session session_id s.sessions ≡ none
      → IsAuthentication texts credentials s request result
      → IsRefused (after_authenticate policy key session_id now (record s { guard = guard }) result)
        ⊎ IsLoggedIn
            (after_authenticate policy key session_id now (record s { guard = guard }) result)
  unfolding create_session
  authenticated-outcome guard result checked unused (inl (absent, e)) =
      rw e (inl (guard, checked, absent, refl))
  authenticated-outcome guard result checked unused (inr (organization, user, users, entitled, e)) =
      rw e (
        rw unused (
          inr (
            guard,
            organization,
            user,
            _,
            checked,
            entitled,
            user_of_organization organization user entitled.1,
            refl,
            refl,
            refl,
          )))

-- For an id of a session that is not there yet: a login of a locked identity answers 429 and changes
-- nothing; else, where the password is not that of an active user with the email in the organization,
-- it answers 401, whatever the reason, and one failure is recorded; else it answers with that user and
-- organization, a new session of theirs is added, and the failures are forgotten.
pub login-outcome :
    (texts : Texts) (credentials : Credentials) (policy : Policy) (request : LoginRequest)
    (session_id : String) (now : ℕ) (s : Realm)
    → get_session session_id s.sessions ≡ none
    → IsLocked texts credentials policy request session_id now s
        (login texts credentials policy request session_id now s)
      ⊎ IsRefused texts credentials policy request session_id now s
          (login texts credentials policy request session_id now s)
      ⊎ IsLoggedIn texts credentials policy request session_id now s
          (login texts credentials policy request session_id now s)
unfolding login
login-outcome texts credentials policy request session_id now s unused =
    go (check now (login_identity_key texts request.organization request.email) s.guard) refl
  where
    go :
        (checked : Result LoginLocked Guard)
        → check now (login_identity_key texts request.organization request.email) s.guard ≡ checked
        → IsLocked texts credentials policy request session_id now s (
            after_check texts credentials policy request
              (login_identity_key texts request.organization request.email)
              session_id
              now
              s
              checked)
          ⊎ IsRefused texts credentials policy request session_id now s (
              after_check texts credentials policy request
                (login_identity_key texts request.organization request.email)
                session_id
                now
                s
                checked)
          ⊎ IsLoggedIn texts credentials policy request session_id now s (
              after_check texts credentials policy request
                (login_identity_key texts request.organization request.email)
                session_id
                now
                s
                checked)
    go (err login_locked) e = inl (ap is_locked_out e, refl)
    go (ok guard) e = inr (
        authenticated-outcome texts credentials policy request session_id now s guard _ e unused
          (authenticate-IsAuthentication texts credentials s request))

abbrev response : ℕ → ℕ → String → LoginResponse
response user_id organization_id session_id = record {
  user_id = user_id;
  organization_id = organization_id;
  session_id = session_id;
}

-- For a policy of at least one attempt: let the attempts of an identity have failed at `times` after
-- its last success, the clock not going back and all of them less than the window after `first`. A login
-- of an active user with the right password, from the end of the lockout after the last failure on and
-- with the id of no session that there is, answers with that user and organization.
pub login-after_lockout :
    (texts : Texts) (credentials : Credentials) (policy : Policy) (request : LoginRequest)
    (session_id : String) (first now : ℕ) (times : List ℕ) (guard : Guard) (s : Realm)
    (organization : Organization) (user : User)
    → 1 ≤ policy.max_attempts
    → IsBurst policy.window first first times
    → s.guard
      ≡ fail_at policy
          (login_identity_key texts request.organization request.email)
          times
          (record_success (login_identity_key texts request.organization request.email) guard)
    → last_of first times + policy.lockout ≤ now
    → get_session session_id s.sessions ≡ none
    → IsEntitled texts credentials s request organization user
    → (login texts credentials policy request session_id now s).0
      ≡ ok
          (record { user_id = user.id; organization_id = organization.id; session_id = session_id })
login-after_lockout texts credentials policy request session_id first now times guard s organization
      user positive burst failed over unused entitled =
    elim (login-outcome texts credentials policy request session_id now s unused) [
      | inl (locked, _) ↦
          let k = login_identity_key texts request.organization request.email in
          let open_again = check-fail_at policy k first now times guard positive burst in
          let past : ltb now (last_of first times + policy.lockout) ≡ false = ground arith in
          let bad : (leb policy.max_attempts (length times) && false) ≡ true =
            ap (λ b. leb policy.max_attempts (length times) && b) (sym past)
            ∙ sym open_again
            ∙ ap (λ g. is_locked_out (check now k g)) (sym failed)
            ∙ locked in
          ground arith
      | inr (inl (_, _, absent, _)) ↦ elim (absent organization user entitled) [ ]
      | inr (inr (_, o, u, t, _, its, _, answered, _, _)) ↦
          let both : some organization ≡ some o = sym entitled.0 ∙ its.0 in
          let one : organization ≡ o = cc in
          let same =
            entitled_user texts credentials s request organization o user u entitled.0 entitled.1
              its in
          ap (λ (r : Result LoginError LoginResponse × Realm). r.0) answered
          ∙ ap (λ (x : User). ok (response x.id o.id session_id)) (sym same)
          ∙ ap (λ (x : Organization). ok (response user.id x.id session_id)) (sym one)
    ]
