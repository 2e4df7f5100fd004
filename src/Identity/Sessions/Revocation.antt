-- ===== src/Identity/Sessions/Revocation.antt =====
-- A revoked session stays revoked.
use ai_pmo_copilot.Common.{
  ℕ, ◌≡◌, refl, ap, ◌∙◌, String, Option, none, some, true, false, not, List, [], ◌∷◌, ◌++◌, Result,
  ok, err, str_eq, is_none, find_first, find_first-append, inl, inr, Bool-cases, Option-cases,
}
use ai_pmo_copilot.Identity.Sessions.{
  UserSession, SessionError, get_session, update_session, create_session, as_revoked, revoke_found,
  revoke_session, logout, revoked_row, is_session_revoked, touch_session_last_seen,
}

-- a change of a row that keeps its id and does not take its revocation back
abbrev Keeps : (UserSession → UserSession) → Type 0
Keeps change =
    (u : UserSession)
    → ((change u).id ≡ u.id)
      × (not (is_none u.revoked_at) ≡ true → not (is_none (change u).revoked_at) ≡ true)

update_session-revoked :
    (session_id changed : String) (change : UserSession → UserSession) (sessions : List UserSession)
    → Keeps change
    → is_session_revoked session_id sessions ≡ true
    → is_session_revoked session_id (update_session changed change sessions) ≡ true
unfolding is_session_revoked get_session update_session
update_session-revoked session_id changed change [] keeps h = h
update_session-revoked session_id changed change (u ∷ us) keeps h =
    let key : (change u).id ≡ u.id = (keeps u).0 in
    elim (Bool-cases (str_eq u.id changed)) [
      | inl its ↦ elim (Bool-cases (str_eq u.id session_id)) [
        | inl here ↦
            let revoked : not (is_none u.revoked_at) ≡ true = rw here at h in
            let there : str_eq (change u).id session_id ≡ true = rw key here in
            rw its (rw there ((keeps u).1 revoked))
        | inr other ↦
            let later : revoked_row (get_session session_id us) ≡ true = rw other at h in
            let there : str_eq (change u).id session_id ≡ false = rw key other in
            rw its (rw there later)
      ]
      | inr kept ↦ elim (Bool-cases (str_eq u.id session_id)) [
        | inl here ↦ rw kept (rw here (rw here at h))
        | inr other ↦
            let later : is_session_revoked session_id us ≡ true = rw other at h in
            rw kept (rw other (update_session-revoked session_id changed change us keeps later))
      ]
    ]

-- the row itself
update_session-as_revoked :
    (session_id : String) (now : ℕ) (sessions : List UserSession) (u : UserSession)
    → get_session session_id sessions ≡ some u
    → is_session_revoked session_id (update_session session_id (as_revoked now) sessions) ≡ true
unfolding is_session_revoked get_session update_session
update_session-as_revoked session_id now [] u h = cc
update_session-as_revoked session_id now (v ∷ vs) u h = elim (Bool-cases (str_eq v.id session_id)) [
  | inl here ↦ rw here (rw here refl)
  | inr other ↦
      let later : get_session session_id vs ≡ some u = rw other at h in
      rw other (rw other (update_session-as_revoked session_id now vs u later))
]

-- A call on the sessions, with the clock's reading.
pub data Operation : Type 0 where
  creation : String → ℕ → ℕ → ℕ → Operation
  revocation : String → ℕ → Operation
  touch : String → ℕ → Operation

abbrev pub created_or : List UserSession → Result SessionError (List UserSession) → List UserSession
created_or sessions (ok created) = created
created_or sessions (err e) = sessions

abbrev pub perform : Operation → List UserSession → List UserSession
perform (creation session_id user_id organization_id now) sessions =
    created_or sessions (create_session session_id user_id organization_id now sessions)
perform (revocation session_id now) sessions = logout session_id now sessions
perform (touch session_id now) sessions = touch_session_last_seen session_id now sessions

abbrev pub performs : List Operation → List UserSession → List UserSession
performs [] sessions = sessions
performs (operation ∷ later) sessions = performs later (perform operation sessions)

is_session_revoked-append :
    (session_id : String) (us vs : List UserSession)
    → is_session_revoked session_id us ≡ true
    → is_session_revoked session_id (us ++ vs) ≡ true
unfolding is_session_revoked get_session
is_session_revoked-append session_id us vs h =
    let p = λ (u : UserSession). str_eq u.id session_id in
    elim (Option-cases (find_first p us)) [
      | inl missing ↦ let no : false ≡ true = rw missing at h in cc
      | inr (u, at_u) ↦
          let revoked : revoked_row (some u) ≡ true = rw at_u at h in
          ap revoked_row (find_first-append p us vs u at_u) ∙ revoked
    ]

is_session_revoked-of :
    (session_id : String) (sessions : List UserSession) (u : UserSession)
    → get_session session_id sessions ≡ some u
    → is_session_revoked session_id sessions ≡ not (is_none u.revoked_at)
unfolding is_session_revoked
is_session_revoked-of session_id sessions u h = ap revoked_row h

create_session-revoked :
    (session_id other : String) (user_id organization_id now : ℕ) (sessions : List UserSession)
    → is_session_revoked session_id sessions ≡ true
    → is_session_revoked session_id
        (created_or sessions (create_session other user_id organization_id now sessions))
      ≡ true
unfolding create_session
create_session-revoked session_id other user_id organization_id now sessions h =
    elim (Bool-cases (is_none (get_session other sessions))) [
      | inl free ↦ rw free (is_session_revoked-append session_id sessions _ h)
      | inr taken ↦ rw taken h
    ]

logout-revoked :
    (session_id other : String) (now : ℕ) (sessions : List UserSession)
    → is_session_revoked session_id sessions ≡ true
    → is_session_revoked session_id (logout other now sessions) ≡ true
unfolding revoke_session
logout-revoked session_id other now sessions h = go (get_session other sessions)
  where
    go :
        (found : Option UserSession)
        → is_session_revoked session_id (revoke_found other now sessions found).1 ≡ true
    go none = h
    go (some u) = elim (Bool-cases (not (is_none u.revoked_at))) [
      | inl over ↦ rw over h
      | inr active ↦ rw active (
          update_session-revoked session_id other (as_revoked now) sessions (λ v. (refl, λ _. refl))
            h)
    ]

logout-own :
    (session_id : String) (now : ℕ) (sessions : List UserSession) (u : UserSession)
    → get_session session_id sessions ≡ some u
    → is_session_revoked session_id (logout session_id now sessions) ≡ true
unfolding revoke_session
logout-own session_id now sessions u h =
    ap (λ f. is_session_revoked session_id (revoke_found session_id now sessions f).1) h ∙ found
  where
    found : is_session_revoked session_id (revoke_found session_id now sessions (some u)).1 ≡ true
    found = elim (Bool-cases (not (is_none u.revoked_at))) [
      | inl over ↦ rw over (is_session_revoked-of session_id sessions u h ∙ over)
      | inr active ↦ rw active (update_session-as_revoked session_id now sessions u h)
    ]

perform-revoked :
    (operation : Operation) (session_id : String) (sessions : List UserSession)
    → is_session_revoked session_id sessions ≡ true
    → is_session_revoked session_id (perform operation sessions) ≡ true
unfolding touch_session_last_seen
perform-revoked (creation other user_id organization_id now) session_id sessions h =
    create_session-revoked session_id other user_id organization_id now sessions h
perform-revoked (revocation other now) session_id sessions h =
    logout-revoked session_id other now sessions h
perform-revoked (touch other now) session_id sessions h =
    update_session-revoked session_id other
      (λ (u : UserSession). record u { last_seen_at = some now }) sessions (λ v. (refl, λ r. r)) h

performs-revoked :
    (later : List Operation) (session_id : String) (sessions : List UserSession)
    → is_session_revoked session_id sessions ≡ true
    → is_session_revoked session_id (performs later sessions) ≡ true
performs-revoked [] session_id sessions h = h
performs-revoked (operation ∷ later) session_id sessions h =
    performs-revoked later session_id (perform operation sessions)
      (perform-revoked operation session_id sessions h)

-- A session that is there is revoked by `logout`, and stays so over any later creations, revocations
-- and touches of sessions, also under its own id.
pub logout-final :
    (session_id : String) (now : ℕ) (sessions : List UserSession) (u : UserSession)
    (later : List Operation)
    → get_session session_id sessions ≡ some u
    → is_session_revoked session_id (performs later (logout session_id now sessions)) ≡ true
logout-final session_id now sessions u later h =
    performs-revoked later session_id (logout session_id now sessions)
      (logout-own session_id now sessions u h)
