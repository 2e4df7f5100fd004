-- ===== src/Administration/Invitations/Acceptance.antt =====
-- What an acceptance comes to, in each state of the invitation.
use ai_pmo_copilot.Common.{
  ℕ, ◌+◌, ◌<◌, ◌≡◌, ◌≢◌, refl, ap, ◌∙◌, String, Option, none, some, Bool, true, false, not, ◌||◌,
  List, [], ◌∷◌, ◌++◌, Result, ok, err, ◌==◌, ==_iff, leb, str_eq, str_eq_refl, is_none, any_of,
  All, find_first-IsElem, arith, if◌then◌else◌, inl, inr, ◌⊎◌, Bool-cases,
}
use ai_pmo_copilot.Administration.Accounts.{
  User, AdministrationError, unknown_role, email_conflict, update_user_row, with_role, has_role,
}
use ai_pmo_copilot.Administration.Users.{
  Texts, Directory, is_same_email, new_user, create_user_in_session, with_role_of,
}
use ai_pmo_copilot.Administration.Invitations.{
  Invitation, pending, accepted, expired, cancelled, status, Onboarding, invitation_at, is_terminal,
  as_accepted, with_acceptance, accept_invitation,
}
use ai_pmo_copilot.Administration.Invitations.Lifecycle.{open_tests, update_invitation-at}

-- pending is what the guard of the code lets through
status-pending :
    (i : Invitation) (now : ℕ)
    → (is_terminal i || leb i.expires_at now) ≡ false
    → status i now ≡ pending
unfolding status
status-pending i now h =
    let open_yet : is_terminal i ≡ false = ground arith in
    let live : leb i.expires_at now ≡ false = ground arith in
    let (unused, kept) = open_tests i open_yet in rw kept (rw unused (rw live refl))

status-not_pending :
    (i : Invitation) (now : ℕ)
    → (is_terminal i || leb i.expires_at now) ≡ true
    → status i now ≢ pending
unfolding status
status-not_pending i now h =
    go (is_none i.cancelled_at) (is_none i.accepted_at) (leb i.expires_at now) h
  where
    go :
        (kept unused over : Bool)
        → ((not unused || not kept) || over) ≡ true
        → (if not kept
            then cancelled
            else if not unused
            then accepted
            else if over
            then expired
            else pending)
          ≢ pending
    go false unused over q = λ e. cc
    go true false over q = λ e. cc
    go true true true q = λ e. cc
    go true true false q = λ e. cc

-- a change of the row that was added last, under a fresh id
update_user_row-last :
    (users : List User) (user : User) (change : User → User)
    → All (λ (u : User). u.id < user.id) users
    → update_user_row user.id change (users ++ user ∷ []) ≡ users ++ change user ∷ []
unfolding update_user_row
update_user_row-last [] user change fresh =
    let here : (user.id == user.id) ≡ true = ground arith in rw here refl
update_user_row-last (u ∷ us) user change fresh =
    let there : (u.id == user.id) ≡ false = let less = fresh.0 in ground arith in
    rw there (ap (λ xs. u ∷ xs) (update_user_row-last us user change fresh.1))

module _ (texts : Texts) (catalog : List String) (invitation_id : ℕ)
    (display_name password_hash : String) (now : ℕ) (s : Onboarding) (i : Invitation) where
  abbrev answer : Result AdministrationError (Option User × Onboarding)
  answer = accept_invitation texts catalog invitation_id display_name password_hash now s

  -- The user that was added, alone, and the invitation that is accepted from then on.
  abbrev pub IsAccepted : Type 0
  IsAccepted =
      (user : User) × (t : Onboarding) × (answer ≡ ok (some user, t))
      × (user.organization_id ≡ i.organization_id)
      × (user.email ≡ i.email)
      × (user.is_active ≡ true)
      × (has_role i.role_name user ≡ true)
      × (t.directory.users ≡ s.directory.users ++ user ∷ [])
      × (invitation_at invitation_id t.invitations ≡ some (as_accepted now i))
      × ((later : ℕ) → status (as_accepted now i) later ≡ accepted)

  -- Each outcome, with the condition under which it is the one.
  abbrev pub IsOutcome : Type 0
  IsOutcome =
      ((status i now ≢ pending) × (answer ≡ ok (none, s)))
      ⊎ ((status i now ≡ pending)
          × (any_of (str_eq i.role_name) catalog ≡ false)
          × (answer ≡ err unknown_role))
      ⊎ ((status i now ≡ pending)
          × (any_of (str_eq i.role_name) catalog ≡ true)
          × (any_of (is_same_email texts i.organization_id i.email) s.directory.users ≡ true)
          × (answer ≡ err email_conflict))
      ⊎ ((status i now ≡ pending)
          × (any_of (str_eq i.role_name) catalog ≡ true)
          × (any_of (is_same_email texts i.organization_id i.email) s.directory.users ≡ false)
          × IsAccepted)

accepted-stays :
    (now later : ℕ) (i : Invitation)
    → is_terminal i ≡ false
    → status (as_accepted now i) later ≡ accepted
unfolding status
accepted-stays now later i h = let (_, kept) = open_tests i h in rw kept refl

-- the row that the acceptance creates
abbrev accepted_user : Directory → Invitation → String → String → User
accepted_user d i display_name password_hash =
    with_role i.role_name (new_user d i.organization_id i.email display_name password_hash)

-- what the acceptance commits
abbrev committed : ℕ → Onboarding → Invitation → String → String → Onboarding
committed now s i display_name password_hash =
    (with_acceptance now i s (
      with_role_of i.role_name (
        new_user s.directory i.organization_id i.email display_name password_hash,
        record {
          users =
              s.directory.users
              ++ new_user s.directory i.organization_id i.email display_name password_hash ∷ [];
          next_user = s.directory.next_user + 1;
        },
      ))).1

accept_invitation-IsAccepted :
    (texts : Texts) (catalog : List String) (invitation_id : ℕ)
    (display_name password_hash : String) (now : ℕ) (s : Onboarding) (i : Invitation)
    → invitation_at invitation_id s.invitations ≡ some i
    → All (λ (u : User). u.id < s.directory.next_user) s.directory.users
    → (is_terminal i || leb i.expires_at now) ≡ false
    → any_of (str_eq i.role_name) catalog ≡ true
    → any_of (is_same_email texts i.organization_id i.email) s.directory.users ≡ false
    → IsAccepted texts catalog invitation_id display_name password_hash now s i
unfolding accept_invitation create_user_in_session
accept_invitation-IsAccepted texts catalog invitation_id display_name password_hash now s i at_i
      fresh usable known free =
    let open_yet : is_terminal i ≡ false = ground arith in
    let own : (i.id == i.id) ≡ true = ground arith in
    let key : i.id ≡ invitation_id =
      (==_iff i.id invitation_id).0
        (find_first-IsElem (λ (x : Invitation). x.id == invitation_id) s.invitations i at_i).1 in
    (
      accepted_user s.directory i display_name password_hash,
      committed now s i display_name password_hash,
      rw at_i (rw usable (rw known (rw free refl))),
      refl,
      refl,
      refl,
      rw (str_eq_refl i.role_name) refl,
      update_user_row-last s.directory.users
          (new_user s.directory i.organization_id i.email display_name password_hash)
          (with_role i.role_name) fresh,
      update_invitation-at invitation_id i.id (as_accepted now) s.invitations i (λ k. refl) at_i
          ∙ rw own refl,
      λ later. accepted-stays now later i open_yet,
    )

-- For an invitation that is there, and a table of users whose next id is fresh: the answer is None,
-- with nothing changed, exactly when the invitation is not pending; of a pending one, `ValueError`
-- exactly when its role is not in the catalog, else `EmailConflictError` exactly when a user of its
-- organization has its email; else one active user is added, of its organization and email and with
-- its role, and the invitation is accepted from then on.
pub accept_invitation-outcome :
    (texts : Texts) (catalog : List String) (invitation_id : ℕ)
    (display_name password_hash : String) (now : ℕ) (s : Onboarding) (i : Invitation)
    → invitation_at invitation_id s.invitations ≡ some i
    → All (λ (u : User). u.id < s.directory.next_user) s.directory.users
    → IsOutcome texts catalog invitation_id display_name password_hash now s i
unfolding accept_invitation create_user_in_session
accept_invitation-outcome texts catalog invitation_id display_name password_hash now s i at_i
      fresh =
    elim (Bool-cases (is_terminal i || leb i.expires_at now)) [
      | inl over ↦ inl (status-not_pending i now over, rw at_i (rw over refl))
      | inr usable ↦
          let waits = status-pending i now usable in
          elim (Bool-cases (any_of (str_eq i.role_name) catalog)) [
            | inr unknown ↦ inr (inl (waits, unknown, rw at_i (rw usable (rw unknown refl))))
            | inl known ↦
                elim (Bool-cases
                  (any_of (is_same_email texts i.organization_id i.email) s.directory.users)) [
                    | inl taken ↦ inr (
                        inr (
                          inl
                            (waits, known, taken, rw at_i (rw usable (rw known (rw taken refl))))))
                    | inr free ↦ inr (
                        inr (
                          inr (
                            waits,
                            known,
                            free,
                            accept_invitation-IsAccepted texts catalog invitation_id display_name
                                password_hash now s i at_i fresh usable known free,
                          )))
                  ]
          ]
    ]
