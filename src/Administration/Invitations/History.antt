-- ===== src/Administration/Invitations/History.antt =====
-- The calls on invitations, one after another, as the clock goes on.
use mathlib.Core.Path.{subst}
use ai_pmo_copilot.Common.{
  ℕ, ◌≤◌, ◌≡◌, refl, sym, ap, ◌∙◌, String, Option, none, some, false, not, ◌||◌, List, [], ◌∷◌,
  Result, ok, err, Ensures, Ensures-bind, Ensures-unless, ◌==◌, ==_iff, leb, str_eq, any_of,
  find_first-append, find_first-IsElem, arith, inl, inr, Bool-cases,
}
use ai_pmo_copilot.Administration.Accounts.{User, AdministrationError}
use ai_pmo_copilot.Administration.Users.{Texts, create_user_in_session}
use ai_pmo_copilot.Administration.Invitations.{
  Invitation, status, Onboarding, invitation_at, is_terminal, cancel_invitation, as_accepted,
  create_invitation, accept_found, accept_invitation,
}
use ai_pmo_copilot.Administration.Invitations.Lifecycle.{
  Reaches, Reaches-trans, status-later, IsNext, same, was_accepted, was_cancelled, IsNext-Reaches,
  IsKept, update_invitation-IsKept, cancel_invitation-IsKept,
}

-- A call of an operation, without the clock's reading.
pub data Operation : Type 0 where
  creation : ℕ → String → String → ℕ → String → String → ℕ → Operation
  cancellation : ℕ → ℕ → Operation
  acceptance : ℕ → String → String → Operation

-- the state after a call that may raise, which leaves the tables as they were
abbrev pub after_call :
    {A : Type 0} → Onboarding → Result AdministrationError (A × Onboarding) → Onboarding
after_call s (ok r) = r.1
after_call s (err e) = s

after_call-IsKept :
    {A : Type 0} (now : ℕ) (s : Onboarding) (i : Invitation)
    → invitation_at i.id s.invitations ≡ some i
    → (m : Result AdministrationError (A × Onboarding))
    → Ensures (λ (r : A × Onboarding). IsKept now i r.1.invitations) m
    → IsKept now i (after_call s m).invitations
after_call-IsKept now s i at_i (ok r) h = h
after_call-IsKept now s i at_i (err e) h = (i, at_i, same refl)

module _ (texts : Texts) (catalog : List String) where
  abbrev pub perform : ℕ → Operation → Onboarding → Onboarding
  perform now
        (creation organization_id email role_name invited_by_user_id token_prefix hashed_token
          expires_at)
        s =
      after_call s (
        create_invitation texts catalog organization_id email role_name invited_by_user_id
          token_prefix hashed_token expires_at now s)
  perform now (cancellation invitation_id organization_id) s =
      (cancel_invitation invitation_id organization_id now s).1
  perform now (acceptance invitation_id display_name password_hash) s =
      after_call s (accept_invitation texts catalog invitation_id display_name password_hash now s)

  abbrev pub performs : List (ℕ × Operation) → Onboarding → Onboarding
  performs [] s = s
  performs ((now, operation) ∷ later) s = performs later (perform now operation s)

  create_invitation-IsKept :
      (organization_id : ℕ) (email role_name : String) (invited_by_user_id : ℕ)
      (token_prefix hashed_token : String) (expires_at now : ℕ) (s : Onboarding) (i : Invitation)
      → invitation_at i.id s.invitations ≡ some i
      → Ensures
          (λ (r : Invitation × Onboarding). IsKept now i r.1.invitations)
          (create_invitation texts catalog organization_id email role_name invited_by_user_id
            token_prefix hashed_token expires_at now s)
  unfolding create_invitation
  create_invitation-IsKept organization_id email role_name invited_by_user_id token_prefix
        hashed_token expires_at now s i at_i =
      Ensures-unless (λ (r : Invitation × Onboarding). IsKept now i r.1.invitations) _
        (not (any_of (str_eq role_name) catalog)) _
        (λ _. (
          i,
          find_first-append (λ (k : Invitation). k.id == i.id) s.invitations _ i at_i,
          same refl,
        ))

  accept_invitation-IsKept :
      (invitation_id : ℕ) (display_name password_hash : String) (now : ℕ) (s : Onboarding)
      (i : Invitation)
      → invitation_at i.id s.invitations ≡ some i
      → Ensures
          (λ (r : Option User × Onboarding). IsKept now i r.1.invitations)
          (accept_invitation texts catalog invitation_id display_name password_hash now s)
  unfolding accept_invitation
  accept_invitation-IsKept invitation_id display_name password_hash now s i at_i =
      go (invitation_at invitation_id s.invitations) refl
    where
      go :
          (found : Option Invitation)
          → invitation_at invitation_id s.invitations ≡ found
          → Ensures
              (λ (r : Option User × Onboarding). IsKept now i r.1.invitations)
              (accept_found texts catalog display_name password_hash now s found)
      go none e = (i, at_i, same refl)
      go (some k) e =
          let key : k.id ≡ invitation_id =
            (==_iff k.id invitation_id).0
              (find_first-IsElem (λ (x : Invitation). x.id == invitation_id) s.invitations k e).1 in
          elim (Bool-cases (is_terminal k || leb k.expires_at now)) [
            | inl over ↦ rw over (i, at_i, same refl)
            | inr usable ↦
                let open_yet : is_terminal k ≡ false = ground arith in
                let live : leb k.expires_at now ≡ false = ground arith in
                rw usable (
                  Ensures-unless (λ (r : Option User × Onboarding). IsKept now i r.1.invitations) _
                    (not (any_of (str_eq k.role_name) catalog)) _
                    (λ _.
                      Ensures-bind (λ (r : Option User × Onboarding). IsKept now i r.1.invitations)
                        (create_user_in_session texts k.organization_id k.email display_name
                          password_hash s.directory)
                        _
                        (λ created _.
                          update_invitation-IsKept now k.id (as_accepted now) s.invitations i k
                            (λ x. refl) at_i (ap (λ n. invitation_at n s.invitations) key ∙ e)
                            (was_accepted open_yet live refl))))
          ]

  perform-IsKept :
      (now : ℕ) (operation : Operation) (s : Onboarding) (i : Invitation)
      → invitation_at i.id s.invitations ≡ some i
      → IsKept now i (perform now operation s).invitations
  perform-IsKept now
        (creation organization_id email role_name invited_by_user_id token_prefix hashed_token
          expires_at)
        s i at_i =
      after_call-IsKept now s i at_i _ (
        create_invitation-IsKept organization_id email role_name invited_by_user_id token_prefix
          hashed_token expires_at now s i at_i)
  perform-IsKept now (cancellation invitation_id organization_id) s i at_i =
      cancel_invitation-IsKept invitation_id organization_id now s i at_i
  perform-IsKept now (acceptance invitation_id display_name password_hash) s i at_i =
      after_call-IsKept now s i at_i _
        (accept_invitation-IsKept invitation_id display_name password_hash now s i at_i)

-- The clock's readings do not go back, from `now` to the end.
abbrev pub IsOrdered : ℕ → List (ℕ × Operation) → ℕ → Type 0
IsOrdered now [] end = now ≤ end
IsOrdered now ((next, operation) ∷ later) end = (now ≤ next) × IsOrdered next later end

-- what an invitation offers, to whom and until when
abbrev pub HasTermsOf : Invitation → Invitation → Type 0
HasTermsOf i j =
    (j.organization_id ≡ i.organization_id)
    × (j.email ≡ i.email)
    × (j.role_name ≡ i.role_name)
    × (j.expires_at ≡ i.expires_at)

IsNext-HasTermsOf : (now : ℕ) (i j : Invitation) → IsNext now i j → HasTermsOf i j
IsNext-HasTermsOf now i j (same e) = subst (HasTermsOf i) e (refl, refl, refl, refl)
IsNext-HasTermsOf now i j (was_cancelled _ e) = subst (HasTermsOf i) e (refl, refl, refl, refl)
IsNext-HasTermsOf now i j (was_accepted _ _ e) = subst (HasTermsOf i) e (refl, refl, refl, refl)

-- Over any calls at times that do not go back, an invitation stays under its id, with the same
-- organization, email, role and end; and its status moves only from pending to accepted, cancelled or
-- expired, and from expired to cancelled.
pub performs-Reaches :
    (texts : Texts) (catalog : List String) (calls : List (ℕ × Operation)) (now end : ℕ)
    (s : Onboarding) (i : Invitation)
    → invitation_at i.id s.invitations ≡ some i
    → IsOrdered now calls end
    → (j : Invitation) × (invitation_at i.id (performs texts catalog calls s).invitations ≡ some j)
      × HasTermsOf i j
      × Reaches (status i now) (status j end)
performs-Reaches texts catalog [] now end s i at_i ordered =
    (i, at_i, (refl, refl, refl, refl), status-later i now end ordered)
performs-Reaches texts catalog ((next, operation) ∷ later) now end s i at_i (le, ordered) =
    let (j, at_j, moved) = perform-IsKept texts catalog next operation s i at_i in
    let (org, email, role, until) = IsNext-HasTermsOf next i j moved in
    let found =
      find_first-IsElem (λ (x : Invitation). x.id == i.id)
        (perform texts catalog next operation s).invitations j at_j in
    let key : j.id ≡ i.id = (==_iff j.id i.id).0 found.1 in
    let at_j' : invitation_at j.id (perform texts catalog next operation s).invitations ≡ some j =
      ap (λ n. invitation_at n (perform texts catalog next operation s).invitations) key ∙ at_j in
    let (k, at_k, (org', email', role', until'), reached) =
      performs-Reaches texts catalog later next end (perform texts catalog next operation s) j at_j'
        ordered in
    (
      k,
      ap
            (λ n.
              invitation_at n
                (performs texts catalog later (perform texts catalog next operation s)).invitations)
            (sym key)
          ∙ at_k,
      (org' ∙ org, email' ∙ email, role' ∙ role, until' ∙ until),
      Reaches-trans (status-later i now next le)
          (Reaches-trans (IsNext-Reaches next i j moved) reached),
    )
