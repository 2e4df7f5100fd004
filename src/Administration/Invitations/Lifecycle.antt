-- ===== src/Administration/Invitations/Lifecycle.antt =====
-- The states of an invitation, and that the operations move it along them only.
use mathlib.Core.Path.{subst}
use ai_pmo_copilot.Common.{
  ℕ, ◌≤◌, ◌≡◌, refl, sym, ap, ◌∙◌, Option, none, some, true, false, List, [], ◌∷◌, ◌==◌, ==_iff,
  leb, is_none, find_first-IsElem, keep_if, keep_if-some, arith, if◌then◌else◌, inl, inr,
  Bool-cases,
}
use ai_pmo_copilot.Administration.Invitations.{
  Invitation, Status, pending, accepted, expired, cancelled, status, Onboarding, invitation_at,
  update_invitation, is_terminal, as_cancelled, cancel_found, cancel_invitation, as_accepted,
}

-- The moves between the states: time passes, an invitation is accepted while it is pending, and it is
-- cancelled while it is pending or expired.
pub data Move : Status → Status → Type 0 where
  expire : Move pending expired
  accept : Move pending accepted
  cancel : Move pending cancelled
  cancel_late : Move expired cancelled

pub data Reaches : Status → Status → Type 0 where
  stays : {a b : Status} → a ≡ b → Reaches a b
  moves : {a b c : Status} → Move a b → Reaches b c → Reaches a c

pub Reaches-trans : {a b c : Status} → Reaches a b → Reaches b c → Reaches a c
Reaches-trans {c = c} (stays e) r = subst (λ s. Reaches s c) (sym e) r
Reaches-trans (moves m r) r' = moves m (Reaches-trans r r')

-- time passes
pub status-later :
    (i : Invitation) (now later : ℕ) → now ≤ later → Reaches (status i now) (status i later)
unfolding status
status-later i now later h = elim (Bool-cases (is_none i.cancelled_at)) [
  | inr is_cancelled ↦ rw is_cancelled (stays refl)
  | inl open_yet ↦ elim (Bool-cases (is_none i.accepted_at)) [
    | inr is_accepted ↦ rw open_yet (rw is_accepted (stays refl))
    | inl unused ↦ elim (Bool-cases (leb i.expires_at now)) [
      | inl over ↦
          let over_later : leb i.expires_at later ≡ true = ground arith in
          rw open_yet (rw unused (rw over (rw over_later (stays refl))))
      | inr live ↦ elim (Bool-cases (leb i.expires_at later)) [
        | inl over_later ↦
            rw open_yet (rw unused (rw live (rw over_later (moves expire (stays refl)))))
        | inr live_later ↦ rw open_yet (rw unused (rw live (rw live_later (stays refl))))
      ]
    ]
  ]
]

-- the row after an operation at `now`
pub data IsNext (now : ℕ) (i : Invitation) : Invitation → Type 0 where
  same : {j : Invitation} → i ≡ j → IsNext now i j
  was_cancelled : {j : Invitation} → is_terminal i ≡ false → as_cancelled now i ≡ j → IsNext now i j
  was_accepted :
      {j : Invitation}
      → is_terminal i ≡ false
      → leb i.expires_at now ≡ false
      → as_accepted now i ≡ j
      → IsNext now i j

pub open_tests :
    (i : Invitation)
    → is_terminal i ≡ false
    → (is_none i.accepted_at ≡ true) × (is_none i.cancelled_at ≡ true)
open_tests i h = (ground arith, ground arith)

as_cancelled-Reaches :
    (now : ℕ) (i : Invitation)
    → is_terminal i ≡ false
    → Reaches (status i now) (status (as_cancelled now i) now)
unfolding status
as_cancelled-Reaches now i h =
    let (unused, open_yet) = open_tests i h in
    elim (Bool-cases (leb i.expires_at now)) [
      | inl over ↦ rw open_yet (rw unused (rw over (moves cancel_late (stays refl))))
      | inr live ↦ rw open_yet (rw unused (rw live (moves cancel (stays refl))))
    ]

as_accepted-Reaches :
    (now : ℕ) (i : Invitation)
    → is_terminal i ≡ false
    → leb i.expires_at now ≡ false
    → Reaches (status i now) (status (as_accepted now i) now)
unfolding status
as_accepted-Reaches now i h live =
    let (unused, open_yet) = open_tests i h in
    rw open_yet (rw unused (rw live (moves accept (stays refl))))

pub IsNext-Reaches :
    (now : ℕ) (i j : Invitation) → IsNext now i j → Reaches (status i now) (status j now)
IsNext-Reaches now i j (same e) = stays (ap (λ (k : Invitation). status k now) e)
IsNext-Reaches now i j (was_cancelled h e) =
    subst (λ (k : Invitation). Reaches (status i now) (status k now)) e
      (as_cancelled-Reaches now i h)
IsNext-Reaches now i j (was_accepted h live e) =
    subst (λ (k : Invitation). Reaches (status i now) (status k now)) e
      (as_accepted-Reaches now i h live)

-- the row that a change of another row, or of itself, leaves
pub update_invitation-at :
    (id changed : ℕ) (change : Invitation → Invitation) (is : List Invitation) (i : Invitation)
    → ((k : Invitation) → (change k).id ≡ k.id)
    → invitation_at id is ≡ some i
    → invitation_at id (update_invitation changed change is)
      ≡ some (if i.id == changed then change i else i)
unfolding update_invitation
update_invitation-at id changed change [] i keeps h = cc
update_invitation-at id changed change (k ∷ ks) i keeps h = elim (Bool-cases (k.id == id)) [
  | inl here ↦
      let found : some k ≡ some i = rw here at h in
      let one : k ≡ i = cc in
      let key : (change k).id ≡ k.id = keeps k in
      subst
        (λ (x : Invitation).
          invitation_at id (update_invitation changed change (k ∷ ks))
          ≡ some (if x.id == changed then change x else x))
        one
        (elim (Bool-cases (k.id == changed)) [
          | inl its ↦
              rw its (let key_here : ((change k).id == id) ≡ true = rw key here in rw key_here refl)
          | inr other ↦ rw other (rw here refl)
        ])
  | inr there ↦
      let later : invitation_at id ks ≡ some i = rw there at h in
      let ih = update_invitation-at id changed change ks i keeps later in
      elim (Bool-cases (k.id == changed)) [
        | inl its ↦
            let found = find_first-IsElem (λ (x : Invitation). x.id == id) ks i later in
            let key : (i.id == id) ≡ true = found.1 in
            let apart : (i.id == changed) ≡ false = ground arith in
            let away : ((change k).id == id) ≡ false = rw (keeps k) there in
            rw its (rw away (rw apart later))
        | inr other ↦ rw other (rw there ih)
      ]
]

-- Where the row of the id is, after an operation at `now`.
abbrev pub IsKept : ℕ → Invitation → List Invitation → Type 0
IsKept now i invitations =
    (j : Invitation) × (invitation_at i.id invitations ≡ some j) × IsNext now i j

pub update_invitation-IsKept :
    (now changed : ℕ) (change : Invitation → Invitation) (is : List Invitation) (i k : Invitation)
    → ((x : Invitation) → (change x).id ≡ x.id)
    → invitation_at i.id is ≡ some i
    → invitation_at changed is ≡ some k
    → IsNext now k (change k)
    → IsKept now i (update_invitation changed change is)
update_invitation-IsKept now changed change is i k keeps at_i at_k next =
    let updated = update_invitation-at i.id changed change is i keeps at_i in
    elim (Bool-cases (i.id == changed)) [
      | inl its ↦
          let key : i.id ≡ changed = (==_iff i.id changed).0 its in
          let both : some i ≡ some k = sym at_i ∙ ap (λ n. invitation_at n is) key ∙ at_k in
          let one : k ≡ i = cc in
          (
            change i,
            updated ∙ rw its refl,
            subst (λ (x : Invitation). IsNext now x (change x)) one next,
          )
      | inr other ↦ (i, updated ∙ rw other refl, same refl)
    ]

pub cancel_invitation-IsKept :
    (invitation_id organization_id now : ℕ) (s : Onboarding) (i : Invitation)
    → invitation_at i.id s.invitations ≡ some i
    → IsKept now i (cancel_invitation invitation_id organization_id now s).1.invitations
unfolding cancel_invitation
cancel_invitation-IsKept invitation_id organization_id now s i at_i =
    go
      (keep_if (λ (k : Invitation). k.organization_id == organization_id)
        (invitation_at invitation_id s.invitations))
      refl
  where
    go :
        (found : Option Invitation)
        → keep_if
            (λ (k : Invitation). k.organization_id == organization_id)
            (invitation_at invitation_id s.invitations)
          ≡ found
        → IsKept now i (cancel_found now s found).1.invitations
    go none e = (i, at_i, same refl)
    go (some k) e =
        let at_k =
          (keep_if-some (λ (x : Invitation). x.organization_id == organization_id)
            (invitation_at invitation_id s.invitations) k e).0 in
        let found =
          find_first-IsElem (λ (x : Invitation). x.id == invitation_id) s.invitations k at_k in
        let key : k.id ≡ invitation_id = (==_iff k.id invitation_id).0 found.1 in
        elim (Bool-cases (is_terminal k)) [
          | inl over ↦ rw over (i, at_i, same refl)
          | inr open_yet ↦ rw open_yet (
              update_invitation-IsKept now k.id (as_cancelled now) s.invitations i k (λ x. refl)
                at_i (ap (λ n. invitation_at n s.invitations) key ∙ at_k)
                (was_cancelled open_yet refl))
        ]
