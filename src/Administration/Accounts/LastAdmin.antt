-- ===== src/Administration/Accounts/LastAdmin.antt =====
-- No operation takes an organization its last active administrator.
use ai_pmo_copilot.Common.{
  ℕ, ◌+◌, ◌≤◌, ◌<◌, ◌≡◌, sym, ◌∙◌, ◌⊎◌, refl, Bool, true, false, not, ◌&&◌, Option, none, some,
  List, [], ◌∷◌, map, ◌==◌, leb, if◌then◌else◌, select, length, keep_if-some, Ensures,
  Ensures-unless, Bool-cases, inl, inr, arith, ==_iff,
}
use mathlib.Core.Path.{subst}
use ai_pmo_copilot.Administration.Accounts.{
  User, admin_role_name, has_role, is_active_admin, active_admin_user_ids, user_at, get_user,
  update_user_row, set_active, set_active_on, set_user_active,
}

abbrev pub admin_count : ℕ → List User → ℕ
admin_count organization_id users = length (select (is_active_admin organization_id) users)

abbrev pub bit : Bool → ℕ
bit true = 1
bit false = 0

length-if :
    (b : Bool) (x : User) (xs : List User) → length (if b then x ∷ xs else xs) ≡ bit b + length xs
length-if true x xs = omega arith
length-if false x xs = omega arith

admin_count-∷ :
    (g : ℕ) (u : User) (us : List User)
    → admin_count g (u ∷ us) ≡ bit (is_active_admin g u) + admin_count g us
admin_count-∷ g u us = length-if (is_active_admin g u) u (select (is_active_admin g) us)

balance : (a b x y rest : ℕ) → a ≡ x + rest → b ≡ y + rest → a + y ≡ b + x
balance a b x y rest e f = omega arith

carried :
    (a b x rest kept before after : ℕ)
    → a ≡ x + kept
    → b ≡ x + rest
    → kept + before ≡ rest + after
    → a + before ≡ b + after
carried a b x rest kept before after e f h = omega arith

-- A change of one row moves the count by what the row itself counted.
admin_count-update :
    (g user_id : ℕ) (change : User → User) (users : List User) (u : User)
    → user_at user_id users ≡ some u
    → admin_count g (update_user_row user_id change users) + bit (is_active_admin g u)
      ≡ admin_count g users + bit (is_active_admin g (change u))
unfolding update_user_row
admin_count-update g i change [] u h = cc
admin_count-update g i change (v ∷ vs) u h = elim (Bool-cases (v.id == i)) [
  | inl here ↦
      let found : some v ≡ some u = rw here at h in
      let same : v ≡ u = cc in
      subst
        (λ w.
          admin_count g (update_user_row i change (v ∷ vs)) + bit (is_active_admin g w)
          ≡ admin_count g (v ∷ vs) + bit (is_active_admin g (change w)))
        same (rw here (balance _ _ _ _ _ (admin_count-∷ g (change v) vs) (admin_count-∷ g v vs)))
  | inr there ↦
      let found : user_at i vs ≡ some u = rw there at h in
      rw there (
        carried _ _ _ _ _ _ _ (admin_count-∷ g v (update_user_row i change vs))
          (admin_count-∷ g v vs) (admin_count-update g i change vs u found))
]

length-map : (f : User → ℕ) (us : List User) → length (map f us) ≡ length us
length-map f [] = refl
length-map f (u ∷ us) = omega (arith, length-map f us)

-- Where a change is made, the row is one that the organization's user has.
pub get_user-row :
    (user_id g : ℕ) (users : List User) (u : User)
    → get_user user_id g users ≡ some u
    → (user_at user_id users ≡ some u) × (u.organization_id ≡ g)
unfolding get_user
get_user-row i g users u h =
    let kept = keep_if-some (λ (v : User). v.organization_id == g) (user_at i users) u h in
    (kept.0, (==_iff u.organization_id g).0 kept.1)

-- If a change is not to lose an administrator of `g`, either the row counts as it did, or there is
-- another one.
keeps :
    (before after was is : ℕ)
    → after + was ≡ before + is
    → was ≤ 1
    → 1 ≤ before
    → (was ≤ is) ⊎ (1 < before)
    → 1 ≤ after
keeps before after was is h w p (inl same) = omega arith
keeps before after was is h w p (inr more) = omega arith

bit-le : (b : Bool) → bit b ≤ 1
bit-le true = omega arith
bit-le false = omega arith

deactivation :
    (here to active admin few : Bool)
    → (not to && active && admin && few) ≡ false
    → (bit (here && active && admin) ≤ bit (here && to && admin)) ⊎ ((here ≡ true) × (few ≡ false))
deactivation false to active admin few h = inl (omega arith)
deactivation true true true admin few h = inl (omega arith)
deactivation true true false admin few h = inl (omega arith)
deactivation true false false admin few h = inl (omega arith)
deactivation true false true false few h = inl (omega arith)
deactivation true false true true true h = cc
deactivation true false true true false h = inr (refl, refl)

-- Another administrator, where the code counts more than one.
pub another :
    (org g : ℕ) (u : User) (users : List User)
    → u.organization_id ≡ org
    → (u.organization_id == g) ≡ true
    → leb (length (active_admin_user_ids org users)) 1 ≡ false
    → 1 < admin_count g users
unfolding active_admin_user_ids
another org g u users owned here many =
    let same : org ≡ g = sym owned ∙ (==_iff u.organization_id g).0 here in
    let counted = length-map (λ (v : User). v.id) (select (is_active_admin org) users) in
    subst (λ k. 1 < admin_count k users) same (ground (arith, many, counted))

-- The count after a committed change of the row of `u`.
pub changed :
    (g user_id : ℕ) (change : User → User) (users : List User) (u : User)
    → user_at user_id users ≡ some u
    → 1 ≤ admin_count g users
    → (bit (is_active_admin g u) ≤ bit (is_active_admin g (change u))) ⊎ (1 < admin_count g users)
    → 1 ≤ admin_count g (update_user_row user_id change users)
changed g i change users u found p choice =
    keeps _ _ (bit (is_active_admin g u)) (bit (is_active_admin g (change u)))
      (admin_count-update g i change users u found) (bit-le (is_active_admin g u)) p choice

abbrev pub Keeps : ℕ → Option User × List User → Type 0
Keeps g r = 1 ≤ admin_count g r.1

set_active_on-Keeps :
    (user_id org : ℕ) (to : Bool) (users : List User) (found : Option User) (g : ℕ)
    → get_user user_id org users ≡ found
    → 1 ≤ admin_count g users
    → Ensures (Keeps g) (set_active_on user_id org to users found)
set_active_on-Keeps i org to users none g e p = p
set_active_on-Keeps i org to users (some u) g e p =
    let row = get_user-row i org users u e in
    Ensures-unless (Keeps g) _
      (not to
        && u.is_active
        && has_role admin_role_name u
        && leb (length (active_admin_user_ids org users)) 1)
      _ λ open_to. changed g i (set_active to) users u row.0 p (choose open_to row.1)
  where
    choose :
        (not to
            && u.is_active
            && has_role admin_role_name u
            && leb (length (active_admin_user_ids org users)) 1)
          ≡ false
        → u.organization_id ≡ org
        → (bit (is_active_admin g u) ≤ bit (is_active_admin g (set_active to u)))
          ⊎ (1 < admin_count g users)
    choose open_to owned =
        elim (deactivation (u.organization_id == g) to u.is_active (has_role admin_role_name u)
          (leb (length (active_admin_user_ids org users)) 1) open_to) [
            | inl kept ↦ inl kept
            | inr (here, many) ↦ inr (another org g u users owned here many)
          ]

-- Whoever is activated or deactivated: an organization, this or another, that has an active
-- administrator has one afterwards, if the call commits.
pub set_user_active-Keeps :
    (user_id organization_id : ℕ) (is_active : Bool) (actor_user_id : ℕ) (users : List User) (g : ℕ)
    → 1 ≤ admin_count g users
    → Ensures (Keeps g) (set_user_active user_id organization_id is_active actor_user_id users)
unfolding set_user_active
set_user_active-Keeps i org to actor users g p =
    Ensures-unless (Keeps g) _ (not to && i == actor) _
      λ _. set_active_on-Keeps i org to users (get_user i org users) g refl p
