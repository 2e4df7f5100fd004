-- ===== src/Administration/Accounts/LastRole.antt =====
-- Removing and assigning a role leaves each organization an active administrator.
use ai_pmo_copilot.Common.{
  ℕ, ◌≤◌, ◌<◌, String, ◌≡◌, sym, ap, ◌∙◌, ◌⊎◌, refl, Bool, true, false, not, ◌&&◌, ◌||◌, Option,
  none, some, List, [], ◌∷◌, ◌==◌, leb, str_eq, eq_iff, select, any_of, length, Ensures,
  Ensures-unless, Bool-cases, inl, inr, arith, ==_iff,
}
use ai_pmo_copilot.Administration.Accounts.{
  User, admin_role_name, has_role, is_active_admin, active_admin_user_ids, user_at, get_user,
  without_role, remove_role_on, remove_role,
}
use ai_pmo_copilot.Administration.Accounts.LastAdmin.{
  admin_count, bit, another, changed, get_user-row, Keeps,
}

-- Removing another name leaves a name in a list.
any_of-without :
    (role name : String) (names : List String)
    → str_eq role name ≡ false
    → any_of (str_eq name) (select (λ r. not (str_eq role r)) names) ≡ any_of (str_eq name) names
any_of-without role name [] h = refl
any_of-without role name (n ∷ ns) h =
    let ih = any_of-without role name ns h in
    elim (Bool-cases (str_eq role n)) [
      | inl removed ↦ elim (Bool-cases (str_eq name n)) [
        | inl same ↦ elim (differ h ((eq_iff role n).0 removed ∙ sym ((eq_iff name n).0 same))) [ ]
        | inr other ↦ rw (removed, other) ih
      ]
      | inr kept ↦ rw kept (ap (λ b. str_eq name n || b) ih)
    ]
  where
    differ : str_eq role name ≡ false → role ≡ name → ⊥
    differ apart same = let hit : str_eq role name ≡ true = (eq_iff role name).1 same in cc

-- An active administrator is among those that the code locks.
is_locked :
    (org user_id : ℕ) (users : List User) (u : User)
    → user_at user_id users ≡ some u
    → is_active_admin org u ≡ true
    → any_of (λ id. id == user_id) (active_admin_user_ids org users) ≡ true
unfolding active_admin_user_ids
is_locked org i [] u h a = cc
is_locked org i (v ∷ vs) u h a = elim (Bool-cases (v.id == i)) [
  | inl here ↦
      let found : some v ≡ some u = rw here at h in
      let same : v ≡ u = cc in
      let counts : is_active_admin org v ≡ true = ap (is_active_admin org) same ∙ a in
      rw counts (rw here)
  | inr there ↦
      let found : user_at i vs ≡ some u = rw there at h in
      let ih = is_locked org i vs u found a in
      elim (Bool-cases (is_active_admin org v)) [
        | inl counts ↦ rw counts (rw there ih)
        | inr skipped ↦ rw skipped ih
      ]
]

removal :
    (here active had has few locked : Bool)
    → (active && few && locked) ≡ false
    → (locked ≡ false → (active && had) ≡ false)
    → (bit (here && active && had) ≤ bit (here && active && has)) ⊎ ((here ≡ true) × (few ≡ false))
removal false active had has few locked h k = inl (omega arith)
removal true false had has few locked h k = inl (omega arith)
removal true true had has false locked h k = inr (refl, refl)
removal true true had has true true h k = cc
removal true true true has true false h k = let no_admin = k refl in cc
removal true true false has true false h k = inl (omega arith)

-- Who is not locked is no active administrator.
not_locked :
    (org user_id : ℕ) (users : List User) (u : User)
    → user_at user_id users ≡ some u
    → u.organization_id ≡ org
    → any_of (λ id. id == user_id) (active_admin_user_ids org users) ≡ false
    → (u.is_active && has_role admin_role_name u) ≡ false
not_locked org i users u found owned free =
    elim (Bool-cases (u.is_active && has_role admin_role_name u)) [
      | inr no_admin ↦ no_admin
      | inl is_admin ↦ elim (clash (is_locked org i users u found (joined is_admin))) [ ]
    ]
  where
    joined : (u.is_active && has_role admin_role_name u) ≡ true → is_active_admin org u ≡ true
    joined is_admin = rw ((==_iff u.organization_id org).1 owned) is_admin

    clash : any_of (λ id. id == i) (active_admin_user_ids org users) ≡ true → ⊥
    clash e = cc

has_role-without :
    (role : String) (u : User)
    → str_eq role admin_role_name ≡ false
    → has_role admin_role_name (without_role role u) ≡ has_role admin_role_name u
has_role-without role u h = any_of-without role admin_role_name u.roles h

bit-same : (here active a b : Bool) → b ≡ a → bit (here && active && a) ≤ bit (here && active && b)
bit-same here active a b e = rw e (omega arith)

remove_role_on-Keeps :
    (catalog : List String) (user_id org : ℕ) (role : String) (users : List User)
    (found : Option User) (g : ℕ)
    → get_user user_id org users ≡ found
    → 1 ≤ admin_count g users
    → Ensures (Keeps g) (remove_role_on catalog user_id org role users found)
remove_role_on-Keeps catalog i org role users none g e p = p
remove_role_on-Keeps catalog i org role users (some u) g e p =
    let row = get_user-row i org users u e in
    Ensures-unless (Keeps g) _ (not (any_of (str_eq role) catalog)) _ λ _.
      Ensures-unless (Keeps g) _
        (str_eq role admin_role_name
          && u.is_active
          && leb (length (active_admin_user_ids org users)) 1
          && any_of (λ id. id == i) (active_admin_user_ids org users))
        _ λ open_to. changed g i (without_role role) users u row.0 p (choose row.0 row.1 open_to)
  where
    choose :
        user_at i users ≡ some u
        → u.organization_id ≡ org
        → (str_eq role admin_role_name
            && u.is_active
            && leb (length (active_admin_user_ids org users)) 1
            && any_of (λ id. id == i) (active_admin_user_ids org users))
          ≡ false
        → (bit (is_active_admin g u) ≤ bit (is_active_admin g (without_role role u)))
          ⊎ (1 < admin_count g users)
    choose found owned open_to = elim (Bool-cases (str_eq role admin_role_name)) [
      | inr another_role ↦ inl (
          bit-same (u.organization_id == g) u.is_active (has_role admin_role_name u)
            (has_role admin_role_name (without_role role u)) (has_role-without role u another_role))
      | inl admin ↦
          let guard = rw admin at open_to in
          elim (removal (u.organization_id == g) u.is_active (has_role admin_role_name u)
            (has_role admin_role_name (without_role role u))
            (leb (length (active_admin_user_ids org users)) 1)
            (any_of (λ id. id == i) (active_admin_user_ids org users)) guard
            (not_locked org i users u found owned)) [
              | inl kept ↦ inl kept
              | inr (here, many) ↦ inr (another org g u users owned here many)
            ]
    ]

-- Whatever role is removed from whom: an organization, this or another, that has an active
-- administrator has one afterwards, if the call commits.
pub remove_role-Keeps :
    (catalog : List String) (user_id organization_id : ℕ) (role : String) (users : List User)
    (g : ℕ)
    → 1 ≤ admin_count g users
    → Ensures (Keeps g) (remove_role catalog user_id organization_id role users)
unfolding remove_role
remove_role-Keeps catalog i org role users g p =
    remove_role_on-Keeps catalog i org role users (get_user i org users) g refl p
