-- ===== src/Administration/Accounts/History.antt =====
-- Any sequence of account operations, each in its own transaction.
use ai_pmo_copilot.Common.{
  ℕ, ◌≤◌, String, ◌≡◌, refl, inl, inr, Bool, true, false, not, ◌&&◌, Option, none, some, List, [],
  ◌∷◌, ◌++◌, ok, err, Ensures, Ensures-unless, any_of, str_eq, Bool-cases, arith, ◌==◌,
}
use ai_pmo_copilot.Administration.Accounts.{
  User, Change, admin_role_name, has_role, is_active_admin, get_user, set_user_active, remove_role,
  with_role, assign_role_on, assign_role,
}
use ai_pmo_copilot.Administration.Accounts.LastAdmin.{
  admin_count, bit, changed, get_user-row, Keeps, set_user_active-Keeps,
}
use ai_pmo_copilot.Administration.Accounts.LastRole.{remove_role-Keeps}

any_of-append :
    (p : String → Bool) (xs ys : List String) → any_of p xs ≡ true → any_of p (xs ++ ys) ≡ true
any_of-append p [] ys h = cc
any_of-append p (x ∷ xs) ys h = elim (Bool-cases (p x)) [
  | inl here ↦ rw here
  | inr there ↦
      let rest : any_of p xs ≡ true = rw there at h in rw there (any_of-append p xs ys rest)
]

-- a row of which only the administrator role changes, and is kept
bit-with_role :
    (here active before after : Bool)
    → (before ≡ true → after ≡ true)
    → bit (here && active && before) ≤ bit (here && active && after)
bit-with_role false active before after h = omega arith
bit-with_role true false before after h = omega arith
bit-with_role true true false after h = omega arith
bit-with_role true true true after h = rw (h refl) (omega arith)

with_role-bit :
    (g : ℕ) (role : String) (u : User)
    → bit (is_active_admin g u) ≤ bit (is_active_admin g (with_role role u))
with_role-bit g role u = elim (Bool-cases (has_role role u)) [
  | inl had ↦ rw had (omega arith)
  | inr new ↦ rw new (
      bit-with_role (u.organization_id == g) u.is_active (has_role admin_role_name u)
        (any_of (str_eq admin_role_name) (u.roles ++ role ∷ []))
        (any_of-append (str_eq admin_role_name) u.roles (role ∷ [])))
]

assign_role-Keeps :
    (catalog : List String) (user_id org : ℕ) (role : String) (users : List User) (g : ℕ)
    → 1 ≤ admin_count g users
    → Ensures (Keeps g) (assign_role catalog user_id org role users)
unfolding assign_role
assign_role-Keeps catalog i org role users g p = go (get_user i org users) refl
  where
    go :
        (found : Option User)
        → get_user i org users ≡ found
        → Ensures (Keeps g) (assign_role_on catalog i role users found)
    go none e = p
    go (some u) e = Ensures-unless (Keeps g) _ (not (any_of (str_eq role) catalog)) _ λ _.
        changed g i (with_role role) users u (get_user-row i org users u e).0 p
          (inl (with_role-bit g role u))

-- a request to the three operations
pub data Operation : Type 0 where
  activation : (user_id organization_id : ℕ) → Bool → (actor_user_id : ℕ) → Operation
  removal : (user_id organization_id : ℕ) → String → Operation
  assignment : (user_id organization_id : ℕ) → String → Operation

-- The table after a request: one that raises has committed nothing.
abbrev pub committed : Change → List User → List User
committed (ok (answer, after)) users = after
committed (err e) users = users

abbrev pub request : List String → Operation → List User → List User
request catalog (activation i org to actor) users =
    committed (set_user_active i org to actor users) users
request catalog (removal i org role) users = committed (remove_role catalog i org role users) users
request catalog (assignment i org role) users =
    committed (assign_role catalog i org role users) users

abbrev pub requests : List String → List Operation → List User → List User
requests catalog [] users = users
requests catalog (o ∷ os) users = requests catalog os (request catalog o users)

committed-Keeps :
    (g : ℕ) (r : Change) (users : List User)
    → 1 ≤ admin_count g users
    → Ensures (Keeps g) r
    → 1 ≤ admin_count g (committed r users)
committed-Keeps g (ok r) users p h = h
committed-Keeps g (err e) users p h = p

request-keeps :
    (catalog : List String) (g : ℕ) (o : Operation) (users : List User)
    → 1 ≤ admin_count g users
    → 1 ≤ admin_count g (request catalog o users)
request-keeps catalog g (activation i org to actor) users p =
    committed-Keeps g _ users p (set_user_active-Keeps i org to actor users g p)
request-keeps catalog g (removal i org role) users p =
    committed-Keeps g _ users p (remove_role-Keeps catalog i org role users g p)
request-keeps catalog g (assignment i org role) users p =
    committed-Keeps g _ users p (assign_role-Keeps catalog i org role users g p)

-- Whatever sequence of activations, deactivations, role removals and role assignments is requested, by
-- whomever and in whatever organizations: an organization that has an active administrator has one
-- after all of them.
pub requests-keep_admin :
    (catalog : List String) (g : ℕ) (os : List Operation) (users : List User)
    → 1 ≤ admin_count g users
    → 1 ≤ admin_count g (requests catalog os users)
requests-keep_admin catalog g [] users p = p
requests-keep_admin catalog g (o ∷ os) users p =
    requests-keep_admin catalog g os (request catalog o users) (request-keeps catalog g o users p)
