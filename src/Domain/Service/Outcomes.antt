-- ===== src/Domain/Service/Outcomes.antt =====
-- What the methods of `DomainService` answer, record and show.
use ai_pmo_copilot.Common.{
  ℕ, ◌==◌, ==_iff, ◌≡◌, ◌≢◌, refl, inl, inr, Option, none, some, some_is, false, true, not, Bool,
  List, All, All-at, All-of_elem, arith, Bool-cases, IsElem-of_select, is_none, keep_if, ◌&&◌,
  if◌then◌else◌,
}
use mathlib.Core.Path.{subst}
use ai_pmo_copilot.Domain.Tables.{
  Portfolio, Program, Project, Tables, Collation, portfolio_at, program_at,
}
use ai_pmo_copilot.Domain.Repository.{
  portfolio_in, portfolio_of, owner, get_portfolio, get_program, organization_of_program,
  list_projects_by_program, list_projects_by_organization,
}
use ai_pmo_copilot.Domain.Repository.Tenancy.{IsConsistent, IsOwned, Owned}
use ai_pmo_copilot.Domain.Service.{State, list_projects}

module _ {F : Type 0} where
  portfolio_in-owner :
      (t : Tables F) (organization_id : ℕ) (o : Option (Portfolio F))
      → not (is_none (keep_if (λ (p : Portfolio F). p.organization_id == organization_id) o)) ≡ true
      → owner o ≡ some organization_id
  portfolio_in-owner t g none h = cc
  portfolio_in-owner t g (some p) h = ground arith

  program_in-owner :
      (t : Tables F) (organization_id : ℕ) (o : Option (Program F))
      → is_none (keep_if (λ (p : Program F). portfolio_in t organization_id p.portfolio_id) o)
        ≡ false
      → owner (portfolio_of t o) ≡ some organization_id
  unfolding portfolio_in get_portfolio
  program_in-owner t g none h = cc
  program_in-owner t g (some p) h =
      portfolio_in-owner t g (portfolio_at t p.portfolio_id) (ground arith)

  -- A program that resolves within an organization belongs to it.
  pub get_program-owner :
      (t : Tables F) (program_id organization_id : ℕ)
      → is_none (get_program program_id organization_id t) ≡ false
      → organization_of_program t program_id ≡ some organization_id
  unfolding get_program organization_of_program
  get_program-owner t q g h = program_in-owner t g (program_at t q) h

  Owned-of_program :
      (t : Tables F) (of : Option ℕ) (owned_by program_id organization_id : ℕ)
      → Owned t owned_by of
      → some_is of program_id ≡ true
      → organization_of_program t program_id ≡ some organization_id
      → owned_by ≡ organization_id
  Owned-of_program t none b q g h same own = cc
  Owned-of_program t (some r) b q g h same own = let e = (==_iff r q).0 same in cc

  -- A program that is not the organization's does not resolve within it.
  pub get_program-foreign :
      (t : Tables F) (program_id organization_id : ℕ)
      → organization_of_program t program_id ≢ some organization_id
      → is_none (get_program program_id organization_id t) ≡ true
  get_program-foreign t q g foreign = elim (Bool-cases (is_none (get_program q g t))) [
    | inl gone ↦ gone
    | inr found ↦ elim (foreign (get_program-owner t q g found)) [ ]
  ]

some-inj : {A : Type 0} (a b : A) → some a ≡ some b → a ≡ b
some-inj a b e = cc

module _ (db : Collation) {F : Type 0} where
  list_projects_by_program-own :
      (t : Tables F) (program_id organization_id : ℕ)
      → IsConsistent t
      → organization_of_program t program_id ≡ some organization_id
      → All
          (λ (p : Project F). p.organization_id ≡ organization_id)
          (list_projects_by_program db program_id t)
  unfolding list_projects_by_program
  list_projects_by_program-own t q g h own = All-of_elem _ _ λ p m.
      let kept =
        IsElem-of_select p (λ (r : Project F). some_is r.program_id q) t.projects
          ((db.elem_order_by (λ (r : Project F). r.name) _ p).0 m) in
      Owned-of_program t p.program_id p.organization_id q g
        (All-at (IsOwned t) p t.projects h kept.0) kept.1 own

  list_projects_by_organization-own :
      (t : Tables F) (organization_id : ℕ)
      → All
          (λ (p : Project F). p.organization_id ≡ organization_id)
          (list_projects_by_organization db organization_id t)
  unfolding list_projects_by_organization
  list_projects_by_organization-own t g = All-of_elem _ _ λ p m.
      let kept =
        IsElem-of_select p (λ (r : Project F). r.organization_id == g && not (is_none r.program_id))
          t.projects ((db.elem_order_by (λ (r : Project F). r.name) _ p).0 m) in
      let test = kept.1 in ground (arith, test)

  answered :
      (P : List (Project F) → Type 0) (b : Bool) (found xs : List (Project F))
      → (b ≡ false → P found)
      → (if b then none else some found) ≡ some xs
      → P xs
  answered P true found xs h e = cc
  answered P false found xs h e = subst P (some-inj found xs e) (h refl)

  -- With the projects in the organizations of their programs: whether an organization lists all of its
  -- projects or those of one program, each project in the answer is its own.
  pub list_projects-own :
      (organization_id : ℕ) (program_id : Option ℕ) (s : State F) (projects : List (Project F))
      → IsConsistent s.tables
      → list_projects db organization_id program_id s ≡ some projects
      → All (λ (p : Project F). p.organization_id ≡ organization_id) projects
  unfolding list_projects
  list_projects-own g none s ps h e =
      subst (All (λ (p : Project F). p.organization_id ≡ g)) (some-inj _ ps e)
        (list_projects_by_organization-own s.tables g)
  list_projects-own g (some q) s ps h e =
      answered (All (λ (p : Project F). p.organization_id ≡ g)) (is_none (get_program q g s.tables))
        (list_projects_by_program db q s.tables) ps
        (λ found.
          list_projects_by_program-own s.tables q g h (get_program-owner s.tables q g found))
        e
