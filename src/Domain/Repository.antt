-- ===== src/Domain/Repository.antt =====
-- src/database/domain_repository.py. A method that raises has committed nothing, so the tables come
-- back only with a result.
pub mod Tenancy
use ai_pmo_copilot.Common.{
  ℕ, ◌+◌, String, Option, none, some, Bool, true, false, not, ◌&&◌, ◌||◌, List, [], ◌∷◌, ◌++◌, map,
  Result, ok, err, ◌>>=◌, ◌>>◌, or_raise, ◌==◌, str_eq, some_is, is_none, if◌then◌else◌, keep_if,
  select, any_of,
}
use ai_pmo_copilot.Domain.Tables.{
  Organization, Portfolio, Program, Project, Tables, Collation, organization_at, portfolio_at,
  program_at, project_at,
}

-- `ValueError`, `CrossTenantViolationError` and SQLAlchemy's `IntegrityError`
pub data DomainError : Type 0 where
  does_not_exist cross_tenant integrity : DomainError

abbrev pub Commit : Type 0 → Type 0 → Type 0
Commit F A = Result DomainError (A × Tables F)

module _ {F : Type 0} where
  -- the unique constraints uq_portfolios_org_code, uq_programs_portfolio_code and
  -- uq_projects_org_name
  unfoldable pub portfolio_code_taken : Tables F → ℕ → String → Bool
  portfolio_code_taken t organization_id code =
      any_of (λ (p : Portfolio F). p.organization_id == organization_id && str_eq p.code code)
        t.portfolios

  unfoldable pub program_code_taken : Tables F → ℕ → String → Bool
  program_code_taken t portfolio_id code =
      any_of (λ (p : Program F). p.portfolio_id == portfolio_id && str_eq p.code code) t.programs

  unfoldable pub project_name_taken : Tables F → ℕ → String → Bool
  project_name_taken t organization_id name =
      any_of (λ (p : Project F). p.organization_id == organization_id && str_eq p.name name)
        t.projects

  unfoldable pub create_portfolio : ℕ → String → String → F → Tables F → Commit F ℕ
  create_portfolio organization_id name code fields t = do
    or_raise does_not_exist (organization_at t organization_id)
    if portfolio_code_taken t organization_id code
        then err integrity
        else ok (
          t.next_portfolio,
          record t {
            portfolios =
                t.portfolios
                ++ record {
                  id = t.next_portfolio;
                  organization_id = organization_id;
                  name = name;
                  code = code;
                  fields = fields;
                }
                  ∷ [];
            next_portfolio = t.next_portfolio + 1;
          },
        )

  -- `.filter(Portfolio.id == ..., Portfolio.organization_id == ...).one_or_none()`, by primary key
  unfoldable pub get_portfolio : ℕ → ℕ → Tables F → Option (Portfolio F)
  get_portfolio portfolio_id organization_id t =
      keep_if (λ (p : Portfolio F). p.organization_id == organization_id)
        (portfolio_at t portfolio_id)

  unfoldable pub create_program : ℕ → String → String → F → Tables F → Commit F ℕ
  create_program portfolio_id name code fields t = do
    or_raise does_not_exist (portfolio_at t portfolio_id)
    if program_code_taken t portfolio_id code
        then err integrity
        else ok (
          t.next_program,
          record t {
            programs =
                t.programs
                ++ record {
                  id = t.next_program;
                  portfolio_id = portfolio_id;
                  name = name;
                  code = code;
                  fields = fields;
                }
                  ∷ [];
            next_program = t.next_program + 1;
          },
        )

  -- the join `Program.portfolio_id == Portfolio.id` with its filter on the organization
  unfoldable pub portfolio_in : Tables F → ℕ → ℕ → Bool
  unfolding get_portfolio
  portfolio_in t organization_id portfolio_id =
      not (is_none (get_portfolio portfolio_id organization_id t))

  unfoldable pub get_program : ℕ → ℕ → Tables F → Option (Program F)
  get_program program_id organization_id t =
      keep_if (λ (p : Program F). portfolio_in t organization_id p.portfolio_id)
        (program_at t program_id)

  abbrev pub portfolio_of : Tables F → Option (Program F) → Option (Portfolio F)
  portfolio_of t none = none
  portfolio_of t (some program) = portfolio_at t program.portfolio_id

  abbrev pub owner : Option (Portfolio F) → Option ℕ
  owner none = none
  owner (some portfolio) = some portfolio.organization_id

  -- The organization that a program belongs to, through its portfolio.
  unfoldable pub organization_of_program : Tables F → ℕ → Option ℕ
  organization_of_program t program_id = owner (portfolio_of t (program_at t program_id))

  -- the insertion of a project row
  abbrev pub with_project : ℕ → ℕ → String → F → Tables F → Tables F
  with_project organization_id program_id name fields t = record t {
    projects =
        t.projects
        ++ record {
          id = t.next_project;
          organization_id = organization_id;
          name = name;
          program_id = some program_id;
          fields = fields;
        }
          ∷ [];
    next_project = t.next_project + 1;
  }

  unfoldable pub create_project_with_domain : ℕ → ℕ → String → F → Tables F → Commit F ℕ
  create_project_with_domain organization_id program_id name fields t = do
    or_raise does_not_exist (organization_at t organization_id)
    or_raise does_not_exist (program_at t program_id)
    if not (some_is (organization_of_program t program_id) organization_id)
        then err cross_tenant
        else if project_name_taken t organization_id name
        then err integrity
        else ok (t.next_project, with_project organization_id program_id name fields t)

  -- `project.program_id = program_id` and the `setattr` loop, on the row of that primary key
  unfoldable pub attach : ℕ → ℕ → (F → F) → List (Project F) → List (Project F)
  attach project_id program_id set_fields [] = []
  attach project_id program_id set_fields (p ∷ ps) =
      if p.id == project_id
      then record p { program_id = some program_id; fields = set_fields p.fields } ∷ ps
      else p ∷ attach project_id program_id set_fields ps

  unfoldable pub attach_project_to_program : ℕ → ℕ → (F → F) → Tables F → Commit F Unit
  attach_project_to_program project_id program_id set_fields t = do
    project ← or_raise does_not_exist (project_at t project_id)
    or_raise does_not_exist (program_at t program_id)
    if not (some_is (organization_of_program t program_id) project.organization_id)
        then err cross_tenant
        else ok (tt, record t { projects = attach project_id program_id set_fields t.projects })

  unfoldable pub get_project : ℕ → ℕ → Tables F → Option (Project F)
  get_project project_id organization_id t =
      keep_if
        (λ (p : Project F). p.organization_id == organization_id && not (is_none p.program_id))
        (project_at t project_id)

module _ (db : Collation) {F : Type 0} where
  open db use {order_by}

  unfoldable pub list_portfolios_by_organization : ℕ → Tables F → List (Portfolio F)
  list_portfolios_by_organization organization_id t =
      order_by (λ (p : Portfolio F). p.code)
        (select (λ (p : Portfolio F). p.organization_id == organization_id) t.portfolios)

  unfoldable pub list_programs_by_portfolio : ℕ → Tables F → List (Program F)
  list_programs_by_portfolio portfolio_id t =
      order_by (λ (p : Program F). p.code)
        (select (λ (p : Program F). p.portfolio_id == portfolio_id) t.programs)

  unfoldable pub list_programs_by_organization : ℕ → Tables F → List (Program F)
  list_programs_by_organization organization_id t =
      order_by (λ (p : Program F). p.code)
        (select (λ (p : Program F). portfolio_in t organization_id p.portfolio_id) t.programs)

  unfoldable pub list_projects_by_program : ℕ → Tables F → List (Project F)
  list_projects_by_program program_id t =
      order_by (λ (p : Project F). p.name)
        (select (λ (p : Project F). some_is p.program_id program_id) t.projects)

  unfoldable pub list_projects_by_organization : ℕ → Tables F → List (Project F)
  list_projects_by_organization organization_id t =
      order_by (λ (p : Project F). p.name)
        (select
          (λ (p : Project F). p.organization_id == organization_id && not (is_none p.program_id))
          t.projects)
