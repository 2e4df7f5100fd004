-- ===== src/Examples/Domain.antt =====
-- The Enterprise Domain at a small organization: src/database/domain_repository.py and
-- src/services/domain_service.py.
use ai_pmo_copilot.Common.{
  ℕ, String, false, ◌≡◌, ◌≢◌, refl, none, some, List, [], ◌∷◌, ◌++◌, Ensures, ok, All, arith,
}
use ai_pmo_copilot.Domain.Tables.{Project, Tables, Collation}
use ai_pmo_copilot.Domain.Repository.{
  create_portfolio, create_program, create_project_with_domain, attach_project_to_program,
  organization_of_program, get_portfolio, get_program, list_projects_by_program, portfolio_in,
  project_name_taken,
}
use ai_pmo_copilot.Domain.Repository.Tenancy.{IsConsistent, After, writes-IsConsistent}
use ai_pmo_copilot.Domain.Service.{State}
use ai_pmo_copilot.Domain.Service as Service
use ai_pmo_copilot.Domain.Service.Outcomes.{list_projects-own}
use ai_pmo_copilot.Domain.Service.Creation.{
  create_project-foreign, create_project-own, project_row, project_recorded,
}

-- rows in the order of their insertion
abbrev insertion_order : Collation
insertion_order = record {
  order_by = λ column rows. rows;
  elem_order_by = λ column rows a. (λ m. m, λ m. m);
}

abbrev two_organizations : Tables String
two_organizations = record {
  organizations =
      record { id = 1; name = "Acme"; slug = "acme" }
      ∷ record { id = 2; name = "Beta"; slug = "beta" }
      ∷ [];
  portfolios =
      record { id = 1; organization_id = 1; name = "Core"; code = "C"; fields = "" }
      ∷ record { id = 2; organization_id = 2; name = "Core"; code = "C"; fields = "" }
      ∷ [];
  programs =
      record { id = 1; portfolio_id = 1; name = "Move"; code = "M"; fields = "" }
      ∷ record { id = 2; portfolio_id = 2; name = "Stay"; code = "S"; fields = "" }
      ∷ [];
  projects =
      record { id = 1; organization_id = 1; name = "Pilot"; program_id = some 1; fields = "" } ∷ [];
  next_portfolio = 3;
  next_program = 3;
  next_project = 2;
}

abbrev before : State String
before = record { tables = two_organizations; audit = []; published = [] }

two_organizations-IsConsistent : IsConsistent two_organizations
unfolding organization_of_program
two_organizations-IsConsistent = (refl, tt)

writes-IsConsistent_example :
    ((organization_id : ℕ) (name code fields : String)
      → Ensures After (create_portfolio organization_id name code fields two_organizations))
    × ((portfolio_id : ℕ) (name code fields : String)
        → Ensures After (create_program portfolio_id name code fields two_organizations))
    × ((organization_id program_id : ℕ) (name fields : String)
        → Ensures After
            (create_project_with_domain organization_id program_id name fields two_organizations))
    × ((project_id program_id : ℕ) (set_fields : String → String)
        → Ensures After
            (attach_project_to_program project_id program_id set_fields two_organizations))
writes-IsConsistent_example = writes-IsConsistent two_organizations two_organizations-IsConsistent

abbrev pilot : List (Project String)
pilot =
    record { id = 1; organization_id = 1; name = "Pilot"; program_id = some 1; fields = "" } ∷ []

pilot_listed : Service.list_projects insertion_order 1 (some 1) before ≡ some pilot
unfolding Service.list_projects get_program list_projects_by_program portfolio_in get_portfolio
pilot_listed = refl

list_projects-own_example : All (λ (p : Project String). p.organization_id ≡ 1) pilot
list_projects-own_example =
    list_projects-own insertion_order 1 (some 1) before pilot two_organizations-IsConsistent
      pilot_listed

no_owner : organization_of_program two_organizations 2 ≢ some 1
unfolding organization_of_program
no_owner = cc

create_project-foreign_example :
    Service.create_project 1 2 "New" 7 "c1" "" before ≡ ok (none, before)
create_project-foreign_example = create_project-foreign 1 2 "New" 7 "c1" "" before no_owner

owner_one : organization_of_program two_organizations 1 ≡ some 1
unfolding organization_of_program
owner_one = refl

new_is_free : project_name_taken two_organizations 1 "New" ≡ false
unfolding project_name_taken
new_is_free = refl

create_project-own_example :
    Service.create_project 1 1 "New" 7 "c1" "" before
    ≡ ok (
      some (project_row 2 1 1 "New" ""),
      project_recorded 2 1 1 7 "c1"
          (record two_organizations {
            projects = two_organizations.projects ++ project_row 2 1 1 "New" "" ∷ [];
            next_project = 3;
          })
          before,
    )
create_project-own_example =
    create_project-own 1 1 "New" 7 "c1" "" before (cc) owner_one new_is_free (omega arith, tt)
