-- ===== src/Domain/Service.antt =====
-- src/services/domain_service.py. The publisher is its interface: the service's state records what
-- it was asked to publish, in order. A payload is the ids that it carries.
pub mod Outcomes
pub mod Creation
use ai_pmo_copilot.Common.{
  ℕ, String, Option, none, some, List, [], ◌∷◌, ◌++◌, Result, ok, err, ◌>>=◌, is_none,
  if◌then◌else◌,
}
use ai_pmo_copilot.Domain.Tables.{Portfolio, Program, Project, Tables, Collation}
use ai_pmo_copilot.Domain.Repository as Repository
use ai_pmo_copilot.Domain.Repository.{DomainError, get_portfolio, get_program, get_project}

-- `record_audit(organization_id, actor_user_id, action, entity_type, entity_id)`
pub record AuditEntry : Type 0 where
  pub organization_id : ℕ
  pub actor_user_id : ℕ
  pub action : String
  pub entity_type : String
  pub entity_id : ℕ

-- `publish(event_type, payload, organization_id, correlation_id, origin)`
pub record Published : Type 0 where
  pub event_type : String
  pub payload : List (String × ℕ)
  pub organization_id : ℕ
  pub correlation_id : String
  pub origin : String

pub record State (F : Type 0) : Type 0 where
  pub tables : Tables F
  pub audit : List AuditEntry
  pub published : List Published

abbrev pub Call : Type 0 → Type 0 → Type 0
Call F A = Result DomainError (A × State F)

abbrev pub created : ℕ → ℕ → String → String → ℕ → AuditEntry
created organization_id actor_user_id action entity_type entity_id = record {
  organization_id = organization_id;
  actor_user_id = actor_user_id;
  action = action;
  entity_type = entity_type;
  entity_id = entity_id;
}

abbrev pub event : String → List (String × ℕ) → ℕ → String → Published
event event_type payload organization_id correlation_id = record {
  event_type = event_type;
  payload = payload;
  organization_id = organization_id;
  correlation_id = correlation_id;
  origin = "domain_service";
}

module _ {F : Type 0} where
  -- the audit entry and the events of a method that has written
  abbrev pub with_records : Tables F → AuditEntry → List Published → State F → State F
  with_records tables entry events s = record {
    tables = tables;
    audit = s.audit ++ entry ∷ [];
    published = s.published ++ events;
  }

  unfoldable pub create_portfolio :
      ℕ → String → String → ℕ → String → F → State F → Call F (Option (Portfolio F))
  create_portfolio organization_id name code actor_user_id correlation_id fields s = do
    (portfolio_id, tables) ← Repository.create_portfolio organization_id name code fields s.tables
    ok (
      get_portfolio portfolio_id organization_id tables,
      with_records tables
          (created organization_id actor_user_id "portfolio.created" "portfolio" portfolio_id)
          (event "portfolio.created" (("portfolio_id", portfolio_id) ∷ []) organization_id
              correlation_id
            ∷ [])
          s,
    )

  unfoldable pub create_program :
      ℕ → ℕ → String → String → ℕ → String → F → State F → Call F (Option (Program F))
  create_program organization_id portfolio_id name code actor_user_id correlation_id fields s =
      if is_none (get_portfolio portfolio_id organization_id s.tables) then ok (none, s) else do
        (program_id, tables) ← Repository.create_program portfolio_id name code fields s.tables
        let payload = ("program_id", program_id) ∷ ("portfolio_id", portfolio_id) ∷ []
        ok (
          get_program program_id organization_id tables,
          with_records tables
              (created organization_id actor_user_id "program.created" "program" program_id)
              (event "program.created" payload organization_id correlation_id
                ∷ event "program.linked_to_portfolio" payload organization_id correlation_id
                ∷ [])
              s,
        )

  unfoldable pub create_project :
      ℕ → ℕ → String → ℕ → String → F → State F → Call F (Option (Project F))
  create_project organization_id program_id name actor_user_id correlation_id fields s =
      if is_none (get_program program_id organization_id s.tables) then ok (none, s) else do
        (project_id, tables) ←
            Repository.create_project_with_domain organization_id program_id name fields s.tables
        let payload = ("project_id", project_id) ∷ ("program_id", program_id) ∷ []
        ok (
          get_project project_id organization_id tables,
          with_records tables
              (created organization_id actor_user_id "project_delivery.created" "project"
                project_id)
              (event "project_delivery.created" payload organization_id correlation_id
                ∷ event "project_delivery.linked_to_program" payload organization_id correlation_id
                ∷ [])
              s,
        )

module _ (db : Collation) {F : Type 0} where
  -- `portfolio_id: int | None`; `None` is the answer where it does not resolve
  unfoldable pub list_programs : ℕ → Option ℕ → State F → Option (List (Program F))
  list_programs organization_id none s =
      some (Repository.list_programs_by_organization db organization_id s.tables)
  list_programs organization_id (some portfolio_id) s =
      if is_none (get_portfolio portfolio_id organization_id s.tables)
      then none
      else some (Repository.list_programs_by_portfolio db portfolio_id s.tables)

  unfoldable pub list_projects : ℕ → Option ℕ → State F → Option (List (Project F))
  list_projects organization_id none s =
      some (Repository.list_projects_by_organization db organization_id s.tables)
  list_projects organization_id (some program_id) s =
      if is_none (get_program program_id organization_id s.tables)
      then none
      else some (Repository.list_projects_by_program db program_id s.tables)
