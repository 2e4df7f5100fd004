-- ===== src/Domain/Tables.antt =====
-- The tables of the Enterprise Domain (src/database/models.py). `F` stands for the columns that a
-- caller gives in `**fields`, which the code stores and does not read here.
use ai_pmo_copilot.Common.{ℕ, String, Option, List, ◌==◌, find_first, IsElem, ◌↔◌}

pub record Organization : Type 0 where
  pub id : ℕ
  pub name : String
  pub slug : String

pub record Portfolio (F : Type 0) : Type 0 where
  pub id : ℕ
  pub organization_id : ℕ
  pub name : String
  pub code : String
  pub fields : F

pub record Program (F : Type 0) : Type 0 where
  pub id : ℕ
  pub portfolio_id : ℕ
  pub name : String
  pub code : String
  pub fields : F

pub record Project (F : Type 0) : Type 0 where
  pub id : ℕ
  pub organization_id : ℕ
  pub name : String
  pub program_id : Option ℕ
  pub fields : F

-- `next_*` are the sequences of the primary keys.
pub record Tables (F : Type 0) : Type 0 where
  pub organizations : List Organization
  pub portfolios : List (Portfolio F)
  pub programs : List (Program F)
  pub projects : List (Project F)
  pub next_portfolio : ℕ
  pub next_program : ℕ
  pub next_project : ℕ

-- `ORDER BY` of the database on a text column: the rows of the query, in an order of its own.
pub record Collation : Type 1 where
  pub order_by : {A : Type 0} → (A → String) → List A → List A
  pub elem_order_by :
      {A : Type 0} (column : A → String) (rows : List A) (a : A)
      → IsElem a (order_by column rows) ↔ IsElem a rows

module _ {F : Type 0} where
  -- `session.get(Model, id)`
  abbrev pub organization_at : Tables F → ℕ → Option Organization
  organization_at t i = find_first (λ (o : Organization). o.id == i) t.organizations

  abbrev pub portfolio_at : Tables F → ℕ → Option (Portfolio F)
  portfolio_at t i = find_first (λ (p : Portfolio F). p.id == i) t.portfolios

  abbrev pub program_at : Tables F → ℕ → Option (Program F)
  program_at t i = find_first (λ (p : Program F). p.id == i) t.programs

  abbrev pub project_at : Tables F → ℕ → Option (Project F)
  project_at t i = find_first (λ (p : Project F). p.id == i) t.projects
