-- ===== src/Examples/Performance.antt =====
-- Baselines and snapshots of one project, over whole non-negative numbers for its decimals:
-- src/database/performance_repository.py and
-- src/services/executive_analytics/performance_service.py.
use ai_pmo_copilot.Common.{
  arith, ℕ, ◌+◌, ◌-◌, ◌*◌, ◌≡◌, ◌≢◌, refl, false, Option, none, some, List, [], ◌∷◌, ok, Returns,
  ltb, leb, ◌==◌, if◌then◌else◌,
}
use Prim.Native.Nat.{◌/◌}
use ai_pmo_copilot.Common.Int.{ℤ, pos, negsuc}
use ai_pmo_copilot.Domain.Tables.{Project}
use ai_pmo_copilot.Analytics.Decimal.{DecimalOps, DecimalLaws}
use ai_pmo_copilot.Analytics.Performance.{
  Columns, ProjectPerformanceBaseline, ProjectPerformanceSnapshot, PerformanceTables,
  create_baseline, capture_snapshot,
}
use ai_pmo_copilot.Analytics.Performance.Baselines.{IsNewBaseline, create_baseline-IsNewBaseline}
use ai_pmo_copilot.Analytics.Performance.Snapshots.{Capture, call, calls, call-first}
use ai_pmo_copilot.Analytics.Performance.Service.{
  Workspace, ProjectColumns, get_evm_summary, get_performance_history,
}
use ai_pmo_copilot.Analytics.Performance.Service.Isolation.{
  Request, new_baseline, new_snapshot, calls as service_calls, metrics-others,
}

abbrev whole : ℤ → ℕ
whole (pos n) = n
whole (negsuc n) = 0

abbrev divided : ℕ → ℕ → Option ℕ
divided a b = if b == 0 then none else some (a / b)

abbrev numbers : DecimalOps
numbers = record {
  Decimal = ℕ;
  of_int = whole;
  add = λ a b. a + b;
  sub = λ a b. a - b;
  mul = λ a b. a * b;
  div = divided;
  abs = λ a. a;
  eqb = λ a b. a == b;
  ltb_d = ltb;
  leb_d = leb;
  literal = λ a b. a;
}

divided_defined : (a b : ℕ) → (b == 0) ≡ false → divided a b ≢ none
divided_defined a b h = rw h (cc)

number_laws : DecimalLaws numbers
number_laws = record { div_defined = divided_defined; hundred_ne_zero = refl }

abbrev kept : Columns ℕ
kept = record { money = λ d. d; percentage = λ d. d }

-- the first version of a baseline, for the whole budget of 400
abbrev first_version : ProjectPerformanceBaseline ℕ
first_version = record {
  organization_id = 1;
  project_id = 7;
  baseline_version = 1;
  period_date = 10;
  planned_progress_percentage = 25;
  planned_value = 100;
  bac_reference = 400;
}

abbrev on_day : ℕ → ℕ → ProjectPerformanceSnapshot ℕ
on_day day cost = record {
  organization_id = 1;
  project_id = 7;
  snapshot_date = day;
  actual_cost = cost;
  progress_percentage = pos 30;
}

abbrev tables : PerformanceTables ℕ
tables = record { baselines = first_version ∷ []; snapshots = on_day 12 80 ∷ [] }

-- the points of the next version, not in the order of their days
abbrev replanned : List (ℕ × ℕ)
replanned = (20, 60) ∷ (15, 30) ∷ []

create_baseline-IsNewBaseline_example :
    Returns
      (IsNewBaseline numbers kept 1 7 500 replanned tables)
      (create_baseline numbers kept 1 7 500 replanned tables)
create_baseline-IsNewBaseline_example =
    create_baseline-IsNewBaseline numbers number_laws kept 1 7 500 (20, 60) ((15, 30) ∷ []) tables
      refl

abbrev capture : ℕ → ℕ → Capture ℕ
capture day cost = record {
  organization_id = 1;
  project_id = 7;
  date = day;
  cost = cost;
  progress = pos 30;
}

abbrev after_first : PerformanceTables ℕ
after_first = record tables { snapshots = on_day 12 80 ∷ on_day 13 90 ∷ [] }

first_captured : call (capture 13 90) tables ≡ ok (on_day 13 90, after_first)
unfolding capture_snapshot
first_captured = refl

call-first_example :
    call (capture 13 95) (calls (capture 14 99 ∷ []) after_first)
    ≡ ok (on_day 13 90, calls (capture 14 99 ∷ []) after_first)
call-first_example =
    call-first (capture 13 90) (capture 14 99 ∷ []) 95 (pos 30) tables after_first (on_day 13 90)
      first_captured

abbrev project : Project ℕ
project = record { id = 7; organization_id = 1; name = "Rollout"; program_id = some 2; fields = 0 }

abbrev another : Project ℕ
another = record { id = 8; organization_id = 1; name = "Audit"; program_id = some 2; fields = 50 }

abbrev workspace : Workspace ℕ ℕ
workspace = record {
  domain = record {
    tables = record {
      organizations = [];
      portfolios = [];
      programs = [];
      projects = project ∷ another ∷ [];
      next_portfolio = 1;
      next_program = 1;
      next_project = 9;
    };
    audit = [];
    published = [];
  };
  performance = tables;
}

abbrev read_fields : ProjectColumns ℕ ℕ
read_fields = record {
  actual_cost = λ cost. some cost;
  progress_percentage = λ cost. some (pos 40);
}

-- two writes to the project 8
abbrev to_another : List (Request ℕ)
to_another =
    record {
      organization_id = 1;
      project_id = 8;
      actor_user_id = 3;
      correlation_id = "c1";
      write = new_baseline 900 replanned;
    }
    ∷ record {
      organization_id = 1;
      project_id = 8;
      actor_user_id = 3;
      correlation_id = "c2";
      write = new_snapshot 14;
    }
    ∷ []

metrics-others_example :
    (get_evm_summary numbers 7 1 15 (service_calls numbers kept read_fields to_another workspace)
      ≡ get_evm_summary numbers 7 1 15 workspace)
    × (get_performance_history numbers 7 1
          (service_calls numbers kept read_fields to_another workspace)
        ≡ get_performance_history numbers 7 1 workspace)
metrics-others_example =
    metrics-others numbers kept read_fields 7 1 15 to_another workspace
      (omega arith, (omega arith, tt))
