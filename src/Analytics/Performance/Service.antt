-- ===== src/Analytics/Performance/Service.antt =====
-- src/services/executive_analytics/performance_service.py, over the project of Domain and the rows of
-- Performance. The columns of a project that a capture copies are read out of its fields.
pub mod Isolation
use ai_pmo_copilot.Common.{
  ℕ, String, Option, none, some, List, [], ◌∷◌, ◌++◌, map, Result, ok, err, ◌>>=◌, or_raise, ◌≡◌,
  refl, Returns, Option-cases, inl, inr, Bool, true, false,
}
use ai_pmo_copilot.Common.Int.{ℤ}
use ai_pmo_copilot.Domain.Tables.{Tables, Project}
use ai_pmo_copilot.Domain.Repository.{get_project}
use ai_pmo_copilot.Domain.Service.{State, Published, created}
use ai_pmo_copilot.Analytics.Decimal.{DecimalOps, DecimalLaws}
use ai_pmo_copilot.Analytics.Metrics.{
  BaselinePoint, PerformanceSnapshotPoint, EvmSummary, HistoryPoint, MetricError,
  compute_evm_summary, build_history_series,
}
use ai_pmo_copilot.Analytics.Metrics.Totality.{IsSummary, compute_evm_summary_total}
use ai_pmo_copilot.Analytics.Performance as Performance
use ai_pmo_copilot.Analytics.Performance.{
  ProjectPerformanceBaseline, ProjectPerformanceSnapshot, PerformanceTables, PerformanceError,
  Columns, get_active_baseline, list_snapshots,
}

-- `publish(...)` of this service
abbrev pub performance_event : String → List (String × ℕ) → ℕ → String → Published
performance_event event_type payload organization_id correlation_id = record {
  event_type = event_type;
  payload = payload;
  organization_id = organization_id;
  correlation_id = correlation_id;
  origin = "performance_service";
}

-- What the repository raises, and the two `ValueError`s of a capture.
pub data ServiceError : Type 0 where
  raised : PerformanceError → ServiceError
  actual_cost_missing progress_percentage_missing : ServiceError

-- `actual_cost` and `progress_percentage` of a project
pub record ProjectColumns (F D : Type 0) : Type 0 where
  pub actual_cost : F → Option D
  pub progress_percentage : F → Option ℤ

-- The state of the domain, with its audit and its events, and the rows of Performance.
pub record Workspace (F D : Type 0) : Type 0 where
  pub domain : State F
  pub performance : PerformanceTables D

abbrev pub as_raised : {A : Type 0} → Result PerformanceError A → Result ServiceError A
as_raised (ok a) = ok a
as_raised (err e) = err (raised e)

module _ {F D : Type 0} where
  -- the audit entry and the event of a write
  abbrev pub with_write :
      String
      → List (String × ℕ)
      → ℕ
      → ℕ
      → ℕ
      → String
      → PerformanceTables D
      → Workspace F D
      → Workspace F D
  with_write action payload organization_id project_id actor_user_id correlation_id tables w =
      record {
        domain = record w.domain {
          audit =
              w.domain.audit
              ++ created organization_id actor_user_id action "project" project_id ∷ [];
          published =
              w.domain.published
              ++ performance_event action payload organization_id correlation_id ∷ [];
        };
        performance = tables;
      }

  -- for the project that `get_project` finds, with the columns that a capture copies
  abbrev pub capture_snapshot_for :
      ProjectColumns F D
      → ℕ
      → ℕ
      → ℕ
      → String
      → ℕ
      → Workspace F D
      → Option (Project F)
      → Result ServiceError (Option (ProjectPerformanceSnapshot D) × Workspace F D)
  capture_snapshot_for columns organization_id project_id actor_user_id correlation_id date w none =
      ok (none, w)
  capture_snapshot_for columns organization_id project_id actor_user_id correlation_id date w
        (some project) =
      do
        cost ← or_raise actual_cost_missing (columns.actual_cost project.fields)
        progress ← or_raise progress_percentage_missing (columns.progress_percentage project.fields)
        (snapshot, tables) ← as_raised (
            Performance.capture_snapshot organization_id project_id date cost progress
              w.performance)
        ok (
          some snapshot,
          with_write "project_performance_snapshot.captured"
              (("project_id", project_id) ∷ ("snapshot_date", date) ∷ []) organization_id project_id
              actor_user_id correlation_id tables w,
        )

  unfoldable pub capture_snapshot :
      ProjectColumns F D
      → ℕ
      → ℕ
      → ℕ
      → String
      → ℕ
      → Workspace F D
      → Result ServiceError (Option (ProjectPerformanceSnapshot D) × Workspace F D)
  capture_snapshot columns organization_id project_id actor_user_id correlation_id date w =
      capture_snapshot_for columns organization_id project_id actor_user_id correlation_id date w
        (get_project project_id organization_id w.domain.tables)

module _ {D : Type 0} where
  -- `_load_series`
  abbrev pub baseline_series : ℕ → ℕ → PerformanceTables D → List (BaselinePoint D)
  baseline_series project_id organization_id t =
      map
        (λ (r : ProjectPerformanceBaseline D). record {
          period_date = r.period_date;
          planned_value = r.planned_value;
          bac_reference = r.bac_reference;
        })
        (get_active_baseline project_id organization_id t)

  abbrev pub snapshot_series : ℕ → ℕ → PerformanceTables D → List (PerformanceSnapshotPoint D)
  snapshot_series project_id organization_id t =
      map
        (λ (r : ProjectPerformanceSnapshot D). record {
          snapshot_date = r.snapshot_date;
          actual_cost = r.actual_cost;
          progress_percentage = r.progress_percentage;
        })
        (list_snapshots project_id organization_id t)

module _ (o : DecimalOps) (columns : Columns o.Decimal) {F : Type 0} where
  -- for the project that `get_project` finds
  abbrev pub create_baseline_for :
      ℕ
      → ℕ
      → ℕ
      → String
      → o.Decimal
      → List (ℕ × o.Decimal)
      → Workspace F o.Decimal
      → Option (Project F)
      → Result ServiceError (Option ℕ × Workspace F o.Decimal)
  create_baseline_for organization_id project_id actor_user_id correlation_id bac points w none =
      ok (none, w)
  create_baseline_for organization_id project_id actor_user_id correlation_id bac points w
        (some project) =
      do
        (version, tables) ← as_raised (
            Performance.create_baseline o columns organization_id project_id bac points
              w.performance)
        ok (
          some version,
          with_write "project_performance_baseline.created"
              (("project_id", project_id)
                ∷ ("baseline_version", version)
                ∷ ("actor_user_id", actor_user_id)
                ∷ [])
              organization_id project_id actor_user_id correlation_id tables w,
        )

  unfoldable pub create_baseline :
      ℕ
      → ℕ
      → ℕ
      → String
      → o.Decimal
      → List (ℕ × o.Decimal)
      → Workspace F o.Decimal
      → Result ServiceError (Option ℕ × Workspace F o.Decimal)
  create_baseline organization_id project_id actor_user_id correlation_id bac points w =
      create_baseline_for organization_id project_id actor_user_id correlation_id bac points w
        (get_project project_id organization_id w.domain.tables)

module _ (o : DecimalOps) {F : Type 0} where
  abbrev pub summary_of :
      ℕ
      → ℕ
      → ℕ
      → Workspace F o.Decimal
      → Option (Project F)
      → Result MetricError (Option (EvmSummary o.Decimal))
  summary_of project_id organization_id as_of w none = ok none
  summary_of project_id organization_id as_of w (some project) = do
    summary ←
        compute_evm_summary o (baseline_series project_id organization_id w.performance)
          (snapshot_series project_id organization_id w.performance) as_of
    ok (some summary)

  unfoldable pub get_evm_summary :
      ℕ → ℕ → ℕ → Workspace F o.Decimal → Result MetricError (Option (EvmSummary o.Decimal))
  get_evm_summary project_id organization_id as_of w =
      summary_of project_id organization_id as_of w
        (get_project project_id organization_id w.domain.tables)

  abbrev pub history_of :
      ℕ
      → ℕ
      → Workspace F o.Decimal
      → Option (Project F)
      → Result MetricError (Option (List (HistoryPoint o.Decimal)))
  history_of project_id organization_id w none = ok none
  history_of project_id organization_id w (some project) = do
    series ←
        build_history_series o (baseline_series project_id organization_id w.performance)
          (snapshot_series project_id organization_id w.performance)
    ok (some series)

  unfoldable pub get_performance_history :
      ℕ → ℕ → Workspace F o.Decimal → Result MetricError (Option (List (HistoryPoint o.Decimal)))
  get_performance_history project_id organization_id w =
      history_of project_id organization_id w
        (get_project project_id organization_id w.domain.tables)
