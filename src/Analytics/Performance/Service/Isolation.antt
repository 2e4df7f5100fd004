-- ===== src/Analytics/Performance/Service/Isolation.antt =====
-- What the writes to other projects do to the metrics of a project.
use ai_pmo_copilot.Common.{
  ℕ, ◌==◌, String, ◌≡◌, ◌≢◌, refl, ◌∙◌, false, Option, none, some, List, [], ◌∷◌, Result, ok, err,
  Ensures, Ensures-bind, Ensures-or_raise, Ensures-at, All, arith,
}
use ai_pmo_copilot.Domain.Repository.{get_project}
use ai_pmo_copilot.Domain.Tables.{Project}
use ai_pmo_copilot.Analytics.Decimal.{DecimalOps}
use ai_pmo_copilot.Analytics.Performance as Performance
use ai_pmo_copilot.Analytics.Performance.{
  ProjectPerformanceBaseline, ProjectPerformanceSnapshot, PerformanceTables, PerformanceError,
  Columns, baseline_rows, is_baseline_of, captured, is_snapshot_at, is_day_taken,
  get_active_baseline, list_snapshots, rows_of_version, max_of, has_duplicates,
}
use ai_pmo_copilot.Analytics.Performance.Service.{
  Workspace, ProjectColumns, ServiceError, as_raised, create_baseline, create_baseline_for,
  capture_snapshot, capture_snapshot_for, get_evm_summary, get_performance_history, summary_of,
  history_of,
}
use ai_pmo_copilot.Analytics.Performance.Isolation.{
  Adds, nothing_added, get_active_baseline-Adds, list_snapshots-Adds, create_baseline-Adds,
  capture_snapshot-Adds,
}

as_raised-ok : {A : Type 0} (m : Result PerformanceError A) (a : A) → as_raised m ≡ ok a → m ≡ ok a
as_raised-ok (ok b) a e = cc
as_raised-ok (err x) a e = cc

-- What is written: a baseline with its points, or a snapshot of a day.
pub data Write (D : Type 0) : Type 0 where
  new_baseline : D → List (ℕ × D) → Write D
  new_snapshot : ℕ → Write D

-- A request to the service for a project.
pub record Request (D : Type 0) : Type 0 where
  pub organization_id : ℕ
  pub project_id : ℕ
  pub actor_user_id : ℕ
  pub correlation_id : String
  pub write : Write D

module _ (o : DecimalOps) (columns : Columns o.Decimal) {F : Type 0}
    (source : ProjectColumns F o.Decimal) where
  -- what a call leaves; one that raises leaves all as it was
  abbrev left_by :
      {A : Type 0}
      → Workspace F o.Decimal
      → Result ServiceError (A × Workspace F o.Decimal)
      → Workspace F o.Decimal
  left_by w (ok (answer, after)) = after
  left_by w (err e) = w

  abbrev call : Request o.Decimal → Write o.Decimal → Workspace F o.Decimal → Workspace F o.Decimal
  call q (new_baseline bac points) w = left_by w (
      create_baseline o columns q.organization_id q.project_id q.actor_user_id q.correlation_id bac
        points w)
  call q (new_snapshot date) w = left_by w (
      capture_snapshot source q.organization_id q.project_id q.actor_user_id q.correlation_id date
        w)

  abbrev pub calls : List (Request o.Decimal) → Workspace F o.Decimal → Workspace F o.Decimal
  calls [] w = w
  calls (q ∷ qs) w = calls qs (call q q.write w)

  -- The projects stay, and rows of projects other than `project_id` are added.
  abbrev Leaves : ℕ → Workspace F o.Decimal → Workspace F o.Decimal → Type 0
  Leaves project_id w after =
      (after.domain.tables ≡ w.domain.tables) × Adds project_id w.performance after.performance

  abbrev LeavesSnapshot :
      ℕ
      → Workspace F o.Decimal
      → Option (ProjectPerformanceSnapshot o.Decimal) × Workspace F o.Decimal
      → Type 0
  LeavesSnapshot project_id w x = Leaves project_id w x.1

  metrics-Leaves :
      (project_id organization_id as_of : ℕ) (w after : Workspace F o.Decimal)
      → Leaves project_id w after
      → (get_evm_summary o project_id organization_id as_of after
          ≡ get_evm_summary o project_id organization_id as_of w)
        × (get_performance_history o project_id organization_id after
            ≡ get_performance_history o project_id organization_id w)
  unfolding get_evm_summary get_performance_history
  metrics-Leaves project_id g as_of w after (same, adds) =
      let baselines = get_active_baseline-Adds project_id g w.performance after.performance adds in
      let snapshots = list_snapshots-Adds project_id g w.performance after.performance adds in
      rw same (by_project (get_project project_id g w.domain.tables) baselines snapshots)
    where
      by_project :
          (found : Option (Project F))
          → get_active_baseline project_id g after.performance
            ≡ get_active_baseline project_id g w.performance
          → list_snapshots project_id g after.performance
            ≡ list_snapshots project_id g w.performance
          → (summary_of o project_id g as_of after found ≡ summary_of o project_id g as_of w found)
            × (history_of o project_id g after found ≡ history_of o project_id g w found)
      by_project none b s = (refl, refl)
      by_project (some project) b s = (rw (b, s) refl, rw (b, s) refl)

  left_by-Leaves :
      {A : Type 0} (project_id : ℕ) (w : Workspace F o.Decimal)
      (r : Result ServiceError (A × Workspace F o.Decimal))
      → Ensures (λ (x : A × Workspace F o.Decimal). Leaves project_id w x.1) r
      → Leaves project_id w (left_by w r)
  left_by-Leaves project_id w (ok (answer, after)) h = h
  left_by-Leaves project_id w (err e) h = (refl, nothing_added project_id w.performance)

  create_baseline_for-Leaves :
      (project_id organization_id other actor_user_id : ℕ) (correlation_id : String)
      (bac : o.Decimal) (points : List (ℕ × o.Decimal)) (w : Workspace F o.Decimal)
      (found : Option (Project F))
      → (other == project_id) ≡ false
      → Ensures
          (λ (x : Option ℕ × Workspace F o.Decimal). Leaves project_id w x.1)
          (create_baseline_for o columns organization_id other actor_user_id correlation_id bac
            points w found)
  create_baseline_for-Leaves project_id g other actor correlation bac points w none h =
      (refl, nothing_added project_id w.performance)
  create_baseline_for-Leaves project_id g other actor correlation bac points w (some project) h =
      Ensures-bind (λ (x : Option ℕ × Workspace F o.Decimal). Leaves project_id w x.1)
        (as_raised (Performance.create_baseline o columns g other bac points w.performance)) _
        λ r e. (
          refl,
          Ensures-at (λ (x : ℕ × PerformanceTables o.Decimal). Adds project_id w.performance x.1) _
              r (create_baseline-Adds project_id o columns g other bac points w.performance h)
              (as_raised-ok _ r e),
        )

  capture_snapshot_for-Leaves :
      (project_id organization_id other actor_user_id date : ℕ) (correlation_id : String)
      (w : Workspace F o.Decimal) (found : Option (Project F))
      → (other == project_id) ≡ false
      → Ensures (LeavesSnapshot project_id w) (
          capture_snapshot_for source organization_id other actor_user_id correlation_id date w
            found)
  capture_snapshot_for-Leaves project_id g other actor date correlation w none h =
      (refl, nothing_added project_id w.performance)
  capture_snapshot_for-Leaves project_id g other actor date correlation w (some project) h =
      Ensures-or_raise (LeavesSnapshot project_id w) _ (source.actual_cost project.fields) _
        λ cost _.
          Ensures-or_raise (LeavesSnapshot project_id w) _
            (source.progress_percentage project.fields) _
            λ progress _.
              Ensures-bind (LeavesSnapshot project_id w)
                (as_raised (Performance.capture_snapshot g other date cost progress w.performance))
                _
                λ r e. (
                  refl,
                  Ensures-at
                      (λ (x : ProjectPerformanceSnapshot o.Decimal × PerformanceTables o.Decimal).
                        Adds project_id w.performance x.1)
                      _ r
                      (capture_snapshot-Adds project_id g other date cost progress w.performance h)
                      (as_raised-ok _ r e),
                )

  call-Leaves :
      (project_id : ℕ) (q : Request o.Decimal) (write : Write o.Decimal) (w : Workspace F o.Decimal)
      → (q.project_id == project_id) ≡ false
      → Leaves project_id w (call q write w)
  unfolding create_baseline capture_snapshot
  call-Leaves project_id q (new_baseline bac points) w h =
      let found = get_project q.project_id q.organization_id w.domain.tables in
      left_by-Leaves {A = Option ℕ} project_id w
        (create_baseline_for o columns q.organization_id q.project_id q.actor_user_id
          q.correlation_id bac points w found)
        (create_baseline_for-Leaves project_id q.organization_id q.project_id q.actor_user_id
          q.correlation_id bac points w found h)
  call-Leaves project_id q (new_snapshot date) w h =
      let found = get_project q.project_id q.organization_id w.domain.tables in
      left_by-Leaves {A = Option (ProjectPerformanceSnapshot o.Decimal)} project_id w
        (capture_snapshot_for source q.organization_id q.project_id q.actor_user_id q.correlation_id
          date w found)
        (capture_snapshot_for-Leaves project_id q.organization_id q.project_id q.actor_user_id date
          q.correlation_id w found h)

  -- Whatever baselines and snapshots are written to other projects, by whatever calls that return or
  -- raise: the summary of a project on every day and its history, as its organization or any other
  -- gets them, are those of before.
  pub metrics-others :
      (project_id organization_id as_of : ℕ) (qs : List (Request o.Decimal))
      (w : Workspace F o.Decimal)
      → All (λ (q : Request o.Decimal). q.project_id ≢ project_id) qs
      → (get_evm_summary o project_id organization_id as_of (calls qs w)
          ≡ get_evm_summary o project_id organization_id as_of w)
        × (get_performance_history o project_id organization_id (calls qs w)
            ≡ get_performance_history o project_id organization_id w)
  metrics-others project_id g as_of [] w h = (refl, refl)
  metrics-others project_id g as_of (q ∷ qs) w (other, h) =
      let differs : (q.project_id == project_id) ≡ false = ground arith in
      let once =
        metrics-Leaves project_id g as_of w (call q q.write w)
          (call-Leaves project_id q q.write w differs) in
      let rest = metrics-others project_id g as_of qs (call q q.write w) h in
      (rest.0 ∙ once.0, rest.1 ∙ once.1)
