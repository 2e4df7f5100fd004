-- ===== src/Analytics/Performance.antt =====
-- src/database/performance_repository.py. Dates are their ordinals; an operation that raises has
-- committed nothing.
pub mod Versions
pub mod Baselines
pub mod Snapshots
pub mod Isolation
pub mod Service
use ai_pmo_copilot.Common.{
  ℕ, suc, ◌+◌, Option, none, some, Bool, true, false, ◌&&◌, ◌||◌, List, [], ◌∷◌, ◌++◌, map, Result,
  ok, err, ◌>>=◌, or_raise, ◌==◌, leb, select, any_of, find_first, if◌then◌else◌,
}
use ai_pmo_copilot.Common.Int.{ℤ, pos}
use ai_pmo_copilot.Common.Sorting.{sort_by}
use ai_pmo_copilot.Analytics.Decimal.{DecimalOps}

pub record ProjectPerformanceBaseline (D : Type 0) : Type 0 where
  pub organization_id : ℕ
  pub project_id : ℕ
  pub baseline_version : ℕ
  pub period_date : ℕ
  pub planned_progress_percentage : D
  pub planned_value : D
  pub bac_reference : D

pub record ProjectPerformanceSnapshot (D : Type 0) : Type 0 where
  pub organization_id : ℕ
  pub project_id : ℕ
  pub snapshot_date : ℕ
  pub actual_cost : D
  pub progress_percentage : ℤ

pub record PerformanceTables (D : Type 0) : Type 0 where
  pub baselines : List (ProjectPerformanceBaseline D)
  pub snapshots : List (ProjectPerformanceSnapshot D)

-- a division of Decimal that raises, and the `IntegrityError` of a unique constraint
pub data PerformanceError : Type 0 where
  division_by_zero integrity : PerformanceError

-- `func.max`
unfoldable pub max_of : List ℕ → Option ℕ
max_of [] = none
max_of (n ∷ ns) = elim (max_of ns) [ none ↦ some n | some m ↦ some (if leb n m then m else n) ]

abbrev pub next_version : Option ℕ → ℕ
next_version none = 1
next_version (some current_max) = current_max + 1

abbrev pub has_duplicates : List ℕ → Bool
has_duplicates [] = false
has_duplicates (n ∷ ns) = any_of (λ m. m == n) ns || has_duplicates ns

-- What the columns Numeric(14, 2) and Numeric(5, 2) keep of a number.
pub record Columns (D : Type 0) : Type 0 where
  pub money : D → D
  pub percentage : D → D

module _ (o : DecimalOps) (columns : Columns o.Decimal) where
  open o use {Decimal, of_int, mul, div}

  abbrev pub row_of_point :
      ℕ → ℕ → Decimal → ℕ → ℕ × Decimal → Decimal → ProjectPerformanceBaseline Decimal
  row_of_point organization_id project_id bac_reference version (date, progress) planned_value =
      record {
        organization_id = organization_id;
        project_id = project_id;
        baseline_version = version;
        period_date = date;
        planned_progress_percentage = columns.percentage progress;
        planned_value = columns.money planned_value;
        bac_reference = columns.money bac_reference;
      }

  -- the loop over the points
  unfoldable pub baseline_rows :
      ℕ
      → ℕ
      → Decimal
      → ℕ
      → List (ℕ × Decimal)
      → Result PerformanceError (List (ProjectPerformanceBaseline Decimal))
  baseline_rows organization_id project_id bac_reference version [] = ok []
  baseline_rows organization_id project_id bac_reference version (point ∷ points) = do
    planned_value ← or_raise division_by_zero (div (mul bac_reference point.1) (of_int (pos 100)))
    rows ← baseline_rows organization_id project_id bac_reference version points
    ok (row_of_point organization_id project_id bac_reference version point planned_value ∷ rows)

  unfoldable pub create_baseline :
      ℕ
      → ℕ
      → Decimal
      → List (ℕ × Decimal)
      → PerformanceTables Decimal
      → Result PerformanceError (ℕ × PerformanceTables Decimal)
  create_baseline organization_id project_id bac_reference points t =
      let version : ℕ = next_version (
        max_of (
          map (λ (r : ProjectPerformanceBaseline Decimal). r.baseline_version)
            (select (λ (r : ProjectPerformanceBaseline Decimal). r.project_id == project_id)
              t.baselines))) in
      if has_duplicates (map (λ (p : ℕ × Decimal). p.0) points) then err integrity else do
        rows ← baseline_rows organization_id project_id bac_reference version points
        ok (version, record t { baselines = t.baselines ++ rows })

module _ {D : Type 0} where
  abbrev pub is_baseline_of : ℕ → ℕ → ProjectPerformanceBaseline D → Bool
  is_baseline_of project_id organization_id r =
      r.project_id == project_id && r.organization_id == organization_id

  abbrev pub rows_of_version :
      ℕ → ℕ → PerformanceTables D → Option ℕ → List (ProjectPerformanceBaseline D)
  rows_of_version project_id organization_id t none = []
  rows_of_version project_id organization_id t (some current_max) =
      sort_by (λ (r : ProjectPerformanceBaseline D). r.period_date)
        (select
          (λ (r : ProjectPerformanceBaseline D).
            is_baseline_of project_id organization_id r && r.baseline_version == current_max)
          t.baselines)

  unfoldable pub get_active_baseline :
      ℕ → ℕ → PerformanceTables D → List (ProjectPerformanceBaseline D)
  get_active_baseline project_id organization_id t = rows_of_version project_id organization_id t (
      max_of (
        map (λ (r : ProjectPerformanceBaseline D). r.baseline_version)
          (select (is_baseline_of project_id organization_id) t.baselines)))

  abbrev pub is_snapshot_at : ℕ → ℕ → ℕ → ProjectPerformanceSnapshot D → Bool
  is_snapshot_at project_id organization_id date r =
      r.project_id == project_id && r.organization_id == organization_id && r.snapshot_date == date

  -- uq_performance_snapshot_project_date
  abbrev pub is_day_taken : ProjectPerformanceSnapshot D → PerformanceTables D → Bool
  is_day_taken snapshot t =
      any_of
        (λ (r : ProjectPerformanceSnapshot D).
          r.project_id == snapshot.project_id && r.snapshot_date == snapshot.snapshot_date)
        t.snapshots

  -- the row that is there, or a new one
  abbrev pub captured :
      ProjectPerformanceSnapshot D
      → PerformanceTables D
      → Option (ProjectPerformanceSnapshot D)
      → Result PerformanceError (ProjectPerformanceSnapshot D × PerformanceTables D)
  captured snapshot t (some existing) = ok (existing, t)
  captured snapshot t none =
      if is_day_taken snapshot t
      then err integrity
      else ok (snapshot, record t { snapshots = t.snapshots ++ snapshot ∷ [] })

  -- `cost` is the value as the column keeps it
  unfoldable pub capture_snapshot :
      ℕ
      → ℕ
      → ℕ
      → D
      → ℤ
      → PerformanceTables D
      → Result PerformanceError (ProjectPerformanceSnapshot D × PerformanceTables D)
  capture_snapshot organization_id project_id date cost progress t =
      captured
        (record {
          organization_id = organization_id;
          project_id = project_id;
          snapshot_date = date;
          actual_cost = cost;
          progress_percentage = progress;
        })
        t (find_first (is_snapshot_at project_id organization_id date) t.snapshots)

  unfoldable pub list_snapshots : ℕ → ℕ → PerformanceTables D → List (ProjectPerformanceSnapshot D)
  list_snapshots project_id organization_id t =
      sort_by (λ (r : ProjectPerformanceSnapshot D). r.snapshot_date)
        (select
          (λ (r : ProjectPerformanceSnapshot D).
            r.project_id == project_id && r.organization_id == organization_id)
          t.snapshots)
