-- ===== src/Analytics/Metrics.antt =====
-- src/services/executive_analytics/metrics_engine.py: the EVM metrics of one project.
-- Dates are their ordinals (`date.toordinal`), so `<` on dates is `<` on numbers.
pub mod History
pub mod Totality
pub mod PlannedValue
use ai_pmo_copilot.Common.{
  ℕ, Option, none, some, List, [], ◌∷◌, Result, ok, err, ◌>>=◌, or_raise, ltb, leb, if◌then◌else◌,
  select, last_of_list,
}
use ai_pmo_copilot.Common.Int.{ℤ, pos}
use ai_pmo_copilot.Common.Sorting.{sort_by}
use ai_pmo_copilot.Analytics.Decimal.{DecimalOps}

-- The reason codes.
pub data Reason : Type 0 where
  no_baseline_defined before_baseline_start after_baseline_end no_snapshot_captured : Reason
  zero_actual_cost zero_planned_value zero_cost_performance_index : Reason

-- What the Python code could raise: `ValueError` of `MetricValue.__post_init__`, an `IndexError`,
-- and a division by zero.
pub data MetricError : Type 0 where
  no_value_needs_reason value_with_reason index_error division_by_zero : MetricError

pub record BaselinePoint (D : Type 0) : Type 0 where
  pub period_date : ℕ
  pub planned_value : D
  pub bac_reference : D

pub record PerformanceSnapshotPoint (D : Type 0) : Type 0 where
  pub snapshot_date : ℕ
  pub actual_cost : D
  pub progress_percentage : ℤ

pub record MetricValue (D : Type 0) : Type 0 where
  pub value : Option D
  pub reason : Option Reason

pub record EvmSummary (D : Type 0) : Type 0 where
  pub bac : MetricValue D
  pub pv : MetricValue D
  pub ev : MetricValue D
  pub ac : MetricValue D
  pub cpi : MetricValue D
  pub spi : MetricValue D
  pub cv : MetricValue D
  pub sv : MetricValue D
  pub eac : MetricValue D
  pub etc : MetricValue D
  pub vac : MetricValue D

pub record HistoryPoint (D : Type 0) : Type 0 where
  pub as_of : ℕ
  pub pv : MetricValue D
  pub ev : MetricValue D
  pub ac : MetricValue D

abbrev pub Outcome : Type 0 → Type 0
Outcome A = Result MetricError A

module _ {D : Type 0} where
  -- `MetricValue(value=..., reason=...)` with the checks of `__post_init__`.
  unfoldable pub metric_value : Option D → Option Reason → Outcome (MetricValue D)
  metric_value none none = err no_value_needs_reason
  metric_value (some v) (some r) = err value_with_reason
  metric_value none (some r) = ok (record { value = none; reason = some r })
  metric_value (some v) none = ok (record { value = some v; reason = none })

  unfoldable pub present : D → Outcome (MetricValue D)
  unfolding metric_value
  present v = metric_value (some v) none

  unfoldable pub na : Option Reason → Outcome (MetricValue D)
  unfolding metric_value
  na r = metric_value none r

  -- the last point at or before `as_of`, of an ordered baseline
  covered_value : List (BaselinePoint D) → ℕ → Outcome (MetricValue D)
  unfolding present
  covered_value ordered as_of = do
    point ←
        or_raise index_error
          (last_of_list (select (λ (p : BaselinePoint D). leb p.period_date as_of) ordered))
    present point.planned_value

  value_in_order : List (BaselinePoint D) → ℕ → Outcome (MetricValue D)
  unfolding na covered_value
  value_in_order [] as_of = err index_error
  value_in_order (first ∷ rest) as_of =
      if ltb as_of first.period_date then na (some before_baseline_start) else do
        last ← or_raise index_error (last_of_list (first ∷ rest))
        if ltb last.period_date as_of
            then na (some after_baseline_end)
            else covered_value (first ∷ rest) as_of

  -- `_planned_value_at`
  unfoldable pub planned_value_at : List (BaselinePoint D) → ℕ → Outcome (MetricValue D)
  unfolding na value_in_order
  planned_value_at [] as_of = na (some no_baseline_defined)
  planned_value_at (b ∷ bs) as_of =
      value_in_order (sort_by (λ (p : BaselinePoint D). p.period_date) (b ∷ bs)) as_of

  -- `max(xs, key=...)` returns the first of the largest elements.
  abbrev pub latest_of :
      PerformanceSnapshotPoint D → List (PerformanceSnapshotPoint D) → PerformanceSnapshotPoint D
  latest_of best [] = best
  latest_of best (s ∷ ss) =
      latest_of (if ltb best.snapshot_date s.snapshot_date then s else best) ss

  abbrev pub latest : List (PerformanceSnapshotPoint D) → Option (PerformanceSnapshotPoint D)
  latest [] = none
  latest (s ∷ ss) = some (latest_of s ss)

  -- `_latest_snapshot_at`
  unfoldable pub latest_snapshot_at :
      List (PerformanceSnapshotPoint D) → ℕ → Option (PerformanceSnapshotPoint D)
  latest_snapshot_at snapshots as_of =
      latest (select (λ (s : PerformanceSnapshotPoint D). leb s.snapshot_date as_of) snapshots)

  -- the `bac = ...` of `compute_evm_summary`
  unfoldable pub bac_of : List (BaselinePoint D) → Outcome (MetricValue D)
  unfolding present na
  bac_of [] = na (some no_baseline_defined)
  bac_of (b ∷ bs) = present b.bac_reference

  -- the `ac = ...` of `compute_evm_summary`
  unfoldable pub ac_of : Option (PerformanceSnapshotPoint D) → Outcome (MetricValue D)
  unfolding present na
  ac_of none = na (some no_snapshot_captured)
  ac_of (some s) = present s.actual_cost

module _ (o : DecimalOps) where
  open o use {Decimal, of_int, add, sub, mul, div, eqb}

  abbrev divide : Decimal → Decimal → Outcome Decimal
  divide a b = or_raise division_by_zero (div a b)

  ev_from :
      Option Decimal
      → Option Reason
      → Option (PerformanceSnapshotPoint Decimal)
      → Outcome (MetricValue Decimal)
  unfolding present na
  ev_from none reason snapshot = na reason
  ev_from (some bac) reason none = na (some no_snapshot_captured)
  ev_from (some bac) reason (some s) = do
    ev ← divide (mul bac (of_int s.progress_percentage)) (of_int (pos 100))
    present ev

  -- the `ev = ...` of `compute_evm_summary`
  unfoldable pub ev_of :
      MetricValue Decimal
      → Option (PerformanceSnapshotPoint Decimal)
      → Outcome (MetricValue Decimal)
  unfolding ev_from
  ev_of bac snapshot = ev_from bac.value bac.reason snapshot

  ratio_from :
      Option Decimal
      → Option Decimal
      → Option Reason
      → Option Reason
      → Reason
      → Outcome (MetricValue Decimal)
  unfolding present na
  ratio_from none den num_reason den_reason zero_reason = na num_reason
  ratio_from (some n) none num_reason den_reason zero_reason = na den_reason
  ratio_from (some n) (some d) num_reason den_reason zero_reason =
      if eqb d (of_int (pos 0)) then na (some zero_reason) else do q ← divide n d; present q

  -- `_ratio`
  unfoldable pub ratio :
      MetricValue Decimal → MetricValue Decimal → Reason → Outcome (MetricValue Decimal)
  unfolding ratio_from
  ratio num den zero_reason = ratio_from num.value den.value num.reason den.reason zero_reason

  difference_from :
      Option Decimal
      → Option Decimal
      → Option Reason
      → Option Reason
      → Outcome (MetricValue Decimal)
  unfolding present na
  difference_from none s m_reason s_reason = na m_reason
  difference_from (some m) none m_reason s_reason = na s_reason
  difference_from (some m) (some s) m_reason s_reason = present (sub m s)

  -- `_difference`
  unfoldable pub difference :
      MetricValue Decimal → MetricValue Decimal → Outcome (MetricValue Decimal)
  unfolding difference_from
  difference m s = difference_from m.value s.value m.reason s.reason

  eac_from :
      Option Decimal
      → Option Decimal
      → Option Decimal
      → Option Decimal
      → Option Reason
      → Option Reason
      → Option Reason
      → Option Reason
      → Outcome (MetricValue Decimal)
  unfolding present na
  eac_from none bac ev cpi r_ac r_bac r_ev r_cpi = na r_ac
  eac_from (some ac) none ev cpi r_ac r_bac r_ev r_cpi = na r_bac
  eac_from (some ac) (some bac) none cpi r_ac r_bac r_ev r_cpi = na r_ev
  eac_from (some ac) (some bac) (some ev) none r_ac r_bac r_ev r_cpi = na r_cpi
  eac_from (some ac) (some bac) (some ev) (some cpi) r_ac r_bac r_ev r_cpi =
      if eqb cpi (of_int (pos 0))
      then na (some zero_cost_performance_index)
      else do rest ← divide (sub bac ev) cpi; present (add ac rest)

  -- `_estimate_at_completion`
  unfoldable pub estimate_at_completion :
      MetricValue Decimal
      → MetricValue Decimal
      → MetricValue Decimal
      → MetricValue Decimal
      → Outcome (MetricValue Decimal)
  unfolding eac_from
  estimate_at_completion ac bac ev cpi =
      eac_from ac.value bac.value ev.value cpi.value ac.reason bac.reason ev.reason cpi.reason

  unfoldable pub compute_evm_summary :
      List (BaselinePoint Decimal)
      → List (PerformanceSnapshotPoint Decimal)
      → ℕ
      → Outcome (EvmSummary Decimal)
  compute_evm_summary baseline snapshots as_of = do
    bac ← bac_of baseline
    pv ← planned_value_at baseline as_of
    let snapshot = latest_snapshot_at snapshots as_of
    ac ← ac_of snapshot
    ev ← ev_of bac snapshot
    cpi ← ratio ev ac zero_actual_cost
    spi ← ratio ev pv zero_planned_value
    cv ← difference ev ac
    sv ← difference ev pv
    eac ← estimate_at_completion ac bac ev cpi
    etc ← difference eac ac
    vac ← difference bac eac
    ok (record {
      bac = bac;
      pv = pv;
      ev = ev;
      ac = ac;
      cpi = cpi;
      spi = spi;
      cv = cv;
      sv = sv;
      eac = eac;
      etc = etc;
      vac = vac;
    })

  unfoldable pub history_point :
      List (BaselinePoint Decimal)
      → List (PerformanceSnapshotPoint Decimal)
      → ℕ
      → Outcome (HistoryPoint Decimal)
  history_point baseline snapshots day = do
    summary ← compute_evm_summary baseline snapshots day
    ok (record { as_of = day; pv = summary.pv; ev = summary.ev; ac = summary.ac })

  -- the loop of `build_history_series`
  unfoldable pub history_points :
      List (BaselinePoint Decimal)
      → List (PerformanceSnapshotPoint Decimal)
      → List (PerformanceSnapshotPoint Decimal)
      → Outcome (List (HistoryPoint Decimal))
  history_points baseline snapshots [] = ok []
  history_points baseline snapshots (s ∷ ss) = do
    point ← history_point baseline snapshots s.snapshot_date
    points ← history_points baseline snapshots ss
    ok (point ∷ points)

  unfoldable pub build_history_series :
      List (BaselinePoint Decimal)
      → List (PerformanceSnapshotPoint Decimal)
      → Outcome (List (HistoryPoint Decimal))
  build_history_series baseline snapshots =
      history_points baseline snapshots
        (sort_by (λ (s : PerformanceSnapshotPoint Decimal). s.snapshot_date) snapshots)
