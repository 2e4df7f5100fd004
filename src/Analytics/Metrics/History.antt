-- ===== src/Analytics/Metrics/History.antt =====
-- The S-curve: one point for each captured snapshot, which later captures do not change.
use ai_pmo_copilot.Common.{
  ℕ, ◌≤◌, ◌<◌, ◌≡◌, refl, List, [], ◌∷◌, ◌++◌, ok, ◌>>=◌, Returns, Returns-bind, Returns-ok, map,
  leb, select-append_none, All, All-imp, arith,
}
use ai_pmo_copilot.Common.Sorting.{
  sort_by, IsSortedBy, sort_by-IsSortedBy, All-sort_by, sort_by-append_last,
}
use ai_pmo_copilot.Analytics.Decimal.{DecimalOps, DecimalLaws}
use ai_pmo_copilot.Analytics.Metrics.{
  BaselinePoint, PerformanceSnapshotPoint, HistoryPoint, latest_snapshot_at, compute_evm_summary,
  history_point, history_points, build_history_series,
}
use ai_pmo_copilot.Analytics.Metrics.Totality.{IsMetric, IsSummary, compute_evm_summary_total}

module _ {D : Type 0} where
  abbrev pub date_of : PerformanceSnapshotPoint D → ℕ
  date_of s = s.snapshot_date

  abbrev pub AllAfter : ℕ → List (PerformanceSnapshotPoint D) → Type 0
  AllAfter t = All (λ (s : PerformanceSnapshotPoint D). t < s.snapshot_date)

  latest_snapshot_at-append_later :
      (xs later : List (PerformanceSnapshotPoint D)) (t : ℕ)
      → AllAfter t later
      → latest_snapshot_at (xs ++ later) t ≡ latest_snapshot_at xs t
  unfolding latest_snapshot_at
  latest_snapshot_at-append_later xs later t h = rw (
      select-append_none (λ (s : PerformanceSnapshotPoint D). leb s.snapshot_date t) xs later
        (All-imp (λ s. t < date_of s) _ later (λ s k. ground arith) h))

module _ (o : DecimalOps) where
  open o use {Decimal}

  -- Snapshots captured for later days leave the summary of an earlier day as it was.
  pub compute_evm_summary-append_later :
      (baseline : List (BaselinePoint Decimal)) (xs later : List (PerformanceSnapshotPoint Decimal))
      (t : ℕ)
      → AllAfter t later
      → compute_evm_summary o baseline (xs ++ later) t ≡ compute_evm_summary o baseline xs t
  unfolding compute_evm_summary
  compute_evm_summary-append_later baseline xs later t h =
      rw (latest_snapshot_at-append_later xs later t h)

  history_points-append_later :
      (baseline : List (BaselinePoint Decimal)) (xs : List (PerformanceSnapshotPoint Decimal))
      (s : PerformanceSnapshotPoint Decimal) (ys : List (PerformanceSnapshotPoint Decimal))
      → All (λ y. date_of y < date_of s) ys
      → history_points o baseline (xs ++ s ∷ []) ys ≡ history_points o baseline xs ys
  unfolding history_points history_point
  history_points-append_later baseline xs s [] h = refl
  history_points-append_later baseline xs s (y ∷ ys) h = rw (
    compute_evm_summary-append_later baseline xs (s ∷ []) y.snapshot_date (h.0, tt),
    history_points-append_later baseline xs s ys h.1,
  )

  history_points-append :
      (baseline : List (BaselinePoint Decimal)) (all ys : List (PerformanceSnapshotPoint Decimal))
      (s : PerformanceSnapshotPoint Decimal)
      → history_points o baseline all (ys ++ s ∷ []) ≡ (
          history_points o baseline all ys >>= λ ps.
          history_point o baseline all s.snapshot_date >>= λ p. ok (ps ++ p ∷ []))
  unfolding history_points
  history_points-append baseline all [] s = refl
  history_points-append baseline all (y ∷ ys) s =
      rw (history_points-append baseline all ys s) (ground arith)

  -- Capturing a snapshot for a later day than all others appends its point to the S-curve, and
  -- leaves the points that were there as they were.
  pub build_history_series-append_later :
      (baseline : List (BaselinePoint Decimal)) (xs : List (PerformanceSnapshotPoint Decimal))
      (s : PerformanceSnapshotPoint Decimal)
      → All (λ x. date_of x < date_of s) xs
      → build_history_series o baseline (xs ++ s ∷ []) ≡ (
          build_history_series o baseline xs >>= λ ps.
          history_point o baseline (xs ++ s ∷ []) s.snapshot_date >>= λ p. ok (ps ++ p ∷ []))
  unfolding build_history_series
  build_history_series-append_later baseline xs s h = rw (
    sort_by-append_last date_of xs s (
        All-imp (λ x. date_of x < date_of s) (λ x. date_of x ≤ date_of s) xs (λ x k. omega arith)
          h),
    history_points-append baseline (xs ++ s ∷ []) (sort_by date_of xs) s,
    history_points-append_later baseline xs s (sort_by date_of xs)
        (All-sort_by date_of (λ x. date_of x < date_of s) xs h),
  )

module _ (o : DecimalOps) (laws : DecimalLaws o) where
  open o use {Decimal}

  abbrev pub IsHistoryPoint : HistoryPoint Decimal → Type 0
  IsHistoryPoint p = IsMetric p.pv × IsMetric p.ev × IsMetric p.ac

  history_point-Returns :
      (baseline : List (BaselinePoint Decimal))
      (snapshots : List (PerformanceSnapshotPoint Decimal)) (day : ℕ)
      → Returns
          (λ (p : HistoryPoint Decimal). (p.as_of ≡ day) × IsHistoryPoint p)
          (history_point o baseline snapshots day)
  unfolding history_point
  history_point-Returns baseline snapshots day =
      Returns-bind IsSummary _ _ _ (compute_evm_summary_total o laws baseline snapshots day)
        λ s h. (refl, (h.1, h.2, h.3))

  abbrev pub IsHistory :
      List (PerformanceSnapshotPoint Decimal) → List (HistoryPoint Decimal) → Type 0
  IsHistory ys ps =
      (map (λ (p : HistoryPoint Decimal). p.as_of) ps ≡ map date_of ys) × All IsHistoryPoint ps

  history_points-Returns :
      (baseline : List (BaselinePoint Decimal))
      (snapshots ys : List (PerformanceSnapshotPoint Decimal))
      → Returns (IsHistory ys) (history_points o baseline snapshots ys)
  unfolding history_points
  history_points-Returns baseline snapshots [] = (refl, tt)
  history_points-Returns baseline snapshots (y ∷ ys) =
      Returns-bind (λ (p : HistoryPoint Decimal). (p.as_of ≡ y.snapshot_date) × IsHistoryPoint p)
        (IsHistory (y ∷ ys)) _ _ (history_point-Returns baseline snapshots y.snapshot_date)
        λ p hp.
          Returns-bind (IsHistory ys) (IsHistory (y ∷ ys)) _ _
            (history_points-Returns baseline snapshots ys)
            λ ps hps. (cc (hp.0, hps.0), (hp.1, hps.1))

  -- The S-curve is computed without an error on every baseline and snapshot history: it has one
  -- point for each snapshot, in the order of their days, and each value of a point is either a
  -- number or carries a reason.
  pub build_history_series_total :
      (baseline : List (BaselinePoint Decimal))
      (snapshots : List (PerformanceSnapshotPoint Decimal))
      → Returns
          (λ ps.
            IsHistory (sort_by date_of snapshots) ps
            × IsSortedBy date_of (sort_by date_of snapshots))
          (build_history_series o baseline snapshots)
  unfolding build_history_series
  build_history_series_total baseline snapshots =
      let (ps, e, h) =
        Returns-ok (IsHistory (sort_by date_of snapshots)) _
          (history_points-Returns baseline snapshots (sort_by date_of snapshots)) in
      rw e (h, sort_by-IsSortedBy date_of snapshots)
