-- ===== src/Analytics/Performance/Baselines.antt =====
-- A new baseline is the active one.
use ai_pmo_copilot.Common.{
  ℕ, ◌<◌, ◌≡◌, refl, ap, ◌∙◌, some, Bool, true, false, ◌&&◌, List, [], ◌∷◌, ◌++◌, map, ok, Returns,
  Returns-bind, Returns-ok, ◌==◌, select, select-append, select_none, select_all, All, All-imp,
  All-map, All-of_map, All-of_select, All-select_of, map-append, arith, Option-cases, Bool-cases,
  inl, inr,
}
use ai_pmo_copilot.Common.Int.{pos}
use ai_pmo_copilot.Common.Sorting.{sort_by}
use ai_pmo_copilot.Analytics.Decimal.{DecimalOps, DecimalLaws}
use ai_pmo_copilot.Analytics.Performance.Versions.{next_version-above, max_of-append, max_of-same}
use ai_pmo_copilot.Analytics.Performance.{
  ProjectPerformanceBaseline, PerformanceTables, max_of, next_version, has_duplicates, Columns,
  row_of_point, baseline_rows, create_baseline, is_baseline_of, get_active_baseline,
}

module _ (o : DecimalOps) (columns : Columns o.Decimal) where
  -- `r` is a new version of the baseline, the active one, with the points by their dates; the rows of
  -- the versions before stay.
  abbrev pub IsNewBaseline :
      ℕ
      → ℕ
      → o.Decimal
      → List (ℕ × o.Decimal)
      → PerformanceTables o.Decimal
      → ℕ × PerformanceTables o.Decimal
      → Type 0
  IsNewBaseline organization_id project_id bac points t r =
      (rows : List (ProjectPerformanceBaseline o.Decimal)) × (baseline_rows o columns
          organization_id project_id bac r.0 points
        ≡ ok rows)
      × (map (λ (x : ProjectPerformanceBaseline o.Decimal). x.period_date) rows
          ≡ map (λ (p : ℕ × o.Decimal). p.0) points)
      × (r.1.baselines ≡ t.baselines ++ rows)
      × All
          (λ (x : ProjectPerformanceBaseline o.Decimal).
            (x.project_id == project_id) ≡ true → x.baseline_version < r.0)
          t.baselines
      × (get_active_baseline project_id organization_id r.1
          ≡ sort_by (λ (x : ProjectPerformanceBaseline o.Decimal). x.period_date) rows)

module _ (o : DecimalOps) (laws : DecimalLaws o) (columns : Columns o.Decimal) where
  open o use {Decimal, of_int, mul, div}

  abbrev Row : Type 0
  Row = ProjectPerformanceBaseline Decimal

  -- the rows are of the project, the organization and the version
  abbrev IsRowsOf : ℕ → ℕ → ℕ → List Row → Type 0
  IsRowsOf organization_id project_id version rows =
      All
        (λ (r : Row).
          (is_baseline_of project_id organization_id r ≡ true) × (r.baseline_version ≡ version))
        rows

  row_of_point-lem :
      (organization_id project_id version : ℕ) (bac : Decimal) (point : ℕ × Decimal)
      (value : Decimal)
      → is_baseline_of project_id organization_id
          (row_of_point o columns organization_id project_id bac version point value)
        ≡ true
  row_of_point-lem organization_id project_id version bac (date, progress) value =
      let org : (organization_id == organization_id) ≡ true = ground arith in
      let project : (project_id == project_id) ≡ true = ground arith in rw project (rw org refl)

  -- the loop returns rows for the points, in their order
  baseline_rows-Returns :
      (organization_id project_id version : ℕ) (bac : Decimal) (points : List (ℕ × Decimal))
      → Returns
          (λ (rows : List Row).
            IsRowsOf organization_id project_id version rows
            × (map (λ (r : Row). r.period_date) rows ≡ map (λ (p : ℕ × Decimal). p.0) points))
          (baseline_rows o columns organization_id project_id bac version points)
  unfolding baseline_rows
  baseline_rows-Returns organization_id project_id version bac [] = (tt, refl)
  baseline_rows-Returns organization_id project_id version bac (point ∷ points) =
      elim (Option-cases (div (mul bac point.1) (of_int (pos 100)))) [
        | inl undefined ↦
            elim (laws.div_defined (mul bac point.1) (of_int (pos 100)) laws.hundred_ne_zero
              undefined) [ ]
        | inr (value, e) ↦ rw e (
            Returns-bind _ _ (baseline_rows o columns organization_id project_id bac version points)
              _ (baseline_rows-Returns organization_id project_id version bac points)
              (λ rows h. (
                ((row_of_point-lem organization_id project_id version bac point value, refl), h.0),
                ap (λ ds. point.0 ∷ ds) h.1,
              )))
      ]

  abbrev versions : ℕ → PerformanceTables Decimal → List ℕ
  versions project_id t =
      map (λ (r : Row). r.baseline_version)
        (select (λ (r : Row). r.project_id == project_id) t.baselines)

  older :
      (project_id : ℕ) (t : PerformanceTables Decimal)
      → All
          (λ (x : Row).
            (x.project_id == project_id) ≡ true
            → x.baseline_version < next_version (max_of (versions project_id t)))
          t.baselines
  older project_id t =
      All-of_select
        (λ (x : Row). x.baseline_version < next_version (max_of (versions project_id t)))
        (λ (r : Row). r.project_id == project_id) t.baselines
        (All-of_map (λ n. n < next_version (max_of (versions project_id t)))
          (λ (r : Row). r.baseline_version)
          (select (λ (r : Row). r.project_id == project_id) t.baselines)
          (next_version-above (versions project_id t)))

  -- the query for the active rows finds the new ones
  active :
      (organization_id project_id version : ℕ) (t : PerformanceTables Decimal) (row : Row)
      (rows : List Row)
      → All
          (λ (x : Row). (x.project_id == project_id) ≡ true → x.baseline_version < version)
          t.baselines
      → IsRowsOf organization_id project_id version (row ∷ rows)
      → get_active_baseline project_id organization_id
          (record t { baselines = t.baselines ++ row ∷ rows })
        ≡ sort_by (λ (x : Row). x.period_date) (row ∷ rows)
  unfolding get_active_baseline
  active organization_id project_id version t row rows before its =
      rw (select-append (is_baseline_of project_id organization_id) t.baselines (row ∷ rows)) (
        rw
          (select_all (is_baseline_of project_id organization_id) (row ∷ rows) (
            All-imp _ (λ (x : Row). is_baseline_of project_id organization_id x ≡ true) (row ∷ rows)
              (λ x h. h.0) its))
          (rw
            (map-append (λ (r : Row). r.baseline_version)
              (select (is_baseline_of project_id organization_id) t.baselines) (row ∷ rows))
            (rw largest (ap (sort_by (λ (x : Row). x.period_date)) chosen))))
    where
      below :
          All
            (λ n. n < version)
            (map
              (λ (r : Row). r.baseline_version)
              (select (is_baseline_of project_id organization_id) t.baselines))
      below =
          All-map (λ n. n < version) (λ (r : Row). r.baseline_version)
            (select (is_baseline_of project_id organization_id) t.baselines)
            (All-select_of (λ (r : Row). r.baseline_version < version)
              (is_baseline_of project_id organization_id) t.baselines
              (All-imp _
                (λ (x : Row).
                  is_baseline_of project_id organization_id x ≡ true → x.baseline_version < version)
                t.baselines (λ x h k. h (ground arith)) before))

      largest :
          max_of (
            map
              (λ (r : Row). r.baseline_version)
              (select (is_baseline_of project_id organization_id) t.baselines)
            ++ map (λ (r : Row). r.baseline_version) (row ∷ rows))
          ≡ some version
      largest = max_of-append version _ _ below (
          max_of-same version row.baseline_version (map (λ (r : Row). r.baseline_version) rows) (
            All-map (λ n. n ≡ version) (λ (r : Row). r.baseline_version) (row ∷ rows)
              (All-imp _ (λ (x : Row). x.baseline_version ≡ version) (row ∷ rows) (λ x h. h.1)
                its)))

      is_active : Row → Bool
      is_active r = is_baseline_of project_id organization_id r && r.baseline_version == version

      chosen : select is_active (t.baselines ++ row ∷ rows) ≡ row ∷ rows
      chosen =
          select-append is_active t.baselines (row ∷ rows)
          ∙ ap (λ xs. xs ++ select is_active (row ∷ rows))
              (select_none is_active t.baselines (
                All-imp _ (λ (x : Row). is_active x ≡ false) t.baselines
                  (λ x h. elim (Bool-cases (x.project_id == project_id)) [
                    | inl mine ↦
                        let less = h mine in
                        let apart : (x.baseline_version == version) ≡ false = ground arith in
                        ground arith
                    | inr other ↦ rw other refl
                  ])
                  before))
          ∙ select_all is_active (row ∷ rows) (
              All-imp _ (λ (x : Row). is_active x ≡ true) (row ∷ rows)
                (λ x h.
                  let same : (x.baseline_version == version) ≡ true = let e = h.1 in ground arith in
                  rw h.0 same)
                its)

  active_of :
      (organization_id project_id version : ℕ) (t : PerformanceTables Decimal) (rows : List Row)
      (first : ℕ) (days : List ℕ)
      → map (λ (x : Row). x.period_date) rows ≡ first ∷ days
      → All
          (λ (x : Row). (x.project_id == project_id) ≡ true → x.baseline_version < version)
          t.baselines
      → IsRowsOf organization_id project_id version rows
      → get_active_baseline project_id organization_id
          (record t { baselines = t.baselines ++ rows })
        ≡ sort_by (λ (x : Row). x.period_date) rows
  active_of organization_id project_id version t [] first days e before its = cc
  active_of organization_id project_id version t (row ∷ rows) first days e before its =
      active organization_id project_id version t row rows before its

  -- For points of different days, at least one: `create_baseline` returns, and its version is new and
  -- active: it is above all versions of the project, whose rows stay; its rows have the days of the
  -- points; and `get_active_baseline` gives them in the order of the days.
  pub create_baseline-IsNewBaseline :
      (organization_id project_id : ℕ) (bac : Decimal) (point : ℕ × Decimal)
      (points : List (ℕ × Decimal)) (t : PerformanceTables Decimal)
      → has_duplicates (map (λ (p : ℕ × Decimal). p.0) (point ∷ points)) ≡ false
      → Returns
          (IsNewBaseline o columns organization_id project_id bac (point ∷ points) t)
          (create_baseline o columns organization_id project_id bac (point ∷ points) t)
  unfolding create_baseline
  create_baseline-IsNewBaseline organization_id project_id bac point points t apart =
      let version = next_version (max_of (versions project_id t)) in
      let (rows, answered, (its, dates)) =
        Returns-ok _
          (baseline_rows o columns organization_id project_id bac version (point ∷ points))
          (baseline_rows-Returns organization_id project_id version bac (point ∷ points)) in
      rw (apart, answered)
        (
          rows,
          answered,
          dates,
          refl,
          older project_id t,
          active_of organization_id project_id version t rows point.0
              (map (λ (p : ℕ × Decimal). p.0) points) dates (older project_id t) its,
        )
