-- ===== src/Analytics/Performance/Isolation.antt =====
-- What rows of other projects do to the queries for a project.
use ai_pmo_copilot.Common.{
  ℕ, ◌==◌, ◌≡◌, refl, ap, ◌∙◌, false, ◌&&◌, Option, none, some, List, [], ◌∷◌, ◌++◌, map, Ensures,
  Ensures-bind, Ensures-or_raise, Ensures-unless, Ensures-at, All, All-imp, select,
  select-append_none, find_first,
}
use ai_pmo_copilot.Common.Int.{ℤ, pos}
use ai_pmo_copilot.Common.Sorting.{sort_by}
use ai_pmo_copilot.Analytics.Decimal.{DecimalOps}
use ai_pmo_copilot.Analytics.Performance as Performance
use ai_pmo_copilot.Analytics.Performance.{
  ProjectPerformanceBaseline, ProjectPerformanceSnapshot, PerformanceTables, PerformanceError,
  Columns, baseline_rows, is_baseline_of, captured, is_snapshot_at, is_day_taken,
  get_active_baseline, list_snapshots, rows_of_version, max_of, has_duplicates,
}

append-[] : {A : Type 0} (xs : List A) → xs ≡ xs ++ []
append-[] [] = refl
append-[] (x ∷ xs) = ap (λ l. x ∷ l) (append-[] xs)

module _ {D : Type 0} (project_id : ℕ) where
  -- Rows of other projects are added.
  abbrev pub Adds : PerformanceTables D → PerformanceTables D → Type 0
  Adds t u =
      (rows : List (ProjectPerformanceBaseline D)) × (taken : List (ProjectPerformanceSnapshot D))
      × (u.baselines ≡ t.baselines ++ rows)
      × (u.snapshots ≡ t.snapshots ++ taken)
      × All (λ (r : ProjectPerformanceBaseline D). (r.project_id == project_id) ≡ false) rows
      × All (λ (r : ProjectPerformanceSnapshot D). (r.project_id == project_id) ≡ false) taken

  is_not_of :
      (organization_id : ℕ) (rows : List (ProjectPerformanceBaseline D))
      → All (λ (r : ProjectPerformanceBaseline D). (r.project_id == project_id) ≡ false) rows
      → All (λ r. is_baseline_of project_id organization_id r ≡ false) rows
  is_not_of g rows others =
      All-imp _ (λ r. is_baseline_of project_id g r ≡ false) rows (λ r h. rw h refl) others

  select-Adds :
      (organization_id : ℕ) (t u : PerformanceTables D)
      → Adds t u
      → select (is_baseline_of project_id organization_id) u.baselines
        ≡ select (is_baseline_of project_id organization_id) t.baselines
  select-Adds g t u (rows, taken, same, _, others, _) =
      ap (select (is_baseline_of project_id g)) same
      ∙ select-append_none (is_baseline_of project_id g) t.baselines rows (is_not_of g rows others)

  rows_of_version-Adds :
      (organization_id : ℕ) (t u : PerformanceTables D) (version : Option ℕ)
      → Adds t u
      → rows_of_version project_id organization_id u version
        ≡ rows_of_version project_id organization_id t version
  rows_of_version-Adds g t u none h = refl
  rows_of_version-Adds g t u (some version) (rows, taken, same, _, others, _) =
      let chosen = λ (r : ProjectPerformanceBaseline D).
        is_baseline_of project_id g r && r.baseline_version == version in
      ap (sort_by (λ (r : ProjectPerformanceBaseline D). r.period_date)) (
        ap (select chosen) same
        ∙ select-append_none chosen t.baselines rows
            (All-imp _ (λ r. chosen r ≡ false) rows (λ r h. rw h refl) (is_not_of g rows others)))

  pub get_active_baseline-Adds :
      (organization_id : ℕ) (t u : PerformanceTables D)
      → Adds t u
      → get_active_baseline project_id organization_id u
        ≡ get_active_baseline project_id organization_id t
  unfolding get_active_baseline
  get_active_baseline-Adds g t u h =
      ap
        (λ (rows : List (ProjectPerformanceBaseline D)).
          rows_of_version project_id g u
            (max_of (map (λ (r : ProjectPerformanceBaseline D). r.baseline_version) rows)))
        (select-Adds g t u h)
      ∙ rows_of_version-Adds g t u _ h

  pub list_snapshots-Adds :
      (organization_id : ℕ) (t u : PerformanceTables D)
      → Adds t u
      → list_snapshots project_id organization_id u ≡ list_snapshots project_id organization_id t
  unfolding list_snapshots
  list_snapshots-Adds g t u (rows, taken, _, same, _, others) =
      let kept =
        select-append_none
          (λ (r : ProjectPerformanceSnapshot D).
            r.project_id == project_id && r.organization_id == g)
          t.snapshots taken
          (All-imp _
            (λ (r : ProjectPerformanceSnapshot D).
              (r.project_id == project_id && r.organization_id == g) ≡ false)
            taken (λ r h. rw h refl) others) in
      rw same (ap (sort_by (λ (r : ProjectPerformanceSnapshot D). r.snapshot_date)) kept)

module _ (project_id : ℕ) (o : DecimalOps) (columns : Columns o.Decimal) where
  open o use {Decimal, of_int, mul, div}

  baseline_rows-other :
      (organization_id other version : ℕ) (bac : Decimal) (points : List (ℕ × Decimal))
      → (other == project_id) ≡ false
      → Ensures
          (All (λ (r : ProjectPerformanceBaseline Decimal). (r.project_id == project_id) ≡ false))
          (baseline_rows o columns organization_id other bac version points)
  unfolding baseline_rows
  baseline_rows-other g other version bac [] h = tt
  baseline_rows-other g other version bac (point ∷ points) h =
      Ensures-or_raise
        (All (λ (r : ProjectPerformanceBaseline Decimal). (r.project_id == project_id) ≡ false)) _
        (div (mul bac point.1) (of_int (pos 100))) _
        λ value _.
          Ensures-bind
            (All (λ (r : ProjectPerformanceBaseline Decimal). (r.project_id == project_id) ≡ false))
            (baseline_rows o columns g other bac version points) _
            λ rows e. (
              h,
              Ensures-at
                  (All (λ (r : ProjectPerformanceBaseline Decimal).
                    (r.project_id == project_id) ≡ false))
                  (baseline_rows o columns g other bac version points) rows
                  (baseline_rows-other g other version bac points h) e,
            )

  pub create_baseline-Adds :
      (organization_id other : ℕ) (bac : Decimal) (points : List (ℕ × Decimal))
      (t : PerformanceTables Decimal)
      → (other == project_id) ≡ false
      → Ensures
          (λ (r : ℕ × PerformanceTables Decimal). Adds project_id t r.1)
          (Performance.create_baseline o columns organization_id other bac points t)
  unfolding Performance.create_baseline
  create_baseline-Adds g other bac points t h =
      Ensures-unless (λ (r : ℕ × PerformanceTables Decimal). Adds project_id t r.1) _
        (has_duplicates (map (λ (p : ℕ × Decimal). p.0) points)) _
        λ _.
          Ensures-bind (λ (r : ℕ × PerformanceTables Decimal). Adds project_id t r.1)
            (baseline_rows o columns g other bac _ points) _
            λ rows e. (
              rows,
              [],
              refl,
              append-[] t.snapshots,
              Ensures-at
                  (All (λ (r : ProjectPerformanceBaseline Decimal).
                    (r.project_id == project_id) ≡ false))
                  (baseline_rows o columns g other bac _ points) rows
                  (baseline_rows-other g other _ bac points h) e,
              tt,
            )

module _ {D : Type 0} (project_id : ℕ) where
  pub nothing_added : (t : PerformanceTables D) → Adds project_id t t
  nothing_added t = ([], [], append-[] t.baselines, append-[] t.snapshots, tt, tt)

  captured-Adds :
      (snapshot : ProjectPerformanceSnapshot D) (t : PerformanceTables D)
      (existing : Option (ProjectPerformanceSnapshot D))
      → (snapshot.project_id == project_id) ≡ false
      → Ensures
          (λ (r : ProjectPerformanceSnapshot D × PerformanceTables D). Adds project_id t r.1)
          (captured snapshot t existing)
  captured-Adds snapshot t (some existing) h = nothing_added t
  captured-Adds snapshot t none h =
      Ensures-unless
        (λ (r : ProjectPerformanceSnapshot D × PerformanceTables D). Adds project_id t r.1) _
        (is_day_taken snapshot t) _
        λ _. ([], snapshot ∷ [], append-[] t.baselines, refl, tt, (h, tt))

  pub capture_snapshot-Adds :
      (organization_id other date : ℕ) (cost : D) (progress : ℤ) (t : PerformanceTables D)
      → (other == project_id) ≡ false
      → Ensures
          (λ (r : ProjectPerformanceSnapshot D × PerformanceTables D). Adds project_id t r.1)
          (Performance.capture_snapshot organization_id other date cost progress t)
  unfolding Performance.capture_snapshot
  capture_snapshot-Adds g other date cost progress t h =
      captured-Adds _ t (find_first (is_snapshot_at other g date) t.snapshots) h
