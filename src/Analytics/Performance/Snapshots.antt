-- ===== src/Analytics/Performance/Snapshots.antt =====
-- The history of snapshots is append-only: the first of a day stays.
use ai_pmo_copilot.Common.{
  Result, ok, err, Bool-cases, ℕ, ◌≡◌, refl, sym, ap, ◌∙◌, Option, none, some, true, List, [], ◌∷◌,
  ◌++◌, ◌==◌, find_first, find_first-append, find_first-append_none, arith, Option-cases, inl, inr,
}
use ai_pmo_copilot.Common.Int.{ℤ}
use ai_pmo_copilot.Analytics.Performance.{
  PerformanceError, is_day_taken, integrity, ProjectPerformanceSnapshot, PerformanceTables,
  is_snapshot_at, capture_snapshot,
}

-- A call of `capture_snapshot`.
pub record Capture (D : Type 0) : Type 0 where
  pub organization_id : ℕ
  pub project_id : ℕ
  pub date : ℕ
  pub cost : D
  pub progress : ℤ

abbrev pub Answer : Type 0 → Type 0
Answer D = Result PerformanceError (ProjectPerformanceSnapshot D × PerformanceTables D)

module _ {D : Type 0} where
  abbrev pub call : Capture D → PerformanceTables D → Answer D
  call c t = capture_snapshot c.organization_id c.project_id c.date c.cost c.progress t

  -- a call that raises leaves the tables as they were
  abbrev pub after_call : PerformanceTables D → Answer D → PerformanceTables D
  after_call t (ok r) = r.1
  after_call t (err e) = t

  abbrev pub calls : List (Capture D) → PerformanceTables D → PerformanceTables D
  calls [] t = t
  calls (c ∷ cs) t = calls cs (after_call t (call c t))

  abbrev found : Capture D → PerformanceTables D → Option (ProjectPerformanceSnapshot D)
  found c t = find_first (is_snapshot_at c.project_id c.organization_id c.date) t.snapshots

  abbrev snapshot_of : Capture D → ProjectPerformanceSnapshot D
  snapshot_of c = record {
    organization_id = c.organization_id;
    project_id = c.project_id;
    snapshot_date = c.date;
    actual_cost = c.cost;
    progress_percentage = c.progress;
  }

  abbrev added : Capture D → PerformanceTables D → PerformanceTables D
  added c t = record t { snapshots = t.snapshots ++ snapshot_of c ∷ [] }

  -- a call leaves what is found
  call-keeps :
      (c other : Capture D) (t : PerformanceTables D) (row : ProjectPerformanceSnapshot D)
      → found c t ≡ some row
      → found c (after_call t (call other t)) ≡ some row
  unfolding capture_snapshot
  call-keeps c other t row h = elim (Option-cases (found other t)) [
    | inr (old, there) ↦ rw there h
    | inl missing ↦ elim (Bool-cases (is_day_taken (snapshot_of other) t)) [
      | inl taken ↦ rw missing (rw taken h)
      | inr free ↦ rw missing (
          rw free (
            find_first-append (is_snapshot_at c.project_id c.organization_id c.date) t.snapshots _
              row h))
    ]
  ]

  calls-keeps :
      (c : Capture D) (others : List (Capture D)) (t : PerformanceTables D)
      (row : ProjectPerformanceSnapshot D)
      → found c t ≡ some row
      → found c (calls others t) ≡ some row
  calls-keeps c [] t row h = h
  calls-keeps c (other ∷ others) t row h =
      calls-keeps c others (after_call t (call other t)) row (call-keeps c other t row h)

  -- what a call answers is found from then on
  call-found :
      (c : Capture D) (t t' : PerformanceTables D) (row : ProjectPerformanceSnapshot D)
      → call c t ≡ ok (row, t')
      → found c t' ≡ some row
  unfolding capture_snapshot
  call-found c t t' row h = elim (Option-cases (found c t)) [
    | inr (old, there) ↦
        let same : ◌≡◌ {A = Answer D} (ok (old, t)) (ok (row, t')) = rw there at h in
        let rows : old ≡ row = cc in
        let tables : t ≡ t' = cc in ap (found c) (sym tables) ∙ there ∙ ap some rows
    | inl missing ↦ elim (Bool-cases (is_day_taken (snapshot_of c) t)) [
      | inl taken ↦
          let raised : ◌≡◌ {A = Answer D} (err integrity) (ok (row, t')) =
            rw (missing, taken) at h in
          cc
      | inr free ↦
          let same : ◌≡◌ {A = Answer D} (ok (snapshot_of c, added c t)) (ok (row, t')) =
            rw (missing, free) at h in
          let rows : snapshot_of c ≡ row = cc in
          let tables : added c t ≡ t' = cc in
          ap (found c) (sym tables) ∙ is_found missing ∙ ap some rows
    ]
  ]
    where
      is_found : found c t ≡ none → found c (added c t) ≡ some (snapshot_of c)
      is_found missing =
          let org : (c.organization_id == c.organization_id) ≡ true = ground arith in
          let project : (c.project_id == c.project_id) ≡ true = ground arith in
          let day : (c.date == c.date) ≡ true = ground arith in
          find_first-append_none (is_snapshot_at c.project_id c.organization_id c.date) t.snapshots
            (snapshot_of c ∷ []) missing
          ∙ rw org (rw project (rw day refl))

  -- Whatever is captured in between, for any projects, organizations and days, after a capture of a
  -- project on a day that answered with a row, a second capture of the same answers with that row,
  -- also where its cost and progress differ, and leaves the tables as they were.
  pub call-first :
      (first : Capture D) (others : List (Capture D)) (cost : D) (progress : ℤ)
      (t t' : PerformanceTables D) (row : ProjectPerformanceSnapshot D)
      → call first t ≡ ok (row, t')
      → call (record first { cost = cost; progress = progress }) (calls others t')
        ≡ ok (row, calls others t')
  unfolding capture_snapshot
  call-first first others cost progress t t' row h =
      rw (calls-keeps first others t' row (call-found first t t' row h)) refl
