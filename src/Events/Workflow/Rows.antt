-- ===== src/Events/Workflow/Rows.antt =====
-- The rows of `workflow_executions` under the writes of the tracker.
use ai_pmo_copilot.Common.{
  str_eq_refl, eq_iff, ℕ, ◌≡◌, refl, ap, inl, inr, true, false, String, some, List, [], ◌∷◌, ◌++◌,
  any_of, find_first, Bool-cases, arith,
}
use ai_pmo_copilot.Events.Workflow.{WorkflowExecution, is_run, update_run, start}

-- A write that leaves the key of a row.
abbrev pub KeepsKey : (WorkflowExecution → WorkflowExecution) → Type 0
KeepsKey change = (e : WorkflowExecution) (i n : String) → is_run i n (change e) ≡ is_run i n e

module _ (i n : String) where
  pub any_of-find_first :
      (es : List WorkflowExecution) (e : WorkflowExecution)
      → find_first (is_run i n) es ≡ some e
      → any_of (is_run i n) es ≡ true
  any_of-find_first [] e h = cc
  any_of-find_first (x ∷ es) e h = let ih = any_of-find_first es e in ground arith

  find_first-any_of :
      (es : List WorkflowExecution)
      → any_of (is_run i n) es ≡ true
      → (e : WorkflowExecution) × (find_first (is_run i n) es ≡ some e)
  find_first-any_of [] h = cc
  find_first-any_of (x ∷ es) h = elim (Bool-cases (is_run i n x)) [
    | inl here ↦ rw here (x, refl)
    | inr there ↦
        let rest : any_of (is_run i n) es ≡ true = ground (arith, h) in
        rw there (find_first-any_of es rest)
  ]

  pub find_first-update_run_at :
      (change : WorkflowExecution → WorkflowExecution) (es : List WorkflowExecution)
      (e : WorkflowExecution)
      → KeepsKey change
      → find_first (is_run i n) es ≡ some e
      → find_first (is_run i n) (update_run i n change es) ≡ some (change e)
  unfolding update_run
  find_first-update_run_at change [] e k h = cc
  find_first-update_run_at change (x ∷ es) e k h = elim (Bool-cases (is_run i n x)) [
    | inl here ↦
        let same : some x ≡ some e = rw here at h in
        let it : x ≡ e = cc in rw here (rw (k x i n, here) (ap (λ y. some (change y)) it))
    | inr there ↦
        let rest : find_first (is_run i n) es ≡ some e = rw there at h in
        rw there (rw there (find_first-update_run_at change es e k rest))
  ]

  -- The row of the key.
  abbrev pub RowIs : (WorkflowExecution → Type 0) → List WorkflowExecution → Type 0
  RowIs Q es = (e : WorkflowExecution) × (find_first (is_run i n) es ≡ some e) × Q e

  find_first-snoc :
      (es : List WorkflowExecution) (e : WorkflowExecution)
      → any_of (is_run i n) es ≡ false
      → is_run i n e ≡ true
      → find_first (is_run i n) (es ++ e ∷ []) ≡ some e
  find_first-snoc [] e none_yet h = rw h refl
  find_first-snoc (x ∷ es) e none_yet h = let ih = find_first-snoc es e in ground arith

  -- After `start` there is a row of the key, which says when it started.
  pub start-RowIs :
      (now organization_id : ℕ) (correlation_id : String) (es : List WorkflowExecution)
      → RowIs (λ e. e.started_at ≡ now) (start now i n organization_id correlation_id es)
  unfolding start
  start-RowIs now g c es = elim (Bool-cases (any_of (is_run i n) es)) [
    | inl there ↦
        let (e, found) = find_first-any_of es there in
        rw there (_, find_first-update_run_at _ es e (λ x j m. refl) found, refl)
    | inr new ↦ rw new (_, find_first-snoc es _ new (rw (str_eq_refl i, str_eq_refl n)), refl)
  ]

  other_run :
      (e : WorkflowExecution) (j m : String)
      → ¬ ((j ≡ i) × (m ≡ n))
      → is_run i n e ≡ true
      → is_run j m e ≡ false
  other_run e j m other h = ground (
    arith,
    eq_iff e.event_id i,
    eq_iff e.workflow_name n,
    eq_iff e.event_id j,
    eq_iff e.workflow_name m,
    other,
    h,
  )

  -- The rows of other keys.
  abbrev pub OthersKept : List WorkflowExecution → List WorkflowExecution → Type 0
  OthersKept es fs =
      (j m : String)
      → ¬ ((j ≡ i) × (m ≡ n))
      → find_first (is_run j m) fs ≡ find_first (is_run j m) es

  pub update_run-OthersKept :
      (change : WorkflowExecution → WorkflowExecution) (es : List WorkflowExecution)
      → KeepsKey change
      → OthersKept es (update_run i n change es)
  unfolding update_run
  update_run-OthersKept change [] k j m other = refl
  update_run-OthersKept change (e ∷ es) k j m other = elim (Bool-cases (is_run i n e)) [
    | inl here ↦ let not_it = other_run e j m other here in rw here (rw (k e j m, not_it) refl)
    | inr there ↦ let ih = update_run-OthersKept change es k j m other in rw there (rw ih refl)
  ]

  snoc-OthersKept :
      (es : List WorkflowExecution) (e : WorkflowExecution)
      → is_run i n e ≡ true
      → OthersKept es (es ++ e ∷ [])
  snoc-OthersKept [] e h j m other = rw (other_run e j m other h) refl
  snoc-OthersKept (x ∷ es) e h j m other = rw (snoc-OthersKept es e h j m other) refl

  pub start-OthersKept :
      (now organization_id : ℕ) (correlation_id : String) (es : List WorkflowExecution)
      → OthersKept es (start now i n organization_id correlation_id es)
  unfolding start
  start-OthersKept now g c es = elim (Bool-cases (any_of (is_run i n) es)) [
    | inl there ↦ rw there (update_run-OthersKept _ es (λ e j m. refl))
    | inr new ↦ rw new (snoc-OthersKept es _ (rw (str_eq_refl i, str_eq_refl n)))
  ]
