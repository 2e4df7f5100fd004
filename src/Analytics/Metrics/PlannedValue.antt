-- ===== src/Analytics/Metrics/PlannedValue.antt =====
-- `_planned_value_at` is the step function of the authored points, on every branch.
use ai_pmo_copilot.Common.{
  ap, le→leb, leb→le, Bool, ℕ, ◌≤◌, ◌<◌, ◌≡◌, ◌≢◌, refl, true, Option, none, some, List, [], ◌∷◌,
  Returns, Returns-ok, leb, ltb, select, inl, inr, last_of_list, All, All-imp, All-of_select,
  IsElem, IsElem-of_select, arith, Bool-cases, length, ltb→lt,
}
use ai_pmo_copilot.Common.Sorting.{
  sort_by, IsSortedBy, sort_by-IsSortedBy, All-of_sort_by, IsElem-of_sort_by, length-sort_by,
  last_of_list-largest, select-IsSortedBy,
}
use ai_pmo_copilot.Analytics.Metrics.{
  Reason, no_baseline_defined, before_baseline_start, after_baseline_end, BaselinePoint,
  MetricValue, present, na, covered_value, value_in_order, planned_value_at,
}

module _ {D : Type 0} where
  abbrev date_of : BaselinePoint D → ℕ
  date_of p = p.period_date

  -- `v` is planned at the latest authored point of `baseline` at or before day `t`.
  pub record StepValue (baseline : List (BaselinePoint D)) (t : ℕ) (v : D) : Type 0 where
    pub point : BaselinePoint D
    pub authored : IsElem point baseline
    pub not_later : point.period_date ≤ t
    pub value_of_point : point.planned_value ≡ v
    pub latest :
        All
          (λ (q : BaselinePoint D). q.period_date ≤ t → q.period_date ≤ point.period_date)
          baseline

  -- What a planned value says of the baseline, by its value and its reason.
  abbrev Planned : List (BaselinePoint D) → ℕ → Option D → Option Reason → Type 0
  Planned b t (some v) none = StepValue b t v
  Planned b t none (some no_baseline_defined) = b ≡ []
  Planned b t none (some before_baseline_start) =
      All (λ (q : BaselinePoint D). t < q.period_date) b × (b ≢ [])
  Planned b t none (some after_baseline_end) =
      All (λ (q : BaselinePoint D). q.period_date < t) b × (b ≢ [])
  Planned _ _ _ _ = ⊥

  abbrev pub IsPlanned : List (BaselinePoint D) → ℕ → MetricValue D → Type 0
  IsPlanned b t m = Planned b t m.value m.reason

  abbrev by : ℕ → BaselinePoint D → Bool
  by t p = leb p.period_date t

  largest-StepValue :
      (x y : BaselinePoint D) (xs : List (BaselinePoint D)) (t : ℕ)
      → IsElem y (select (by t) (x ∷ xs))
      → All (λ z. date_of z ≤ date_of y) (select (by t) (x ∷ xs))
      → StepValue (x ∷ xs) t y.planned_value
  largest-StepValue x y xs t m le =
      let (there, early) = IsElem-of_select y (by t) (x ∷ xs) m in
      record {
        point = y;
        authored = there;
        not_later = leb→le _ _ early;
        value_of_point = refl;
        latest =
            All-imp (λ q. by t q ≡ true → date_of q ≤ date_of y) _ (x ∷ xs)
              (λ q k h. k (le→leb _ _ h))
              (All-of_select (λ z. date_of z ≤ date_of y) (by t) (x ∷ xs) le);
      }

  picks :
      (x : BaselinePoint D) (xs : List (BaselinePoint D)) (t : ℕ)
      → IsSortedBy date_of (x ∷ xs)
      → x.period_date ≤ t
      → (y : BaselinePoint D) × (last_of_list (select (by t) (x ∷ xs)) ≡ some y)
        × StepValue (x ∷ xs) t y.planned_value
  picks x xs t sorted h =
      let keep : leb x.period_date t ≡ true = le→leb _ _ h in
      let split : select (by t) (x ∷ xs) ≡ x ∷ select (by t) xs = rw keep in
      let (y, e, m, le) =
        last_of_list-largest date_of x (select (by t) xs)
          (rw split at (select-IsSortedBy date_of (by t) (x ∷ xs) sorted)) in
      (y, rw split e, largest-StepValue x y xs t (rw split m) (rw split le))

  covered_value-IsPlanned :
      (x : BaselinePoint D) (xs : List (BaselinePoint D)) (t : ℕ)
      → IsSortedBy date_of (x ∷ xs)
      → x.period_date ≤ t
      → Returns (IsPlanned (x ∷ xs) t) (covered_value (x ∷ xs) t)
  unfolding covered_value present
  covered_value-IsPlanned x xs t sorted h = let (y, e, step) = picks x xs t sorted h in rw e step

  value_in_order-IsPlanned :
      (x : BaselinePoint D) (xs : List (BaselinePoint D)) (t : ℕ)
      → IsSortedBy date_of (x ∷ xs)
      → Returns (IsPlanned (x ∷ xs) t) (value_in_order (x ∷ xs) t)
  unfolding value_in_order na
  value_in_order-IsPlanned x xs t sorted = elim (Bool-cases (ltb t x.period_date)) [
    | inl before ↦ rw before (
      (ltb→lt _ _ before, All-imp (λ q. date_of x ≤ date_of q) _ xs (λ q k. ground arith) sorted.0),
      (λ e. cc),
    )
    | inr inside ↦
        let (y, e, m, le) = last_of_list-largest date_of x xs sorted in
        rw (inside, e)
          (elim (Bool-cases (ltb y.period_date t)) [
            | inl after ↦ rw after (
              All-imp (λ z. date_of z ≤ date_of y) (λ z. date_of z < t) (x ∷ xs)
                  (λ z k. ground arith) le,
              (λ q. cc),
            )
            | inr covered ↦ rw covered (covered_value-IsPlanned x xs t sorted (ground arith))
          ])
  ]

  abbrev ordered : List (BaselinePoint D) → List (BaselinePoint D)
  ordered = sort_by date_of

  ordered-ne_nil : (b : BaselinePoint D) (bs : List (BaselinePoint D)) → ordered (b ∷ bs) ≢ []
  ordered-ne_nil b bs e = absurd (omega (arith, length-sort_by date_of (b ∷ bs), ap length e))

  StepValue-of_ordered :
      (b : List (BaselinePoint D)) (t : ℕ) (v : D) → StepValue (ordered b) t v → StepValue b t v
  StepValue-of_ordered b t v s = record {
    point = s.point;
    authored = IsElem-of_sort_by date_of s.point b s.authored;
    not_later = s.not_later;
    value_of_point = s.value_of_point;
    latest =
        All-of_sort_by date_of (λ q. q.period_date ≤ t → q.period_date ≤ s.point.period_date) b
          s.latest;
  }

  Planned-of_ordered :
      (b : BaselinePoint D) (bs : List (BaselinePoint D)) (t : ℕ) (v : Option D) (r : Option Reason)
      → Planned (ordered (b ∷ bs)) t v r
      → Planned (b ∷ bs) t v r
  Planned-of_ordered b bs t (some v) none h = StepValue-of_ordered (b ∷ bs) t v h
  Planned-of_ordered b bs t none (some no_baseline_defined) h = absurd (ordered-ne_nil b bs h)
  Planned-of_ordered b bs t none (some before_baseline_start) h =
      (All-of_sort_by date_of (λ q. t < q.period_date) (b ∷ bs) h.0, λ e. cc)
  Planned-of_ordered b bs t none (some after_baseline_end) h =
      (All-of_sort_by date_of (λ q. q.period_date < t) (b ∷ bs) h.0, λ e. cc)
  Planned-of_ordered b bs t none none h = elim h [ ]
  Planned-of_ordered b bs t (some v) (some r) h = elim h [ ]
  Planned-of_ordered b bs t none (some _) h = elim h [ ]

  value_in_order-IsPlanned_of_ne :
      (xs : List (BaselinePoint D)) (t : ℕ)
      → xs ≢ []
      → IsSortedBy date_of xs
      → Returns (IsPlanned xs t) (value_in_order xs t)
  value_in_order-IsPlanned_of_ne [] t ne sorted = absurd (ne refl)
  value_in_order-IsPlanned_of_ne (x ∷ xs) t ne sorted = value_in_order-IsPlanned x xs t sorted

  -- On every baseline and day the planned value is found without an error, and says what holds of
  -- the baseline: a number is the planned value of the latest authored point at or before the day,
  -- `no_baseline_defined` means that no point is authored, `before_baseline_start` that there are
  -- points and all are later than the day, and `after_baseline_end` that there are points and all
  -- are earlier. No other reason is given.
  pub planned_value_at_step :
      (b : List (BaselinePoint D)) (t : ℕ) → Returns (IsPlanned b t) (planned_value_at b t)
  unfolding planned_value_at na
  planned_value_at_step [] t = refl
  planned_value_at_step (b ∷ bs) t =
      let (m, e, h) = Returns-ok (IsPlanned (ordered (b ∷ bs)) t) _ (
        value_in_order-IsPlanned_of_ne (ordered (b ∷ bs)) t (ordered-ne_nil b bs)
          (sort_by-IsSortedBy date_of (b ∷ bs))) in
      rw e (Planned-of_ordered b bs t m.value m.reason h)
