-- ===== src/Analytics/Metrics/Totality.antt =====
-- No metric computation raises: each value is a number or carries a reason, never both or neither.
use ai_pmo_copilot.Common.{
  ℕ, Option, none, some, List, [], ◌∷◌, Returns, Returns-bind, leb, select, length,
  last_of_list-ne_none, ◌≤◌, ◌<◌, arith,
}
use ai_pmo_copilot.Common.Int.{pos}
use ai_pmo_copilot.Common.Sorting.{length-sort_by}
use ai_pmo_copilot.Analytics.Decimal.{DecimalOps, DecimalLaws}
use ai_pmo_copilot.Analytics.Metrics.{
  Reason, BaselinePoint, PerformanceSnapshotPoint, MetricValue, EvmSummary, present, covered_value,
  value_in_order, planned_value_at, latest_snapshot_at, bac_of, ac_of, ev_from, ev_of, ratio_from,
  ratio, difference_from, difference, eac_from, zero_actual_cost, zero_planned_value,
  estimate_at_completion, compute_evm_summary,
}

module _ {D : Type 0} where
  -- exactly one of the two is there
  abbrev pub IsExclusive : Option D → Option Reason → Type 0
  IsExclusive none none = ⊥
  IsExclusive (some v) (some r) = ⊥
  IsExclusive none (some r) = Unit
  IsExclusive (some v) none = Unit

  abbrev pub IsMetric : MetricValue D → Type 0
  IsMetric m = IsExclusive m.value m.reason

  bac_of-IsMetric : (b : List (BaselinePoint D)) → Returns IsMetric (bac_of b)
  unfolding bac_of
  bac_of-IsMetric [] = tt
  bac_of-IsMetric (b ∷ bs) = tt

  ac_of-IsMetric : (s : Option (PerformanceSnapshotPoint D)) → Returns IsMetric (ac_of s)
  unfolding ac_of
  ac_of-IsMetric none = tt
  ac_of-IsMetric (some s) = tt

module _ {D : Type 0} where
  covered_value-IsMetric :
      (x : BaselinePoint D) (xs : List (BaselinePoint D)) (t : ℕ)
      → x.period_date ≤ t
      → Returns IsMetric (covered_value (x ∷ xs) t)
  unfolding covered_value present
  covered_value-IsMetric x xs t h =
      ground
        (arith, last_of_list-ne_none x (select (λ (p : BaselinePoint D). leb p.period_date t) xs))

  value_in_order-IsMetric :
      (x : BaselinePoint D) (xs : List (BaselinePoint D)) (t : ℕ)
      → Returns IsMetric (value_in_order (x ∷ xs) t)
  unfolding value_in_order
  value_in_order-IsMetric x xs t =
      ground (arith, last_of_list-ne_none x xs, covered_value-IsMetric x xs t)

  value_in_order-IsMetric_of_pos :
      (xs : List (BaselinePoint D)) (t : ℕ) → 0 < length xs → Returns IsMetric (value_in_order xs t)
  value_in_order-IsMetric_of_pos [] t h = absurd (omega arith)
  value_in_order-IsMetric_of_pos (x ∷ xs) t h = value_in_order-IsMetric x xs t

  pub planned_value_at-IsMetric :
      (b : List (BaselinePoint D)) (t : ℕ) → Returns IsMetric (planned_value_at b t)
  unfolding planned_value_at
  planned_value_at-IsMetric [] t = tt
  planned_value_at-IsMetric (b ∷ bs) t =
      value_in_order-IsMetric_of_pos _ t
        (omega (arith, length-sort_by (λ (p : BaselinePoint D). p.period_date) (b ∷ bs)))

abbrev pub IsSummary : {D : Type 0} → EvmSummary D → Type 0
IsSummary s =
    IsMetric s.bac
    × IsMetric s.pv
    × IsMetric s.ev
    × IsMetric s.ac
    × IsMetric s.cpi
    × IsMetric s.spi
    × IsMetric s.cv
    × IsMetric s.sv
    × IsMetric s.eac
    × IsMetric s.etc
    × IsMetric s.vac

module _ (o : DecimalOps) (laws : DecimalLaws o) where
  open o use {Decimal, of_int, sub, mul, div, eqb}

  ev_from-IsMetric :
      (bac : Option Decimal) (r : Option Reason) (s : Option (PerformanceSnapshotPoint Decimal))
      → IsExclusive bac r
      → Returns IsMetric (ev_from o bac r s)
  unfolding ev_from
  ev_from-IsMetric none none s h = elim h [ ]
  ev_from-IsMetric none (some r) s h = tt
  ev_from-IsMetric (some b) r none h = tt
  ev_from-IsMetric (some b) r (some s) h = ground (
    arith,
    laws.div_defined (mul b (of_int s.progress_percentage)) (of_int (pos 100)) laws.hundred_ne_zero,
  )

  ratio_from-IsMetric :
      (n d : Option Decimal) (rn rd : Option Reason) (r : Reason)
      → IsExclusive n rn
      → IsExclusive d rd
      → Returns IsMetric (ratio_from o n d rn rd r)
  unfolding ratio_from
  ratio_from-IsMetric (some n) (some d) rn rd r hn hd = ground (arith, laws.div_defined n d)
  ratio_from-IsMetric n d rn rd r hn hd = ground arith

  difference_from-IsMetric :
      (m s : Option Decimal) (rm rs : Option Reason)
      → IsExclusive m rm
      → IsExclusive s rs
      → Returns IsMetric (difference_from o m s rm rs)
  unfolding difference_from
  difference_from-IsMetric m s rm rs hm hs = ground arith

  eac_from-IsMetric :
      (ac bac ev cpi : Option Decimal) (ra rb re rc : Option Reason)
      → IsExclusive ac ra
      → IsExclusive bac rb
      → IsExclusive ev re
      → IsExclusive cpi rc
      → Returns IsMetric (eac_from o ac bac ev cpi ra rb re rc)
  unfolding eac_from
  eac_from-IsMetric (some ac) (some bac) (some ev) (some cpi) ra rb re rc ha hb he hc =
      ground (arith, laws.div_defined (sub bac ev) cpi)
  eac_from-IsMetric ac bac ev cpi ra rb re rc ha hb he hc = ground arith

  ev_of-IsMetric :
      (bac : MetricValue Decimal) (s : Option (PerformanceSnapshotPoint Decimal))
      → IsMetric bac
      → Returns IsMetric (ev_of o bac s)
  unfolding ev_of
  ev_of-IsMetric bac s h = ev_from-IsMetric bac.value bac.reason s h

  pub ratio-IsMetric :
      (n d : MetricValue Decimal) (r : Reason)
      → IsMetric n
      → IsMetric d
      → Returns IsMetric (ratio o n d r)
  unfolding ratio
  ratio-IsMetric n d r hn hd = ratio_from-IsMetric n.value d.value n.reason d.reason r hn hd

  difference-IsMetric :
      (m s : MetricValue Decimal) → IsMetric m → IsMetric s → Returns IsMetric (difference o m s)
  unfolding difference
  difference-IsMetric m s hm hs = difference_from-IsMetric m.value s.value m.reason s.reason hm hs

  eac-IsMetric :
      (ac bac ev cpi : MetricValue Decimal)
      → IsMetric ac
      → IsMetric bac
      → IsMetric ev
      → IsMetric cpi
      → Returns IsMetric (estimate_at_completion o ac bac ev cpi)
  unfolding estimate_at_completion
  eac-IsMetric ac bac ev cpi ha hb he hc =
      eac_from-IsMetric ac.value bac.value ev.value cpi.value ac.reason bac.reason ev.reason
        cpi.reason ha hb he hc

  -- On every baseline, every snapshot history and every day the summary is computed without an
  -- error, and each of its eleven metrics is either a number or a reason, never both or neither.
  pub compute_evm_summary_total :
      (baseline : List (BaselinePoint Decimal))
      (snapshots : List (PerformanceSnapshotPoint Decimal)) (as_of : ℕ)
      → Returns IsSummary (compute_evm_summary o baseline snapshots as_of)
  unfolding compute_evm_summary
  compute_evm_summary_total baseline snapshots as_of =
      let snapshot = latest_snapshot_at snapshots as_of in
      Returns-bind IsMetric IsSummary _ _ (bac_of-IsMetric baseline) λ bac hbac.
        Returns-bind IsMetric IsSummary _ _ (planned_value_at-IsMetric baseline as_of) λ pv hpv.
          Returns-bind IsMetric IsSummary _ _ (ac_of-IsMetric snapshot) λ ac hac.
            Returns-bind IsMetric IsSummary _ _ (ev_of-IsMetric bac snapshot hbac) λ ev hev.
              Returns-bind IsMetric IsSummary _ _ (ratio-IsMetric ev ac zero_actual_cost hev hac)
                λ cpi hcpi.
                  Returns-bind IsMetric IsSummary _ _
                    (ratio-IsMetric ev pv zero_planned_value hev hpv)
                    λ spi hspi.
                      Returns-bind IsMetric IsSummary _ _ (difference-IsMetric ev ac hev hac)
                        λ cv hcv.
                          Returns-bind IsMetric IsSummary _ _ (difference-IsMetric ev pv hev hpv)
                            λ sv hsv.
                              Returns-bind IsMetric IsSummary _ _
                                (eac-IsMetric ac bac ev cpi hac hbac hev hcpi)
                                λ eac heac.
                                  Returns-bind IsMetric IsSummary _ _
                                    (difference-IsMetric eac ac heac hac)
                                    λ etc hetc.
                                      Returns-bind IsMetric IsSummary _ _
                                        (difference-IsMetric bac eac hbac heac)
                                        λ vac hvac. (
                                          hbac, hpv, hev, hac, hcpi, hspi, hcv, hsv, heac, hetc,
                                          hvac,
                                        )
