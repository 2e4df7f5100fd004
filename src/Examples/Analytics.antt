-- ===== src/Examples/Analytics.antt =====
-- The metrics and the signals of one project, over whole non-negative numbers for its decimals:
-- src/services/executive_analytics/.
use ai_pmo_copilot.Common.{
  ℕ, ◌+◌, ◌-◌, ◌*◌, ◌≡◌, ◌≢◌, refl, false, Option, none, some, List, [], ◌∷◌, ◌++◌, ok, ◌>>=◌,
  Returns, ltb, leb, ◌==◌, if◌then◌else◌, arith, inr,
}
use Prim.Native.Nat.{◌/◌}
use ai_pmo_copilot.Common.Int.{ℤ, pos, negsuc}
use ai_pmo_copilot.Common.Sorting.{IsSortedBy, sort_by}
use ai_pmo_copilot.Analytics.Decimal.{DecimalOps, DecimalLaws}
use ai_pmo_copilot.Analytics.Metrics.{
  BaselinePoint, PerformanceSnapshotPoint, HistoryPoint, MetricValue, EvmSummary,
  compute_evm_summary, build_history_series, history_point, planned_value_at,
}
use ai_pmo_copilot.Analytics.Metrics.Totality.{IsSummary, compute_evm_summary_total}
use ai_pmo_copilot.Analytics.Metrics.PlannedValue.{IsPlanned, planned_value_at_step}
use ai_pmo_copilot.Analytics.Metrics.History.{
  IsHistory, date_of, compute_evm_summary-append_later, build_history_series-append_later,
  build_history_series_total,
}
use ai_pmo_copilot.Analytics.Signals.{
  derive_cost_performance_signal, derive_schedule_performance_signal,
  derive_forecast_deviation_signal, cost_performance_deteriorating, cpi_metric, spi_metric,
  schedule_performance_deteriorating,
}
use ai_pmo_copilot.Analytics.Signals.Derived.{
  FromHistory, Forecast, derive_cost_performance_signal-append_unusable, trend_signals-Backed,
  derive_forecast_deviation_signal_lem,
}

abbrev whole : ℤ → ℕ
whole (pos n) = n
whole (negsuc n) = 0

abbrev divided : ℕ → ℕ → Option ℕ
divided a b = if b == 0 then none else some (a / b)

abbrev numbers : DecimalOps
numbers = record {
  Decimal = ℕ;
  of_int = whole;
  add = λ a b. a + b;
  sub = λ a b. a - b;
  mul = λ a b. a * b;
  div = divided;
  abs = λ a. a;
  eqb = λ a b. a == b;
  ltb_d = ltb;
  leb_d = leb;
  literal = λ a b. a;
}

divided_defined : (a b : ℕ) → (b == 0) ≡ false → divided a b ≢ none
divided_defined a b h = rw h (cc)

number_laws : DecimalLaws numbers
number_laws = record { div_defined = divided_defined; hundred_ne_zero = refl }

abbrev baseline : List (BaselinePoint ℕ)
baseline =
    record { period_date = 10; planned_value = 100; bac_reference = 400 }
    ∷ record { period_date = 20; planned_value = 200; bac_reference = 400 }
    ∷ []

abbrev snapshot : ℕ → ℕ → ℤ → PerformanceSnapshotPoint ℕ
snapshot day cost progress = record {
  snapshot_date = day;
  actual_cost = cost;
  progress_percentage = progress;
}

abbrev snapshots : List (PerformanceSnapshotPoint ℕ)
snapshots = snapshot 12 80 (pos 25) ∷ snapshot 15 150 (pos 30) ∷ []

planned_value_at_step_example : Returns (IsPlanned baseline 15) (planned_value_at baseline 15)
planned_value_at_step_example = planned_value_at_step baseline 15

compute_evm_summary_total_example :
    Returns IsSummary (compute_evm_summary numbers baseline snapshots 15)
compute_evm_summary_total_example =
    compute_evm_summary_total numbers number_laws baseline snapshots 15

compute_evm_summary-append_later_example :
    compute_evm_summary numbers baseline (snapshots ++ snapshot 30 9 (pos 40) ∷ []) 15
    ≡ compute_evm_summary numbers baseline snapshots 15
compute_evm_summary-append_later_example =
    compute_evm_summary-append_later numbers baseline snapshots (snapshot 30 9 (pos 40) ∷ []) 15
      (omega arith, tt)

build_history_series-append_later_example :
    build_history_series numbers baseline (snapshots ++ snapshot 30 9 (pos 40) ∷ []) ≡ (
      build_history_series numbers baseline snapshots >>= λ ps.
      history_point numbers baseline (snapshots ++ snapshot 30 9 (pos 40) ∷ []) 30 >>= λ p.
      ok (ps ++ p ∷ []))
build_history_series-append_later_example =
    build_history_series-append_later numbers baseline snapshots (snapshot 30 9 (pos 40))
      (omega arith, (omega arith, tt))

build_history_series_total_example :
    Returns
      (λ ps.
        IsHistory numbers number_laws (sort_by date_of snapshots) ps
        × IsSortedBy date_of (sort_by date_of snapshots))
      (build_history_series numbers baseline snapshots)
build_history_series_total_example =
    build_history_series_total numbers number_laws baseline snapshots

abbrev known : ℕ → MetricValue ℕ
known n = record { value = some n; reason = none }

abbrev point : ℕ → ℕ → ℕ → HistoryPoint ℕ
point day earned cost = record { as_of = day; pv = known 100; ev = known earned; ac = known cost }

abbrev history : List (HistoryPoint ℕ)
history = point 12 300 100 ∷ point 15 300 150 ∷ []

trend_signals-Backed_example :
    Returns
      (FromHistory numbers
        (λ p. p.ev)
        (λ p. p.ac)
        history
        "p"
        cpi_metric
        cost_performance_deteriorating)
      (derive_cost_performance_signal numbers history "p")
    × Returns
        (FromHistory numbers
          (λ p. p.ev)
          (λ p. p.pv)
          history
          "p"
          spi_metric
          schedule_performance_deteriorating)
        (derive_schedule_performance_signal numbers history "p")
trend_signals-Backed_example = trend_signals-Backed numbers number_laws history "p"

derive_cost_performance_signal-append_unusable_example :
    derive_cost_performance_signal numbers (history ++ point 20 50 0 ∷ []) "p"
    ≡ derive_cost_performance_signal numbers history "p"
derive_cost_performance_signal-append_unusable_example =
    derive_cost_performance_signal-append_unusable numbers history (point 20 50 0) "p"
      (inr (inr (0, refl, refl)))

abbrev summary : EvmSummary ℕ
summary = record {
  bac = known 400;
  pv = known 100;
  ev = known 100;
  ac = known 80;
  cpi = known 1;
  spi = known 1;
  cv = known 20;
  sv = known 0;
  eac = known 400;
  etc = known 320;
  vac = known 0;
}

derive_forecast_deviation_signal_lem_example :
    Returns
      (Forecast numbers number_laws (some 400) (some 0))
      (derive_forecast_deviation_signal numbers summary "p" 15)
derive_forecast_deviation_signal_lem_example =
    derive_forecast_deviation_signal_lem numbers number_laws summary "p" 15
