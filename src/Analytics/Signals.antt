-- ===== src/Analytics/Signals.antt =====
-- src/services/executive_analytics/executive_signal_engine.py: the signals of one project.
-- The texts of `evidence_reference` and `provenance` are data here: what they are written from.
pub mod LastTwo
pub mod Derived
use ai_pmo_copilot.Common.{
  ℕ, String, Option, none, some, Bool, true, false, ◌&&◌, List, [], ◌∷◌, Result, ok, err, ◌>>=◌,
  or_raise, if◌then◌else◌,
}
use ai_pmo_copilot.Common.Int.{pos}
use ai_pmo_copilot.Analytics.Decimal.{DecimalOps}
use ai_pmo_copilot.Analytics.Metrics.{
  MetricValue, EvmSummary, HistoryPoint, Outcome, division_by_zero,
}

pub data SignalType : Type 0 where
  cost_performance_deteriorating schedule_performance_deteriorating : SignalType
  recovery_trend forecast_deviation : SignalType

pub data Severity : Type 0 where
  info warning critical : Severity

pub data Trend : Type 0 where
  down up : Trend

pub data Metric : Type 0 where
  cpi_metric spi_metric vac_over_bac : Metric

-- the numbers that `evidence_reference` shows
pub data Reference (D : Type 0) : Type 0 where
  ratio_change : ℕ → D → ℕ → D → Reference D
  deviation : D → D → Reference D

pub data Provenance : Type 0 where
  from_history_series from_evm_summary : Provenance

pub record ExecutiveSignal (D : Type 0) : Type 0 where
  pub signal_type : SignalType
  pub severity : Severity
  pub scope : String
  pub metric : Metric
  pub current_value : D
  pub baseline_or_threshold : D
  pub trend : Trend
  pub period : ℕ
  pub evidence_reference : Reference D
  pub provenance : Provenance

module _ (o : DecimalOps) where
  open o use {Decimal, of_int, mul, div, abs, eqb, ltb_d, leb_d, literal}

  abbrev pub zero_d : Decimal
  zero_d = of_int (pos 0)

  abbrev pub Series : Type 0
  Series = List (ℕ × Decimal)

  -- `series.append((point.as_of, num / den))`, or `continue`
  ratio_entry : ℕ → Option Decimal → Option Decimal → Outcome Series → Outcome Series
  ratio_entry day none den rest = rest
  ratio_entry day (some n) none rest = rest
  ratio_entry day (some n) (some d) rest =
      if eqb d zero_d
      then rest
      else do q ← or_raise division_by_zero (div n d); series ← rest; ok ((day, q) ∷ series)

  -- `_ratio_series`, with the two attributes as selectors
  unfoldable pub ratio_series :
      (HistoryPoint Decimal → MetricValue Decimal)
      → (HistoryPoint Decimal → MetricValue Decimal)
      → List (HistoryPoint Decimal)
      → Outcome Series
  unfolding ratio_entry
  ratio_series numerator denominator [] = ok []
  ratio_series numerator denominator (p ∷ ps) =
      ratio_entry p.as_of (numerator p).value (denominator p).value
        (ratio_series numerator denominator ps)

  -- The last two entries, `series[-2]` and `series[-1]`; `none` for fewer than two.
  unfoldable pub last_two : Series → Option ((ℕ × Decimal) × (ℕ × Decimal))
  last_two [] = none
  last_two (x ∷ []) = none
  last_two (x ∷ y ∷ []) = some (x, y)
  last_two (x ∷ y ∷ z ∷ rest) = last_two (y ∷ z ∷ rest)

  unfoldable pub signal_of_change :
      ℕ × Decimal
      → ℕ × Decimal
      → String
      → Metric
      → SignalType
      → Provenance
      → Option (ExecutiveSignal Decimal)
  signal_of_change (previous_date, previous_ratio) (latest_date, latest_ratio) scope metric type
        provenance =
      let is_deteriorating = ltb_d latest_ratio previous_ratio in
      let severity = if ltb_d latest_ratio (of_int (pos 1)) then critical else warning in
      if eqb latest_ratio previous_ratio
      then none
      else some (record {
        signal_type = if is_deteriorating then type else recovery_trend;
        severity = if is_deteriorating then severity else info;
        scope = scope;
        metric = metric;
        current_value = latest_ratio;
        baseline_or_threshold = previous_ratio;
        trend = if is_deteriorating then down else up;
        period = latest_date;
        evidence_reference = ratio_change previous_date previous_ratio latest_date latest_ratio;
        provenance = provenance;
      })

  signal_of_last :
      Option ((ℕ × Decimal) × (ℕ × Decimal))
      → String
      → Metric
      → SignalType
      → Provenance
      → Option (ExecutiveSignal Decimal)
  signal_of_last none scope metric type provenance = none
  signal_of_last (some (previous, latest)) scope metric type provenance =
      signal_of_change previous latest scope metric type provenance

  -- `_trend_signal`
  unfoldable pub trend_signal :
      Series → String → Metric → SignalType → Provenance → Option (ExecutiveSignal Decimal)
  unfolding signal_of_last
  trend_signal series scope metric type provenance =
      signal_of_last (last_two series) scope metric type provenance

  unfoldable pub derive_cost_performance_signal :
      List (HistoryPoint Decimal) → String → Outcome (Option (ExecutiveSignal Decimal))
  derive_cost_performance_signal history scope = do
    series ← ratio_series (λ p. p.ev) (λ p. p.ac) history
    ok (trend_signal series scope cpi_metric cost_performance_deteriorating from_history_series)

  unfoldable pub derive_schedule_performance_signal :
      List (HistoryPoint Decimal) → String → Outcome (Option (ExecutiveSignal Decimal))
  derive_schedule_performance_signal history scope = do
    series ← ratio_series (λ p. p.ev) (λ p. p.pv) history
    ok (trend_signal series scope spi_metric schedule_performance_deteriorating from_history_series)

  -- `Decimal("0.1")` and `Decimal("0.25")`
  abbrev pub forecast_deviation_threshold : Decimal
  forecast_deviation_threshold = literal 1 1

  abbrev pub forecast_deviation_critical_threshold : Decimal
  forecast_deviation_critical_threshold = literal 25 2

  forecast_from :
      Option Decimal → Option Decimal → String → ℕ → Outcome (Option (ExecutiveSignal Decimal))
  forecast_from none vac scope as_of = ok none
  forecast_from (some bac) none scope as_of = ok none
  forecast_from (some bac) (some vac) scope as_of = if eqb bac zero_d then ok none else do
    ratio ← or_raise division_by_zero (div (abs vac) bac)
    if ltb_d ratio forecast_deviation_threshold
        then ok none
        else ok (
            some (record {
              signal_type = forecast_deviation;
              severity =
                  if leb_d forecast_deviation_critical_threshold ratio then critical else warning;
              scope = scope;
              metric = vac_over_bac;
              current_value = mul ratio (of_int (pos 100));
              baseline_or_threshold = mul forecast_deviation_threshold (of_int (pos 100));
              trend = if ltb_d vac zero_d then down else up;
              period = as_of;
              evidence_reference = deviation vac bac;
              provenance = from_evm_summary;
            }))

  unfoldable pub derive_forecast_deviation_signal :
      EvmSummary Decimal → String → ℕ → Outcome (Option (ExecutiveSignal Decimal))
  unfolding forecast_from
  derive_forecast_deviation_signal summary scope as_of =
      forecast_from summary.bac.value summary.vac.value scope as_of
