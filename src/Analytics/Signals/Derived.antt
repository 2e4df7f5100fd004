-- ===== src/Analytics/Signals/Derived.antt =====
-- No signal divides by zero, and what a signal says is backed by the ratios that it shows.
use ai_pmo_copilot.Common.{
  not, ℕ, String, ◌≡◌, refl, Bool, true, false, inl, inr, ◌⊎◌, Option, none, some, List, [], ◌∷◌,
  ◌++◌, Returns, Returns-bind, ok, err, if◌then◌else◌, arith, Bool-cases, Option-cases, ap,
}
use ai_pmo_copilot.Analytics.Decimal.{DecimalOps, DecimalLaws}
use ai_pmo_copilot.Analytics.Metrics.{MetricValue, EvmSummary, HistoryPoint, Outcome}
use ai_pmo_copilot.Analytics.Signals.{
  ExecutiveSignal, SignalType, Metric, warning, critical, down, cpi_metric, spi_metric, up, Series,
  zero_d, ratio_entry, ratio_series, cost_performance_deteriorating,
  schedule_performance_deteriorating, forecast_deviation_threshold,
  forecast_deviation_critical_threshold, derive_cost_performance_signal,
  derive_schedule_performance_signal, forecast_from, derive_forecast_deviation_signal,
}
use ai_pmo_copilot.Analytics.Signals.LastTwo.{FromSeries, trend_signal-FromSeries}

module _ (o : DecimalOps) where
  open o use {Decimal, of_int, eqb, ltb_d}

  -- `p` adds nothing to the series of `num / den`.
  abbrev pub IsUnusable :
      (HistoryPoint Decimal → MetricValue Decimal)
      → (HistoryPoint Decimal → MetricValue Decimal)
      → HistoryPoint Decimal
      → Type 0
  IsUnusable num den p =
      ((num p).value ≡ none)
      ⊎ ((den p).value ≡ none)
      ⊎ ((d : Decimal) × ((den p).value ≡ some d) × (eqb d (zero_d o) ≡ true))

  -- The series of `num / den`: each point with both and a `den` that is not 0 gives its day and its
  -- ratio, in the order of the history; the others give nothing.
  pub data Ratios (num den : HistoryPoint Decimal → MetricValue Decimal)
      : List (HistoryPoint Decimal) → Series o → Type 0 where
    no_points : Ratios num den [] []
    unusable :
        (p : HistoryPoint Decimal) (ps : List (HistoryPoint Decimal)) (series : Series o)
        → IsUnusable num den p
        → Ratios num den ps series
        → Ratios num den (p ∷ ps) series
    usable :
        (p : HistoryPoint Decimal) (ps : List (HistoryPoint Decimal)) (series : Series o)
        (n d q : Decimal)
        → (num p).value ≡ some n
        → (den p).value ≡ some d
        → eqb d (zero_d o) ≡ false
        → o.div n d ≡ some q
        → Ratios num den ps series
        → Ratios num den (p ∷ ps) ((p.as_of, q) ∷ series)

  -- What is derived from a history.
  abbrev pub FromHistory :
      (HistoryPoint Decimal → MetricValue Decimal)
      → (HistoryPoint Decimal → MetricValue Decimal)
      → List (HistoryPoint Decimal)
      → String
      → Metric
      → SignalType
      → Option (ExecutiveSignal Decimal)
      → Type 0
  FromHistory num den history scope metric type signal =
      (series : Series o) × Ratios num den history series
      × FromSeries o series scope metric type signal

  ratio_entry_skip :
      (day : ℕ) (n d : Option Decimal) (rest : Outcome (Series o))
      → (n ≡ none) ⊎ (d ≡ none) ⊎ ((x : Decimal) × (d ≡ some x) × (eqb x (zero_d o) ≡ true))
      → ratio_entry o day n d rest ≡ rest
  unfolding ratio_entry
  ratio_entry_skip day none d rest h = refl
  ratio_entry_skip day (some n) none rest h = refl
  ratio_entry_skip day (some n) (some d) rest h = ground arith

  ratio_series-append_unusable :
      (num den : HistoryPoint Decimal → MetricValue Decimal) (history : List (HistoryPoint Decimal))
      (p : HistoryPoint Decimal)
      → IsUnusable num den p
      → ratio_series o num den (history ++ p ∷ []) ≡ ratio_series o num den history
  unfolding ratio_series
  ratio_series-append_unusable num den [] p h =
      ratio_entry_skip p.as_of (num p).value (den p).value _ h
  ratio_series-append_unusable num den (q ∷ qs) p h =
      ap (ratio_entry o q.as_of (num q).value (den q).value)
        (ratio_series-append_unusable num den qs p h)

  -- A point with no EV, no AC or an AC of 0 at the end of the history leaves the cost signal as it
  -- was.
  pub derive_cost_performance_signal-append_unusable :
      (history : List (HistoryPoint Decimal)) (p : HistoryPoint Decimal) (scope : String)
      → IsUnusable (λ q. q.ev) (λ q. q.ac) p
      → derive_cost_performance_signal o (history ++ p ∷ []) scope
        ≡ derive_cost_performance_signal o history scope
  unfolding derive_cost_performance_signal
  derive_cost_performance_signal-append_unusable history p scope h =
      rw (ratio_series-append_unusable (λ q. q.ev) (λ q. q.ac) history p h)

module _ (o : DecimalOps) (laws : DecimalLaws o) where
  open o use {Decimal, abs, div, eqb, ltb_d, leb_d}

  ratio_entry-Ratios :
      (num den : HistoryPoint Decimal → MetricValue Decimal) (p : HistoryPoint Decimal)
      (ps : List (HistoryPoint Decimal)) (rest : Outcome (Series o)) (n d : Option Decimal)
      → (num p).value ≡ n
      → (den p).value ≡ d
      → Returns (Ratios o num den ps) rest
      → Returns (Ratios o num den (p ∷ ps)) (ratio_entry o p.as_of n d rest)
  unfolding ratio_entry
  ratio_entry-Ratios num den p ps (err e) none d en ed h = h
  ratio_entry-Ratios num den p ps (ok series) none d en ed h = unusable p ps series (inl en) h
  ratio_entry-Ratios num den p ps (err e) (some n) none en ed h = h
  ratio_entry-Ratios num den p ps (ok series) (some n) none en ed h =
      unusable p ps series (inr (inl ed)) h
  ratio_entry-Ratios num den p ps (err e) (some n) (some d) en ed h = elim h [ ]
  ratio_entry-Ratios num den p ps (ok series) (some n) (some d) en ed h =
      elim (Bool-cases (eqb d (zero_d o))) [
        | inl zero ↦ rw zero (unusable p ps series (inr (inr (d, ed, zero))) h)
        | inr nonzero ↦ elim (Option-cases (div n d)) [
          | inl undefined ↦ absurd (laws.div_defined n d nonzero undefined)
          | inr (q, e) ↦ rw (nonzero, e) (usable p ps series n d q en ed nonzero e h)
        ]
      ]

  ratio_series-Ratios :
      (num den : HistoryPoint Decimal → MetricValue Decimal) (history : List (HistoryPoint Decimal))
      → Returns (Ratios o num den history) (ratio_series o num den history)
  unfolding ratio_series
  ratio_series-Ratios num den [] = no_points
  ratio_series-Ratios num den (p ∷ ps) =
      ratio_entry-Ratios num den p ps _ (num p).value (den p).value refl refl
        (ratio_series-Ratios num den ps)

  -- On every history both trend signals are derived without an error, from the ratios EV / AC and
  -- EV / PV of the points that have both numbers and a divisor other than 0, in the order of the
  -- history. There is no signal exactly if there are fewer than two ratios or the last two are equal;
  -- one shows the last two and their days, its scope and its metric. A falling one has the type of its
  -- metric, a rising one is a recovery with severity info; critical means a fall to a ratio below 1,
  -- warning a fall to one of 1 or more.
  pub trend_signals-Backed :
      (history : List (HistoryPoint Decimal)) (scope : String)
      → Returns
          (FromHistory o
            (λ p. p.ev)
            (λ p. p.ac)
            history
            scope
            cpi_metric
            cost_performance_deteriorating)
          (derive_cost_performance_signal o history scope)
        × Returns
            (FromHistory o
              (λ p. p.ev)
              (λ p. p.pv)
              history
              scope
              spi_metric
              schedule_performance_deteriorating)
            (derive_schedule_performance_signal o history scope)
  unfolding derive_cost_performance_signal derive_schedule_performance_signal
  trend_signals-Backed history scope = (
    Returns-bind (Ratios o (λ p. p.ev) (λ p. p.ac) history) _ _ _
        (ratio_series-Ratios (λ p. p.ev) (λ p. p.ac) history)
        λ series r. (series, r, trend_signal-FromSeries o series scope _ _ _),
    Returns-bind (Ratios o (λ p. p.ev) (λ p. p.pv) history) _ _ _
        (ratio_series-Ratios (λ p. p.ev) (λ p. p.pv) history)
        λ series r. (series, r, trend_signal-FromSeries o series scope _ _ _),
  )

  abbrev deviates : Decimal → Bool
  deviates ratio = not (ltb_d ratio (forecast_deviation_threshold o))

  -- Without a signal there is no BAC, no VAC, a BAC of 0, or a share below the threshold; with one
  -- there is a share of at least the threshold, critical from the second threshold on.
  abbrev pub Forecast : Option Decimal → Option Decimal → Option (ExecutiveSignal Decimal) → Type 0
  Forecast (some bac) (some vac) none =
      (eqb bac (zero_d o) ≡ true)
      ⊎ ((ratio : Decimal) × (div (abs vac) bac ≡ some ratio) × (deviates ratio ≡ false))
  Forecast _ _ none = Unit
  Forecast (some bac) (some vac) (some s) =
      (ratio : Decimal) × (div (abs vac) bac ≡ some ratio)
      × (deviates ratio ≡ true)
      × (s.severity
          ≡ (if leb_d (forecast_deviation_critical_threshold o) ratio then critical else warning))
      × (s.trend ≡ (if ltb_d vac (zero_d o) then down else up))
  Forecast _ _ (some s) = ⊥

  forecast_from-Forecast :
      (bac vac : Option Decimal) (scope : String) (as_of : ℕ)
      → Returns (Forecast bac vac) (forecast_from o bac vac scope as_of)
  unfolding forecast_from
  forecast_from-Forecast none none scope as_of = tt
  forecast_from-Forecast none (some v) scope as_of = tt
  forecast_from-Forecast (some b) none scope as_of = tt
  forecast_from-Forecast (some b) (some v) scope as_of = elim (Bool-cases (eqb b (zero_d o))) [
    | inl z ↦ rw z (inl z)
    | inr nz ↦ elim (Option-cases (div (abs v) b)) [
      | inl undefined ↦ absurd (laws.div_defined (abs v) b nz undefined)
      | inr (q, e) ↦
          rw (nz, e)
            (elim (Bool-cases (ltb_d q (forecast_deviation_threshold o))) [
              | inl small ↦ rw small (inr (q, e, ap not small))
              | inr large ↦ rw large (q, e, ap not large, refl, refl)
            ])
    ]
  ]

  -- On every summary the forecast signal is derived without an error. There is one exactly when the
  -- summary has a BAC that is not 0 and a VAC, and the share |VAC| / BAC is not below the first
  -- threshold; it is critical from the second threshold on and a warning below it, and its trend is
  -- down exactly for a negative VAC.
  pub derive_forecast_deviation_signal_lem :
      (summary : EvmSummary Decimal) (scope : String) (as_of : ℕ)
      → Returns
          (Forecast summary.bac.value summary.vac.value)
          (derive_forecast_deviation_signal o summary scope as_of)
  unfolding derive_forecast_deviation_signal
  derive_forecast_deviation_signal_lem summary scope as_of =
      forecast_from-Forecast summary.bac.value summary.vac.value scope as_of
