-- ===== src/Analytics/Signals/LastTwo.antt =====
-- What a trend signal says of the last two ratios of a series.
use ai_pmo_copilot.Common.{
  ℕ, String, ◌≡◌, refl, true, false, inl, inr, ◌⊎◌, Option, none, some, [], ◌∷◌, ◌++◌, arith,
  Bool-cases, ap,
}
use ai_pmo_copilot.Common.Int.{pos}
use ai_pmo_copilot.Analytics.Decimal.{DecimalOps}
use ai_pmo_copilot.Analytics.Signals.{
  ExecutiveSignal, SignalType, Metric, Provenance, info, warning, critical, recovery_trend, down,
  ratio_change, up, Series, last_two, signal_of_change, signal_of_last, trend_signal,
}

module _ (o : DecimalOps) where
  open o use {Decimal, of_int, eqb, ltb_d}

  -- What the severity and the type of a trend signal say of its two ratios.
  pub record IsBacked (type : SignalType) (s : ExecutiveSignal Decimal) : Type 0 where
    pub changed : eqb s.current_value s.baseline_or_threshold ≡ false
    pub deteriorating :
        s.trend ≡ down
        → (ltb_d s.current_value s.baseline_or_threshold ≡ true) × (s.signal_type ≡ type)
    pub recovering :
        s.trend ≡ up
        → (ltb_d s.current_value s.baseline_or_threshold ≡ false)
          × (s.signal_type ≡ recovery_trend)
          × (s.severity ≡ info)
    pub critical_below_one :
        s.severity ≡ critical → (s.trend ≡ down) × (ltb_d s.current_value (of_int (pos 1)) ≡ true)
    pub warning_from_one :
        s.severity ≡ warning → (s.trend ≡ down) × (ltb_d s.current_value (of_int (pos 1)) ≡ false)

  -- A signal, or none, for the two ratios: there is none exactly if they are equal, and one shows
  -- them, with their days, its scope and its metric.
  abbrev pub Backed :
      ℕ × Decimal
      → ℕ × Decimal
      → String
      → Metric
      → SignalType
      → Option (ExecutiveSignal Decimal)
      → Type 0
  Backed previous latest scope metric type none = eqb latest.1 previous.1 ≡ true
  Backed previous latest scope metric type (some s) =
      IsBacked type s
      × (s.current_value ≡ latest.1)
      × (s.baseline_or_threshold ≡ previous.1)
      × (s.period ≡ latest.0)
      × (s.scope ≡ scope)
      × (s.metric ≡ metric)
      × (s.evidence_reference ≡ ratio_change previous.0 previous.1 latest.0 latest.1)

  -- What is derived from a series: nothing from fewer than two ratios, else what the last two back.
  abbrev pub FromSeries :
      Series o → String → Metric → SignalType → Option (ExecutiveSignal Decimal) → Type 0
  FromSeries series scope metric type signal =
      ((series ≡ []) × (signal ≡ none))
      ⊎ ((only : ℕ × Decimal) × (series ≡ only ∷ []) × (signal ≡ none))
      ⊎ ((earlier : Series o) × (previous : ℕ × Decimal) × (latest : ℕ × Decimal) × (series
            ≡ earlier ++ previous ∷ latest ∷ [])
          × Backed previous latest scope metric type signal)

  signal_of_change-IsBacked :
      (p l : ℕ × Decimal) (scope : String) (m : Metric) (type : SignalType) (pr : Provenance)
      → Backed p l scope m type (signal_of_change o p l scope m type pr)
  unfolding signal_of_change
  signal_of_change-IsBacked (d, p) (e, l) scope m type pr = elim (Bool-cases (eqb l p)) [
    | inl same ↦ rw same same
    | inr differ ↦ rw differ (
      record {
        changed = differ;
        deteriorating = ground arith;
        recovering = ground arith;
        critical_below_one = ground arith;
        warning_from_one = ground arith;
      },
      refl,
      refl,
      refl,
      refl,
      refl,
      refl,
    )
  ]

  last_two-append :
      (series : Series o) (x y : ℕ × Decimal)
      → (earlier : Series o) × (previous : ℕ × Decimal) × (latest : ℕ × Decimal) × (x ∷ y ∷ series
          ≡ earlier ++ previous ∷ latest ∷ [])
        × (last_two o (x ∷ y ∷ series) ≡ some (previous, latest))
  unfolding last_two
  last_two-append [] x y = ([], x, y, refl, refl)
  last_two-append (z ∷ series) x y =
      let (earlier, previous, latest, shape, last) = last_two-append series y z in
      (x ∷ earlier, previous, latest, ap (λ l. x ∷ l) shape, last)

  pub trend_signal-FromSeries :
      (series : Series o) (scope : String) (m : Metric) (type : SignalType) (pr : Provenance)
      → FromSeries series scope m type (trend_signal o series scope m type pr)
  unfolding trend_signal last_two signal_of_last
  trend_signal-FromSeries [] scope m type pr = inl (refl, refl)
  trend_signal-FromSeries (x ∷ []) scope m type pr = inr (inl (x, refl, refl))
  trend_signal-FromSeries (x ∷ y ∷ series) scope m type pr =
      let (earlier, previous, latest, shape, last) = last_two-append series x y in
      inr (
        inr (
          earlier,
          previous,
          latest,
          shape,
          rw last (signal_of_change-IsBacked previous latest scope m type pr),
        ))
