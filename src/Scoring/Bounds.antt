-- ===== src/Scoring/Bounds.antt =====
-- Every pattern score (app/tools/_core/pattern_logic.py) lies between 0.0 and 1.0.
use card_fraud_ops_analyst_a.Prelude.{
  ℕ, ◌≡◌, String, true, Option, none, some, List, [], ◌∷◌, leb, arith, refl, Bool-cases, inl, inr,
}
use card_fraud_ops_analyst_a.Value.{Value, Fields}
use card_fraud_ops_analyst_a.Floats.{Floats, max_f}
use card_fraud_ops_analyst_a.Scoring.Tally.{WindowStats, Tally, no_tally}
use card_fraud_ops_analyst_a.Scoring.Amount.{
  AmountThresholds, score_absolute, score_round, score_size, score_z, score_history, score_spike,
  amount_tally, calculate_mean, calculate_std_dev, historical_amounts,
}
use card_fraud_ops_analyst_a.Scoring.Time.{on_unusual_hour, on_category, on_countries, on_habit}
use card_fraud_ops_analyst_a.Scoring.Windows.{
  burst_1h, burst_6h, on_signal, decline_ratio, spread, score_velocity_patterns,
  score_decline_anomalies, score_cross_merchant_patterns,
}
use card_fraud_ops_analyst_a.Scoring.CardTesting.{on_ladder, on_declines, on_merchants, note_small}

module _ {F : Type 0} (fl : Floats F) where
  open fl use {pct, le, lt, pct_le, le_trans, mul, div, sub, from_nat}

  abbrev pub InUnit : F → Type 0
  InUnit x = (le (pct 0) x ≡ true) × (le x (pct 100) ≡ true)

  pub pct-InUnit : (n : ℕ) → leb n 100 ≡ true → InUnit (pct n)
  pct-InUnit n h = (unfold_zero, upper_bound)
    where
      unfold_zero : le (pct 0) (pct n) ≡ true
      unfold_zero = rw (pct_le 0 n (ground arith)) (ground arith)

      upper_bound : le (pct n) (pct 100) ≡ true
      upper_bound = rw (pct_le n 100 (ground arith)) h

  pub max_f-InUnit : (x : F) (n : ℕ) → leb n 100 ≡ true → InUnit x → InUnit (max_f fl x (pct n))
  unfolding max_f
  max_f-InUnit x n h b = elim (Bool-cases (lt x (pct n))) [
    | inl e ↦ rw e (pct-InUnit n h)
    | inr e ↦ rw e b
  ]

  -- A tally with its score between 0.0 and 1.0.
  abbrev pub Fits : Tally F → Type 0
  Fits t = InUnit t.score

  module _ (t : Tally F) (fits : Fits t) where
    burst_1h-Fits : (n : ℕ) (w : Option (WindowStats F)) → Fits (burst_1h fl n w t)
    burst_1h-Fits n none = fits
    burst_1h-Fits n (some w) = ground (arith, pct-InUnit 90 refl, pct-InUnit 60 refl)

    burst_6h-Fits : (n : ℕ) (w : Option (WindowStats F)) → Fits (burst_6h fl n w t)
    burst_6h-Fits n none = fits
    burst_6h-Fits n (some w) = ground (arith, max_f-InUnit t.score 80 refl fits)

    on_signal-Fits : (name : String) (signals : List String) → Fits (on_signal fl name signals t)
    on_signal-Fits name signals = ground (arith, max_f-InUnit t.score 70 refl fits)

    decline_ratio-Fits : (a b : F) (w : Option (WindowStats F)) → Fits (decline_ratio fl a b w t)
    decline_ratio-Fits a b none = fits
    decline_ratio-Fits a b (some w) = ground (arith, pct-InUnit 90 refl, pct-InUnit 60 refl)

    spread-Fits : (a b : ℕ) (w : Option (WindowStats F)) → Fits (spread fl a b w t)
    spread-Fits a b none = fits
    spread-Fits a b (some w) = ground (arith, pct-InUnit 80 refl, pct-InUnit 50 refl)

    score_absolute-Fits : (th : AmountThresholds F) (x : F) → Fits (score_absolute fl th x t)
    score_absolute-Fits th x =
        ground (arith, max_f-InUnit t.score 80 refl fits, max_f-InUnit t.score 50 refl fits)

    score_round-Fits : (th : AmountThresholds F) (x : F) → Fits (score_round fl th x t)
    score_round-Fits th x = ground (arith, pct-InUnit 70 refl)

    score_z-Fits : (th : AmountThresholds F) (m s z : F) → Fits (score_z fl th m s z t)
    score_z-Fits th m s z =
        ground (arith, max_f-InUnit t.score 90 refl fits, max_f-InUnit t.score 70 refl fits)

    score_spike-Fits : (x : F) (w : Option (WindowStats F)) → Fits (score_spike fl x w t)
    unfolding score_spike
    score_spike-Fits x none = fits
    score_spike-Fits x (some w) = ground (arith, max_f-InUnit t.score 60 refl fits)

  module _ (iso : String → Option ℕ) (t : Tally F) (fits : Fits t) where
    pub on_unusual_hour-Fits : (hs : List ℕ) (h : ℕ) → Fits (on_unusual_hour fl iso hs h t)
    on_unusual_hour-Fits hs h = ground (arith, pct-InUnit 40 refl)

    pub on_category-Fits : (h : ℕ) (mcc : Option (Value F)) → Fits (on_category fl iso h mcc t)
    on_category-Fits h mcc = ground (arith, max_f-InUnit t.score 80 refl fits)

    pub on_countries-Fits : (ip card : Option String) → Fits (on_countries fl iso ip card t)
    unfolding on_countries
    on_countries-Fits none card = fits
    on_countries-Fits (some ip) none = fits
    on_countries-Fits (some ip) (some card) = ground (arith, max_f-InUnit t.score 90 refl fits)

    pub on_habit-Fits : (h : Option ℕ) (hs : List ℕ) → Fits (on_habit fl iso h hs t)
    unfolding on_habit
    on_habit-Fits none hs = fits
    on_habit-Fits (some h) hs = ground (arith, max_f-InUnit t.score 60 refl fits)

    pub on_ladder-Fits : (xs : List F) → Fits (on_ladder fl iso xs t)
    on_ladder-Fits [] = fits
    on_ladder-Fits (x ∷ xs) = ground (arith, pct-InUnit 80 refl)

    pub on_declines-Fits : (recent : List (Fields F)) → Fits (on_declines fl iso recent t)
    unfolding on_declines
    on_declines-Fits recent = ground (arith, max_f-InUnit t.score 70 refl fits)

    pub on_merchants-Fits :
        (txn : Fields F) (recent : List (Fields F)) → Fits (on_merchants fl iso txn recent t)
    unfolding on_merchants
    on_merchants-Fits txn recent = ground (arith, max_f-InUnit t.score 60 refl fits)

    pub note_small-Fits : (n : ℕ) → Fits (note_small fl iso t n)
    note_small-Fits n = ground (arith, max_f-InUnit t.score 70 refl fits)

  pub no_tally-Fits : Fits (no_tally fl)
  no_tally-Fits = pct-InUnit 0 refl

  pub velocity-InUnit :
      (windows : ℕ → Option (WindowStats F)) (signals : List String) (a b : ℕ)
      → InUnit (score_velocity_patterns fl windows signals a b).score
  unfolding score_velocity_patterns
  velocity-InUnit windows signals a b =
      let first = burst_1h fl a (windows 1) (no_tally fl) in
      let second = burst_6h fl b (windows 6) first in
      on_signal-Fits second
        (burst_6h-Fits first (burst_1h-Fits (no_tally fl) no_tally-Fits a (windows 1)) b
          (windows 6))
        "burst_1h" signals

  pub decline-InUnit :
      (windows : ℕ → Option (WindowStats F)) (signals : List String) (a b : F)
      → InUnit (score_decline_anomalies fl windows signals a b).score
  unfolding score_decline_anomalies
  decline-InUnit windows signals a b =
      let first = decline_ratio fl a b (windows 24) (no_tally fl) in
      on_signal-Fits first (decline_ratio-Fits (no_tally fl) no_tally-Fits a b (windows 24))
        "high_decline_rate" signals

  pub cross-InUnit :
      (windows : ℕ → Option (WindowStats F)) (a b : ℕ)
      → InUnit (score_cross_merchant_patterns fl windows a b).score
  unfolding score_cross_merchant_patterns
  cross-InUnit windows a b = spread-Fits (no_tally fl) no_tally-Fits a b (windows 24)

  pub score_size-Fits :
      (th : AmountThresholds F) (x : F) (t : Tally F) → Fits t → Fits (score_size fl th x t)
  unfolding score_size
  score_size-Fits th x t fits = elim (Bool-cases (lt (pct 0) x)) [
    | inl e ↦ rw e (score_absolute-Fits (score_round fl th x t) (score_round-Fits t fits th x) th x)
    | inr e ↦ rw e fits
  ]

  pub score_history-Fits :
      (th : AmountThresholds F) (x : F) (xs : List F) (t : Tally F)
      → Fits t
      → Fits (score_history fl th x xs t)
  unfolding score_history
  score_history-Fits th x xs t fits =
      let mean = calculate_mean fl xs in
      let dev = calculate_std_dev fl xs mean in
      ground (arith, score_z-Fits t fits th mean dev (div (sub x mean) dev))

  pub amount_tally-Fits :
      (th : AmountThresholds F) (x : F) (history : List (Fields F)) (day : Option (WindowStats F))
      → Fits (amount_tally fl th x history day)
  amount_tally-Fits th x history day =
      let first = score_size fl th x (no_tally fl) in
      let xs = historical_amounts fl history in
      score_spike-Fits (score_history fl th x xs first)
        (score_history-Fits th x xs first (score_size-Fits th x (no_tally fl) no_tally-Fits)) x day
