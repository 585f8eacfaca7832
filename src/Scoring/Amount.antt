-- ===== src/Scoring/Amount.antt =====
-- `score_amount_anomalies` of app/tools/_core/pattern_logic.py.
use mathlib.Core.Option
use card_fraud_ops_analyst_a.Prelude.{
  ℕ, ◌+◌, Bool, true, false, Option, none, some, List, [], ◌∷◌, if◌then◌else◌, ◌&&◌, map, length,
  ltb,
}
use card_fraud_ops_analyst_a.Value.{Value, null, num, bool, Fields, get}
use card_fraud_ops_analyst_a.Floats.{Floats, to_float, eq_f}
use card_fraud_ops_analyst_a.Scoring.Tally.{
  PatternScore, WindowStats, Tally, member, no_tally, raise_to, set_to, note, scored, float_field,
}

pub record AmountThresholds (F : Type 0) : Type 0 where
  pub round_numbers : List ℕ
  pub high : F
  pub elevated : F
  pub zscore_outlier : F
  pub zscore_warning : F

module _ {F : Type 0} (fl : Floats F) where
  open fl use {pct, le, lt, sub, mul, div, sqrt, sum, round, floor, from_nat}

  -- `_is_round_number`
  unfoldable pub is_round_number : F → List ℕ → Bool
  unfolding member eq_f
  is_round_number amount thresholds =
      let whole = floor amount in
      let cents = sub amount (from_nat whole) in
      if le amount (pct 0)
      then false
      else if eq_f fl cents (pct 0)
      then member whole thresholds
      else if eq_f fl cents (pct 99)
      then member (whole + 1) thresholds
      else false

  -- `_calculate_mean`
  unfoldable pub calculate_mean : List F → F
  calculate_mean [] = pct 0
  calculate_mean (x ∷ xs) = div (sum (x ∷ xs)) (from_nat (length (x ∷ xs)))

  -- `_calculate_std_dev`; the square is written as a product
  unfoldable pub calculate_std_dev : List F → F → F
  calculate_std_dev values mean =
      if ltb (length values) 2
      then pct 0
      else sqrt
          (div (sum (map (λ x. mul (sub x mean) (sub x mean)) values)) (from_nat (length values)))

  -- one round of the loop over the history: `None` and what `float` refuses are skipped
  abbrev pub known_amount : Option (Value F) → List F → List F
  known_amount none xs = xs
  known_amount (some null) xs = xs
  known_amount (some v) xs = elim (to_float fl v) [ none ↦ xs | some x ↦ x ∷ xs ]

  unfoldable pub historical_amounts : List (Fields F) → List F
  historical_amounts [] = []
  historical_amounts (txn ∷ txns) = known_amount (get "amount" txn) (historical_amounts txns)

  abbrev pub score_absolute : AmountThresholds F → F → Tally F → Tally F
  score_absolute th amount t =
      if lt th.high amount
      then note fl "high_amount" (num amount) (raise_to fl 80 t)
      else if lt th.elevated amount
      then note fl "elevated_amount" (num amount) (raise_to fl 50 t)
      else t

  abbrev pub score_round : AmountThresholds F → F → Tally F → Tally F
  score_round th amount t =
      if is_round_number amount th.round_numbers
      then note fl "amount" (num amount) (note fl "round_number" (bool true) (set_to fl 70 t))
      else t

  -- `if amount > 0`
  unfoldable pub score_size : AmountThresholds F → F → Tally F → Tally F
  score_size th amount t =
      if lt (pct 0) amount then score_absolute th amount (score_round th amount t) else t

  abbrev pub score_z : AmountThresholds F → F → F → F → Tally F → Tally F
  score_z th mean std_dev z t =
      if lt th.zscore_outlier z
      then note fl "outlier" (bool true) (
          note fl "std_dev" (num (round std_dev 2)) (
            note fl "mean" (num (round mean 2))
              (note fl "z_score" (num (round z 2)) (raise_to fl 90 t))))
      else if lt th.zscore_warning z
      then note fl "outlier" (bool true) (note fl "z_score" (num (round z 2)) (raise_to fl 70 t))
      else t

  -- `if historical_amounts`: the mean and the deviation of an empty history are 0.0
  unfoldable pub score_history : AmountThresholds F → F → List F → Tally F → Tally F
  score_history th amount history t =
      let mean = calculate_mean history in
      let std_dev = calculate_std_dev history mean in
      if ltb 0 (length history) && (lt (pct 0) mean && (lt (pct 0) std_dev && lt (pct 0) amount))
      then score_z th mean std_dev (div (sub amount mean) std_dev) t
      else t

  -- the window of 24 hours
  unfoldable pub score_spike : F → Option (WindowStats F) → Tally F → Tally F
  score_spike amount none t = t
  score_spike amount (some stats) t =
      let average = div stats.total_amount (from_nat stats.transaction_count) in
      if ltb 0 stats.transaction_count
        && (lt (mul average (from_nat 3)) amount && lt (pct 0) average)
      then note fl "spike_vs_avg" (num (round (div amount average) 2)) (raise_to fl 60 t)
      else t

  abbrev pub amount_tally :
      AmountThresholds F → F → List (Fields F) → Option (WindowStats F) → Tally F
  amount_tally th amount history day =
      score_spike amount day
        (score_history th amount (historical_amounts history) (score_size th amount (no_tally fl)))

  -- `score_amount_anomalies`; `none` where the amount of the transaction is no number and `float`
  -- raises.
  unfoldable pub score_amount_anomalies :
      AmountThresholds F
      → Option (Fields F)
      → List (Fields F)
      → (ℕ → Option (WindowStats F))
      → Option (PatternScore F)
  score_amount_anomalies th none history windows =
      some (scored fl "amount_anomaly" 35 (no_tally fl))
  score_amount_anomalies th (some txn) history windows =
      Option.map
        (λ amount. scored fl "amount_anomaly" 35 (amount_tally th amount history (windows 24)))
        (float_field fl "amount" txn)
