-- ===== src/Scoring/Windows.antt =====
-- The scores of app/tools/_core/pattern_logic.py that read window statistics and signals: velocity,
-- declines, and the spread over merchants.
use card_fraud_ops_analyst_a.Prelude.{
  ℕ, ◌/◌, String, Option, none, some, List, if◌then◌else◌, ltb, contains,
}
use card_fraud_ops_analyst_a.Value.{num}
use card_fraud_ops_analyst_a.Floats.{Floats}
use card_fraud_ops_analyst_a.Scoring.Tally.{
  PatternScore, WindowStats, Tally, no_tally, raise_to, set_to, note, note_count, scored,
}

module _ {F : Type 0} (fl : Floats F) where
  open fl use {pct, lt, div, from_nat}

  abbrev pub burst_1h : ℕ → Option (WindowStats F) → Tally F → Tally F
  burst_1h threshold none t = t
  burst_1h threshold (some stats) t =
      if ltb threshold stats.transaction_count
      then note_count fl "burst_1h" stats.transaction_count (set_to fl 90 t)
      else if ltb (threshold / 2) stats.transaction_count
      then note_count fl "burst_1h" stats.transaction_count (set_to fl 60 t)
      else t

  abbrev pub burst_6h : ℕ → Option (WindowStats F) → Tally F → Tally F
  burst_6h threshold none t = t
  burst_6h threshold (some stats) t =
      if ltb threshold stats.transaction_count
      then note_count fl "burst_6h" stats.transaction_count (raise_to fl 80 t)
      else t

  -- the loop over the signals: the first of that name counts, and ends it
  abbrev pub on_signal : String → List String → Tally F → Tally F
  on_signal name signals t = if contains name signals then raise_to fl 70 t else t

  -- `score_velocity_patterns`; the signals are given by their names
  unfoldable pub score_velocity_patterns :
      (ℕ → Option (WindowStats F)) → List String → ℕ → ℕ → PatternScore F
  score_velocity_patterns windows signals limit_1h limit_6h = scored fl "velocity" 40 (
      on_signal "burst_1h" signals
        (burst_6h limit_6h (windows 6) (burst_1h limit_1h (windows 1) (no_tally fl))))

  abbrev pub decline_ratio : F → F → Option (WindowStats F) → Tally F → Tally F
  decline_ratio high medium none t = t
  decline_ratio high medium (some stats) t =
      let ratio = div (from_nat stats.decline_count) (from_nat stats.transaction_count) in
      if ltb 0 stats.transaction_count
      then (if lt high ratio
          then note fl "decline_ratio_24h" (num ratio) (set_to fl 90 t)
          else if lt medium ratio
          then note fl "decline_ratio_24h" (num ratio) (set_to fl 60 t)
          else t)
      else t

  -- `score_decline_anomalies`
  unfoldable pub score_decline_anomalies :
      (ℕ → Option (WindowStats F)) → List String → F → F → PatternScore F
  score_decline_anomalies windows signals high medium =
      scored fl "decline_anomaly" 30 (
        on_signal "high_decline_rate" signals
          (decline_ratio high medium (windows 24) (no_tally fl)))

  abbrev pub spread : ℕ → ℕ → Option (WindowStats F) → Tally F → Tally F
  spread high medium none t = t
  spread high medium (some stats) t =
      if ltb high stats.unique_merchants
      then note_count fl "unique_merchants_24h" stats.unique_merchants (set_to fl 80 t)
      else if ltb medium stats.unique_merchants
      then note_count fl "unique_merchants_24h" stats.unique_merchants (set_to fl 50 t)
      else t

  -- `score_cross_merchant_patterns`
  unfoldable pub score_cross_merchant_patterns :
      (ℕ → Option (WindowStats F)) → ℕ → ℕ → PatternScore F
  score_cross_merchant_patterns windows high medium =
      scored fl "cross_merchant" 30 (spread high medium (windows 24) (no_tally fl))
