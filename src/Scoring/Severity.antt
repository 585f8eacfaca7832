-- ===== src/Scoring/Severity.antt =====
-- `compute_severity`, `compute_feature_attributions` and `run_pattern_scoring` of
-- app/tools/_core/pattern_logic.py.
use mathlib.Core.Option
use card_fraud_ops_analyst_a.Prelude.{
  ℕ, ◌+◌, String, Option, List, [], ◌∷◌, if◌then◌else◌, ◌==◌, ◌&&◌, leb, map,
}
use card_fraud_ops_analyst_a.Value.{Fields}
use card_fraud_ops_analyst_a.Floats.{Floats, max_f}
use card_fraud_ops_analyst_a.Scoring.Tally.{PatternScore, WindowStats}
use card_fraud_ops_analyst_a.Scoring.Amount.{AmountThresholds, score_amount_anomalies}
use card_fraud_ops_analyst_a.Scoring.Time.{score_time_anomalies}
use card_fraud_ops_analyst_a.Scoring.Windows.{
  score_velocity_patterns, score_decline_anomalies, score_cross_merchant_patterns,
}
use card_fraud_ops_analyst_a.Scoring.CardTesting.{score_card_testing}

pub data Severity : Type 0 where
  low medium high critical : Severity

-- the text of a severity
abbrev pub severity_text : Severity → String
severity_text low = "LOW"
severity_text medium = "MEDIUM"
severity_text high = "HIGH"
severity_text critical = "CRITICAL"

-- SEVERITY_RANK of app/utils/constants.py
abbrev pub rank : Severity → ℕ
rank low = 1
rank medium = 2
rank high = 3
rank critical = 4

-- What `compute_severity` reads of the scores.
pub record Signals (F : Type 0) : Type 0 where
  pub normalized_score : F
  pub max_score : F
  pub medium_signals : ℕ
  pub network_medium : ℕ
  pub network_strong : ℕ

abbrev pub network_signal_names : List String
network_signal_names = "velocity" ∷ "decline_anomaly" ∷ "cross_merchant" ∷ "card_testing" ∷ []

module _ {F : Type 0} (fl : Floats F) where
  open fl use {pct, le, lt, mul, div, sum}

  -- `score_by_name.get(name, 0.0)`: the last score of that name
  abbrev pub score_named : String → List (PatternScore F) → F → F
  score_named name [] found = found
  score_named name (s ∷ ss) found =
      score_named name ss (if s.pattern_name == name then s.score else found)

  -- how many values are at least n / 100
  unfoldable pub count_from : ℕ → List F → ℕ
  count_from n [] = 0
  count_from n (x ∷ xs) = (if le (pct n) x then 1 else 0) + count_from n xs

  abbrev pub largest : F → List F → F
  largest m [] = m
  largest m (x ∷ xs) = largest (max_f fl m x) xs

  abbrev pub network_scores : List (PatternScore F) → List F
  network_scores ss = map (λ name. score_named name ss (pct 0)) network_signal_names

  abbrev pub weighted : PatternScore F → F
  weighted s = mul s.score s.weight

  -- `weighted_sum / total_weight`
  unfoldable pub normalized : List (PatternScore F) → F
  normalized ss =
      let total = sum (map (λ (s : PatternScore F). s.weight) ss) in
      if lt (pct 0) total then div (sum (map weighted ss)) total else pct 0

  abbrev pub signals_of : PatternScore F → List (PatternScore F) → Signals F
  signals_of s ss =
      let scores = map (λ (t : PatternScore F). t.score) (s ∷ ss) in
      record {
        normalized_score = normalized (s ∷ ss);
        max_score = largest s.score (map (λ (t : PatternScore F). t.score) ss);
        medium_signals = count_from 50 scores;
        network_medium = count_from 50 (network_scores (s ∷ ss));
        network_strong = count_from 70 (network_scores (s ∷ ss));
      }

  -- the promotions to MEDIUM
  unfoldable pub promote : Signals F → Severity
  promote g =
      if leb 3 g.medium_signals
      then medium
      else if leb 2 g.network_medium
      then medium
      else if leb 1 g.network_strong && leb 2 g.medium_signals
      then medium
      else low

  unfoldable pub classify : Signals F → Severity
  classify g =
      if le (pct 70) g.normalized_score
      then critical
      else if leb 2 g.network_strong
      then high
      else if le (pct 90) g.max_score && leb 1 g.network_medium
      then high
      else if le (pct 50) g.normalized_score
      then high
      else if le (pct 30) g.normalized_score
      then medium
      else promote g

  -- `compute_severity`
  unfoldable pub compute_severity : List (PatternScore F) → Severity
  compute_severity [] = low
  compute_severity (s ∷ ss) = classify (signals_of s ss)

-- The `thresholds` of `run_pattern_scoring`.
pub record Thresholds (F : Type 0) : Type 0 where
  pub amount : AmountThresholds F
  pub velocity_burst_1h : ℕ
  pub velocity_burst_6h : ℕ
  pub decline_ratio_high : F
  pub decline_ratio_medium : F
  pub cross_merchant_high : ℕ
  pub cross_merchant_medium : ℕ
  pub time_unusual_hours : List ℕ

-- The parts of the context that the scores read.
pub record ScoringContext (F : Type 0) : Type 0 where
  pub windows : ℕ → Option (WindowStats F)
  pub signals : List String
  pub transaction : Option (Fields F)
  pub card_history : List (Fields F)
  pub ip_country : Option String
  pub card_country : Option String

module _ {F : Type 0} (fl : Floats F) (iso_hour instant : String → Option ℕ) where
  -- `run_pattern_scoring`; `none` where `float` raises.
  unfoldable pub run_pattern_scoring :
      ScoringContext F → Thresholds F → Option (List (PatternScore F))
  run_pattern_scoring c th =
      Option.bind (score_amount_anomalies fl th.amount c.transaction c.card_history c.windows)
        (λ amount.
          Option.map
            (λ testing.
              amount
              ∷ score_time_anomalies fl iso_hour c.transaction c.card_history c.ip_country
                  c.card_country th.time_unusual_hours
              ∷ score_velocity_patterns fl c.windows c.signals th.velocity_burst_1h
                  th.velocity_burst_6h
              ∷ score_decline_anomalies fl c.windows c.signals th.decline_ratio_high
                  th.decline_ratio_medium
              ∷ score_cross_merchant_patterns fl c.windows th.cross_merchant_high
                  th.cross_merchant_medium
              ∷ testing
              ∷ [])
            (score_card_testing fl instant c.transaction c.card_history))
