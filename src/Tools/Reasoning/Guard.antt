-- ===== src/Tools/Reasoning/Guard.antt =====
-- What the calibration of the severity in app/tools/reasoning_tool.py guarantees.
use card_fraud_ops_analyst_a.Prelude.{
  ℕ, ◌≤◌, ◌≡◌, ◌≢◌, inl, inr, String, true, false, contains, arith, refl, leb, ◌∙◌, strip, upper,
  Bool-cases, true≢false_of,
}
use card_fraud_ops_analyst_a.Value.{Value, null, bool, num, str, arr, obj}
use card_fraud_ops_analyst_a.Floats.{are_small, Floats, max_f}
use card_fraud_ops_analyst_a.Agent.State.{InvestigationState}
use card_fraud_ops_analyst_a.Agent.Completion.{valid_severities}
use card_fraud_ops_analyst_a.Tools.Reasoning.Evidence.{
  score_by_name, score_of, similarity_match_count,
}
use card_fraud_ops_analyst_a.Tools.Reasoning.Calibration.{
  normalize_severity, rule_match_count, critical_pattern_score, has_strong_counter_evidence,
  has_high_risk_pattern_combo, declined_with_pattern, calibrate_llm_severity,
}
use card_fraud_ops_analyst_a.Tools.Reasoning.Settling.{
  IsSettled, settle-IsSettled, settle-not_low, valid_or_low,
}

module _ {F : Type 0} (fl : Floats F) where
  open fl use {pct, le, lt, le_trans, lt_of_le, pct_le}

  -- what is below a literal is not above a larger one
  below-above :
      (x y : F) (m n : ℕ)
      → leb n m ≡ false
      → are_small n m ≡ true
      → le (pct n) x ≡ true
      → le x y ≡ true
      → le y (pct m) ≡ true
      → ⊥
  below-above x y m n gap small high step low =
      true≢false_of (le_trans (pct n) y (pct m) (le_trans (pct n) x y high step) low)
        (pct_le n m small ∙ gap)

  -- the arguments of a maximum that is below a literal, the second without a NaN in the first
  max-first_low : (a b : F) (m : ℕ) → le (max_f fl a b) (pct m) ≡ true → le a (pct m) ≡ true
  unfolding max_f
  max-first_low a b m h = elim (Bool-cases (lt a b)) [
    | inl e ↦ le_trans a b (pct m) (fl.le_of_lt a b e) (rw e at h)
    | inr e ↦ rw e at h
  ]

  max-second_low :
      (a b : F) (m n : ℕ)
      → leb m n ≡ true
      → leb n m ≡ false
      → are_small n m ≡ true
      → le (pct n) b ≡ true
      → le (max_f fl a b) (pct m) ≡ true
      → ⊥
  unfolding max_f
  max-second_low a b m n order gap small high h =
      let first = max-first_low a b m h in
      let up : le a b ≡ true =
        le_trans a (pct n) b (le_trans a (pct m) (pct n) first (pct_le m n (ground arith) ∙ order))
          high in
      elim (Bool-cases (le b a)) [
        | inl back ↦ below-above b a m n gap small high back first
        | inr e ↦
            true≢false_of (le_trans (pct n) b (pct m) high (rw (lt_of_le a b up e) at h))
              (pct_le n m small ∙ gap)
      ]

  strong-critical_low :
      (state : InvestigationState F)
      → has_strong_counter_evidence fl state ≡ true
      → le (critical_pattern_score fl (score_by_name fl state)) (pct 55) ≡ true
  unfolding has_strong_counter_evidence
  strong-critical_low state h = ground arith

  combo-high_decline :
      (state : InvestigationState F)
      → has_high_risk_pattern_combo fl state ≡ true
      → le (pct 85) (score_of fl "decline_anomaly" (score_by_name fl state)) ≡ true
  unfolding has_high_risk_pattern_combo
  combo-high_decline state h = ground arith

  -- counter-evidence never outweighs the combination
  combo-not_strong :
      (state : InvestigationState F)
      → has_high_risk_pattern_combo fl state ≡ true
      → has_strong_counter_evidence fl state ≡ true
      → ⊥
  unfolding critical_pattern_score
  combo-not_strong state c h =
      let scores = score_by_name fl state in
      max-second_low (score_of fl "velocity" scores) (score_of fl "decline_anomaly" scores) 55 85
        refl refl refl (combo-high_decline state c)
        (max-first_low
          (max_f fl (score_of fl "velocity" scores) (score_of fl "decline_anomaly" scores))
          (score_of fl "card_testing" scores) 55 (strong-critical_low state h))

  normalize_severity-valid :
      (severity : Value F) → contains (normalize_severity severity) valid_severities ≡ true
  unfolding normalize_severity contains
  normalize_severity-valid (str s) = valid_or_low (upper (strip s))
  normalize_severity-valid null = refl
  normalize_severity-valid (bool _) = refl
  normalize_severity-valid (num _) = refl
  normalize_severity-valid (arr _) = refl
  normalize_severity-valid (obj _) = refl

  -- With a decline score of at least 0.85 and a velocity or card-testing score of at least 0.65,
  -- the calibrated severity is not LOW, whatever the LLM says and whatever counter-evidence there
  -- is.
  pub calibrate-never_low :
      (state : InvestigationState F) (severity : Value F)
      → has_high_risk_pattern_combo fl state ≡ true
      → calibrate_llm_severity fl state severity ≢ "LOW"
  unfolding calibrate_llm_severity
  calibrate-never_low state severity c low =
      elim (Bool-cases (has_strong_counter_evidence fl state)) [
        | inl e ↦ combo-not_strong state c e
        | inr e ↦
            settle-not_low (declined_with_pattern fl state) (normalize_severity severity)
              (normalize_severity-valid severity) (rw (e, c) at low)
      ]

  strong-IsWeak :
      (state : InvestigationState F)
      → has_strong_counter_evidence fl state ≡ true
      → (le (critical_pattern_score fl (score_by_name fl state)) (pct 55) ≡ true)
        × (rule_match_count state ≤ 1)
        × (similarity_match_count fl state ≤ 10)
  unfolding has_strong_counter_evidence
  strong-IsWeak state h = ground arith

  -- How the calibrated severity stands to the given one.
  pub record IsCalibrated (state : InvestigationState F) (given result : String) : Type 0 where
    pub settled : IsSettled (has_strong_counter_evidence fl state) given result
    pub weak :
        (given ≢ "LOW")
        → result ≢ given
        → (le (critical_pattern_score fl (score_by_name fl state)) (pct 55) ≡ true)
          × (rule_match_count state ≤ 1)
          × (similarity_match_count fl state ≤ 10)

  -- The calibrated severity is one of the four levels. It is CRITICAL exactly if the LLM says so,
  -- HIGH only if the LLM says so, and where the LLM says LOW it rises to MEDIUM at most. Any other
  -- level changes to LOW only, and then no critical pattern scores above 0.55, at most one rule
  -- matched and there are at most ten similar transactions.
  pub calibrate-IsCalibrated :
      (state : InvestigationState F) (severity : Value F)
      → IsCalibrated state (normalize_severity severity) (calibrate_llm_severity fl state severity)
  unfolding calibrate_llm_severity
  calibrate-IsCalibrated state severity =
      let settled =
        settle-IsSettled (has_strong_counter_evidence fl state)
          (has_high_risk_pattern_combo fl state) (declined_with_pattern fl state)
          (normalize_severity severity) (normalize_severity-valid severity) in
      record {
        settled = settled;
        weak = λ other changed. strong-IsWeak state ((settled.lowered other changed).1);
      }
