-- ===== src/Tools/Reasoning/Calibration.antt =====
-- `_calibrate_llm_severity` of app/tools/reasoning_tool.py.
use card_fraud_ops_analyst_a.Prelude.{
  ℕ, String, Bool, List, [], ◌∷◌, ◌&&◌, ◌||◌, if◌then◌else◌, ◌==◌, contains, strip, upper, length,
  leb,
}
use card_fraud_ops_analyst_a.Value.{Value, str, items, get, as_list}
use card_fraud_ops_analyst_a.Floats.{Floats, max_f}
use card_fraud_ops_analyst_a.Agent.State.{InvestigationState}
use card_fraud_ops_analyst_a.Agent.Completion.{valid_severities}
use card_fraud_ops_analyst_a.Tools.Reasoning.Evidence.{
  max_pattern_score, score_by_name, score_of, non_amount_pattern_max, counter_evidence_count,
  similarity_score, similarity_match_count, similarity_has_counter_evidence, decision,
}

module _ {F : Type 0} where
  -- `_normalize_severity` with the default LOW
  unfoldable pub normalize_severity : Value F → String
  normalize_severity (str s) =
      let normalized = upper (strip s) in
      if contains normalized valid_severities then normalized else "LOW"
  normalize_severity _ = "LOW"

  -- `rule_match_count`
  unfoldable pub rule_match_count : InvestigationState F → ℕ
  rule_match_count state = length (items (as_list (get "rule_matches" state.context)))

-- The three `if`s of `_calibrate_llm_severity`, on what their conditions come to.
unfoldable pub settle : Bool → Bool → Bool → String → String
settle strong combo declined normalized =
    if contains normalized ("MEDIUM" ∷ "HIGH" ∷ []) && strong
    then "LOW"
    else if normalized == "LOW" && combo
    then "MEDIUM"
    else if normalized == "LOW" && declined
    then "MEDIUM"
    else normalized

module _ {F : Type 0} (fl : Floats F) where
  open fl use {pct, le}

  -- `critical_pattern_score`
  unfoldable pub critical_pattern_score : List (String × F) → F
  critical_pattern_score scores =
      max_f fl (max_f fl (score_of fl "velocity" scores) (score_of fl "decline_anomaly" scores))
        (score_of fl "card_testing" scores)

  -- `isolated_moderate_amount_anomaly`
  unfoldable pub isolated_moderate_amount_anomaly : List (String × F) → Bool
  isolated_moderate_amount_anomaly scores =
      le (pct 65) (score_of fl "amount_anomaly" scores)
      && (le (score_of fl "amount_anomaly" scores) (pct 72)
          && le (non_amount_pattern_max fl scores) (pct 55))

  -- `has_strong_counter_evidence`
  unfoldable pub has_strong_counter_evidence : InvestigationState F → Bool
  has_strong_counter_evidence state =
      let scores = score_by_name fl state in
      (le (max_pattern_score fl state) (pct 60) || isolated_moderate_amount_anomaly scores)
      && (le (critical_pattern_score scores) (pct 55)
          && (le (similarity_score fl state) (pct 70)
              && (leb (similarity_match_count fl state) 10
                  && (leb (rule_match_count state) 1
                      && (leb 3 (counter_evidence_count fl state)
                          || (similarity_has_counter_evidence fl state
                              && contains (decision fl state) ("APPROVE" ∷ "APPROVED" ∷ [])))))))

  -- `has_high_risk_pattern_combo`
  unfoldable pub has_high_risk_pattern_combo : InvestigationState F → Bool
  has_high_risk_pattern_combo state =
      let scores = score_by_name fl state in
      le (pct 85) (score_of fl "decline_anomaly" scores)
      && (le (pct 65) (score_of fl "velocity" scores)
          || le (pct 65) (score_of fl "card_testing" scores))

  -- the condition of the last `if`, but for the severity
  unfoldable pub declined_with_pattern : InvestigationState F → Bool
  declined_with_pattern state =
      contains (decision fl state) ("DECLINE" ∷ "DECLINED" ∷ [])
      && (le (pct 75) (max_pattern_score fl state)
          && (leb 1 (rule_match_count state) || le (pct 50) (similarity_score fl state)))

  -- `_calibrate_llm_severity`
  unfoldable pub calibrate_llm_severity : InvestigationState F → Value F → String
  unfolding settle
  calibrate_llm_severity state severity =
      settle (has_strong_counter_evidence state) (has_high_risk_pattern_combo state)
        (declined_with_pattern state) (normalize_severity severity)
