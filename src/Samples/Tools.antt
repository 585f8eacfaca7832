-- ===== src/Samples/Tools.antt =====
-- The theorems on the recommendation tool, the calibration of the reasoning tool and whole
-- investigations at concrete inputs.
use mathlib.Core.Option
use card_fraud_ops_analyst_a.Prelude.{
  ℕ, ◌≤◌, ◌*◌, ◌+◌, ◌≡◌, ◌≢◌, String, true, false, none, List, [], ◌∷◌, refl, arith, contains,
}
use card_fraud_ops_analyst_a.Value.{Value, Fields, num, str, arr, obj, nil, cons, field, end, get}
use card_fraud_ops_analyst_a.Floats.{to_float, truthy}
use card_fraud_ops_analyst_a.Agent.State.{InvestigationState, returned, tool_names}
use card_fraud_ops_analyst_a.Agent.Graph.{invoke}
use card_fraud_ops_analyst_a.Agent.Graph.Invariant.{IsConsistent}
use card_fraud_ops_analyst_a.Agent.Graph.Termination.{is_over}
use card_fraud_ops_analyst_a.Agent.Graph.Investigation.{initial, investigation-ends}
use card_fraud_ops_analyst_a.Tools.Candidates.{
  Candidate, candidate, generate_recommendations, fired, candidates_for, pattern_score,
}
use card_fraud_ops_analyst_a.Tools.Recommendation.{
  execute, recommendations, candidates_of, effective_severity, severity_rank, is_success,
  read_scores, read_matches,
}
use card_fraud_ops_analyst_a.Tools.Recommendation.Effect.{
  IsRecommended, execute-IsRecommended, effective_severity-not_lower,
}
use card_fraud_ops_analyst_a.Tools.Reasoning.Evidence.{score_by_name, score_of}
use card_fraud_ops_analyst_a.Tools.Reasoning.Calibration.{
  has_high_risk_pattern_combo, normalize_severity, calibrate_llm_severity,
}
use card_fraud_ops_analyst_a.Tools.Reasoning.Guard.{
  IsCalibrated, calibrate-never_low, calibrate-IsCalibrated,
}
use card_fraud_ops_analyst_a.Samples.{hundredths, loads, registry, env, ready, registry-KeepControl}

abbrev row : String → ℕ → Value ℕ
row name score = obj (field "pattern_name" (str name) (field "score" (num score) end))

-- declines and a burst at once
abbrev attacked : InvestigationState ℕ
attacked = record ready {
  pattern_results =
      field "scores" (arr (cons (row "decline_anomaly" 90) (cons (row "velocity" 70) nil))) end;
}

attacked-combo : has_high_risk_pattern_combo hundredths attacked ≡ true
unfolding has_high_risk_pattern_combo score_by_name score_of get to_float truthy
attacked-combo = refl

calibrate-never_low_example : calibrate_llm_severity hundredths attacked (str "low") ≢ "LOW"
calibrate-never_low_example = calibrate-never_low hundredths attacked (str "low") attacked-combo

calibrate-IsCalibrated_example :
    IsCalibrated hundredths attacked
      (normalize_severity {F = ℕ} (str "high"))
      (calibrate_llm_severity hundredths attacked (str "high"))
calibrate-IsCalibrated_example = calibrate-IsCalibrated hundredths attacked (str "high")

abbrev impact : Candidate → Fields ℕ → String
impact c context = "impact"

abbrev found : List Candidate
found =
    candidate "case_action" 2 "Create velocity investigation case" "case_velocity_1"
    ∷ candidate "rule_candidate" 3 "Refine velocity threshold for merchant cluster" "rule_decline_1"
    ∷ candidate "case_action" 2 "Escalate sustained decline anomaly case"
        "case_decline_escalation_1"
    ∷ []

abbrev recommended : InvestigationState ℕ
recommended = record attacked {
  recommendations = recommendations hundredths impact attacked.context found;
}

attacked-recommended : execute hundredths impact attacked ≡ returned recommended
unfolding execute candidates_of Option.bind read_scores get to_float read_matches
    generate_recommendations contains effective_severity fired candidates_for pattern_score
attacked-recommended = refl

execute-IsRecommended_example : IsRecommended hundredths impact attacked recommended
execute-IsRecommended_example =
    execute-IsRecommended hundredths impact attacked recommended attacked-recommended

-- the reasoning failed, and its severity is higher
abbrev doubtful : InvestigationState ℕ
doubtful = record ready {
  severity = "MEDIUM";
  reasoning = field "llm_status" (str "failed") (field "severity" (str "HIGH") end);
}

doubtful-failed : is_success hundredths impact (get "llm_status" doubtful.reasoning) ≡ false
unfolding get
doubtful-failed = refl

effective_severity-not_lower_example :
    severity_rank doubtful.severity ≤ severity_rank (effective_severity hundredths impact doubtful)
effective_severity-not_lower_example =
    effective_severity-not_lower hundredths impact doubtful doubtful-failed

enough : 2 * 5 + 2 ≤ 12
enough = omega arith

abbrev fresh : InvestigationState ℕ
fresh = initial hundredths loads env registry "t" "inv-1" "txn-1" 5 none none none [] []

investigation-ends_example :
    (is_over (invoke hundredths loads env registry 12 fresh).node ≡ true)
    × IsConsistent (tool_names registry) (invoke hundredths loads env registry 12 fresh).state
investigation-ends_example =
    investigation-ends hundredths loads env registry "t" "inv-1" "txn-1" 5 none none none [] [] 12
      registry-KeepControl enough
