-- ===== src/Agent/Completion.antt =====
-- app/agent/completion.py: the node that finalises an investigation.
pub mod Keeps
pub mod Severity
use mathlib.Core.Option
use card_fraud_ops_analyst_a.Prelude.{
  ℕ, zero, suc, ◌+◌, ◌≡◌, String, Bool, true, false, Option, none, some, List, [], ◌∷◌, ◌++◌, ◌==◌,
  ◌&&◌, ◌||◌, not, if◌then◌else◌, upper, length, contains,
}
use card_fraud_ops_analyst_a.Value.{
  Value, null, bool, num, str, arr, obj, nil, cons, end, field, Fields, get,
}
use card_fraud_ops_analyst_a.Floats.{Floats, to_float, truthy}
use card_fraud_ops_analyst_a.Agent.State.{InvestigationState}

abbrev pub valid_severities : List String
valid_severities = "LOW" ∷ "MEDIUM" ∷ "HIGH" ∷ "CRITICAL" ∷ []

module _ {F : Type 0} (fl : Floats F) (loads : String → Option (Value F)) where
  open fl use {pct, le, sum, div, round, from_nat}

  -- `if score: scores.append(float(score))`; `none` where `float` raises.
  abbrev pub push_score : Option (Value F) → List F → Option (List F)
  push_score none scores = some scores
  push_score (some v) scores =
      if truthy fl v then Option.map (λ x. scores ++ x ∷ []) (to_float fl v) else some scores

  unfoldable pub final_scores : InvestigationState F → Option (List F)
  final_scores state =
      Option.bind (push_score (get "overall_confidence" state.pattern_results) []) (λ a.
        Option.bind (push_score (get "overall_score" state.similarity_results) a)
          (λ b. push_score (get "confidence" state.reasoning) b))

  abbrev mean_or : F → List F → F
  mean_or stored [] = stored
  mean_or stored (x ∷ xs) = round (div (sum (x ∷ xs)) (from_nat (length (x ∷ xs)))) 4

  -- `_compute_final_confidence`
  unfoldable pub compute_final_confidence : InvestigationState F → Option F
  unfolding final_scores
  compute_final_confidence state = Option.map (mean_or state.confidence_score) (final_scores state)

  -- `_determine_severity`
  unfoldable pub determine_severity : F → String → String
  determine_severity confidence current =
      let normalized = upper current in
      if contains normalized valid_severities
      then normalized
      else if le (pct 80) confidence
      then "CRITICAL"
      else if le (pct 60) confidence
      then "HIGH"
      else if le (pct 30) confidence
      then "MEDIUM"
      else if le (pct 0) confidence
      then "LOW"
      else "LOW"

  abbrev pub is_terminal_failure : String → Bool
  is_terminal_failure status = status == "FAILED" || status == "TIMED_OUT"

  abbrev pub completed_state :
      String → InvestigationState F → Option F → Option (InvestigationState F)
  completed_state now state none = none
  completed_state now state (some confidence) = some (record state {
    status = "COMPLETED";
    completed_at = some now;
    confidence_score = confidence;
    severity = determine_severity confidence state.severity;
  })

  -- `completion_node`; `none` where a stored score is no number and `float` raises.
  unfoldable pub completion_node : String → InvestigationState F → Option (InvestigationState F)
  completion_node now state =
      let terminal = upper state.status in
      if is_terminal_failure terminal
      then some (record state { status = terminal; completed_at = some now })
      else completed_state now state (compute_final_confidence state)
