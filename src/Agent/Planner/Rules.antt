-- ===== src/Agent/Planner/Rules.antt =====
-- The sequencing rules of app/agent/planner.py: the check of an LLM decision, the canonical tool
-- sequence that stands in for the LLM, and the circuit that keeps it out.
use card_fraud_ops_analyst_a.Prelude.{
  String, Bool, true, false, Option, none, some, List, [], ◌∷◌, ◌&&◌, ◌||◌, not, if◌then◌else◌,
  ◌==◌, contains, upper, lower, is_infix,
}
use card_fraud_ops_analyst_a.Value.{Value, obj, items, Fields, get}
use card_fraud_ops_analyst_a.Floats.{Floats}
use card_fraud_ops_analyst_a.Agent.State.{
  InvestigationState, PlannerDecision, ToolRegistry, tool_names,
}

-- The texts that `_validate_planner_decision` returns, one constructor for each.
pub data Violation : Type 0 where
  already_completed : String → Violation
  reasoning_before : List String → Violation
  recommendation_before_reasoning : Violation
  complete_before_reasoning : Violation
  complete_before_recommendation : Violation

-- `_missing`
abbrev pub missing : List String → List String → String → Bool
missing available completed required =
    contains required available && not (contains required completed)

-- the list comprehension over the three analysis tools
abbrev pub keep_if : Bool → String → List String → List String
keep_if true x xs = x ∷ xs
keep_if false x xs = xs

unfoldable pub missing_analysis : List String → List String → List String
missing_analysis available completed =
    let miss = missing available completed in
    keep_if (miss "pattern_tool") "pattern_tool" (
      keep_if (miss "similarity_tool") "similarity_tool"
        (keep_if (miss "link_analysis_tool") "link_analysis_tool" []))

abbrev pub check_complete : List String → List String → Option Violation
check_complete available completed =
    if missing available completed "reasoning_tool"
    then some complete_before_reasoning
    else if missing available completed "recommendation_tool"
    then some complete_before_recommendation
    else none

-- the tests after the one on `reasoning_tool`
unfoldable pub check_later : List String → List String → String → Option Violation
check_later available completed tool_name =
    if tool_name == "recommendation_tool" && missing available completed "reasoning_tool"
    then some recommendation_before_reasoning
    else if tool_name == "COMPLETE"
    then check_complete available completed
    else none

abbrev pub unless_missing : List String → Option Violation → Option Violation
unless_missing [] later = later
unless_missing (x ∷ xs) later = some (reasoning_before (x ∷ xs))

-- `_validate_planner_decision`; `none` is a valid decision.
unfoldable pub validate_planner_decision :
    {F : Type 0} → InvestigationState F → String → List String → Option Violation
validate_planner_decision state tool_name available =
    let completed = state.completed_steps in
    let later = check_later available completed tool_name in
    if contains tool_name completed
    then some (already_completed tool_name)
    else if tool_name == "reasoning_tool"
    then unless_missing (missing_analysis available completed) later
    else later

abbrev pub tool_sequence : List String
tool_sequence =
    "context_tool" ∷ "pattern_tool" ∷ "similarity_tool" ∷ "link_analysis_tool" ∷ "reasoning_tool"
    ∷ "recommendation_tool" ∷ []

-- the loop of `_rule_sequence_next_tool`
unfoldable pub first_open : List String → List String → List String → Option String
first_open completed available [] = none
first_open completed available (tool ∷ rest) =
    if not (contains tool completed) && contains tool available
    then some tool
    else first_open completed available rest

abbrev pub llm_unavailable : String
llm_unavailable = "rule-sequence fallback: LLM planner unavailable"

module _ {F : Type 0} (fl : Floats F) where
  open fl use {pct, text_of}

  -- `str(rec.get("type", ""))`, the dict's type as text
  abbrev rec_type : Fields F → String
  rec_type rec = elim (get "type" rec) [ none ↦ "" | some v ↦ text_of v ]

  abbrev names_rule : Value F → Bool
  names_rule (obj rec) = is_infix "rule" (lower (rec_type rec))
  names_rule _ = false

  -- the loop over the recommendations
  unfoldable pub any_rule : List (Value F) → Bool
  any_rule [] = false
  any_rule (v ∷ vs) = names_rule v || any_rule vs

  -- `_should_attempt_rule_draft`
  unfoldable pub should_attempt_rule_draft : InvestigationState F → Bool
  unfolding any_rule
  should_attempt_rule_draft state =
      let severity = upper state.severity in
      (severity == "HIGH" || severity == "CRITICAL") || any_rule (items state.recommendations)

  -- `_rule_sequence_next_tool`: tool, reason and confidence
  unfoldable pub rule_sequence_next_tool :
      InvestigationState F → ToolRegistry F → String × String × F
  rule_sequence_next_tool state registry =
      let available = tool_names registry in
      elim (first_open state.completed_steps available tool_sequence) [
        | some tool ↦ (tool, llm_unavailable, pct 50)
        | none ↦
            if contains "rule_draft_tool" available
              && (not (contains "rule_draft_tool" state.completed_steps)
                  && should_attempt_rule_draft state)
            then ("rule_draft_tool", "rule-sequence fallback: rule draft required", pct 60)
            else ("COMPLETE", "rule-sequence fallback: all tools completed", pct 100)
      ]

module _ {F : Type 0} where
  abbrev pub opens_circuit : PlannerDecision F → Bool
  opens_circuit d =
      let reason = lower d.reason in
      is_infix "rule-sequence fallback: llm planner unavailable" reason
      || is_infix "rule-sequence fallback: planner circuit open" reason

  unfoldable pub any_opens : List (PlannerDecision F) → Bool
  any_opens [] = false
  any_opens (d ∷ ds) = opens_circuit d || any_opens ds

  -- `_planner_llm_circuit_open`
  unfoldable pub planner_llm_circuit_open : InvestigationState F → Bool
  unfolding any_opens
  planner_llm_circuit_open state = any_opens state.planner_decisions
