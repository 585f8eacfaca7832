-- ===== src/Agent/Planner/Node.antt =====
-- `planner_node` of app/agent/planner.py.
use card_fraud_ops_analyst_a.Prelude.{
  ℕ, ◌+◌, String, Bool, true, Option, none, some, List, [], ◌∷◌, ◌++◌, ◌==◌, ◌&&◌, ◌||◌, not,
  if◌then◌else◌, contains, first_chars,
}
use card_fraud_ops_analyst_a.Value.{Value, has_fields}
use card_fraud_ops_analyst_a.Floats.{Floats}
use card_fraud_ops_analyst_a.Agent.State.{
  InvestigationState, PlannerDecision, ToolRegistry, tool_names,
}
use card_fraud_ops_analyst_a.Agent.Planner.Rules.{rule_sequence_next_tool, planner_llm_circuit_open}
use card_fraud_ops_analyst_a.Agent.Planner.Llm.{
  LlmReply, LlmDecision, Result, ok, err, invalid_tool, llm_planning,
}

-- `feature_flags.get("planner_llm_enabled", True)`
unfoldable pub flag_or_true : String → List (String × Bool) → Bool
flag_or_true k [] = true
flag_or_true k ((j, b) ∷ m) = if j == k then b else flag_or_true k m

-- What a call of the planner reads of its surroundings: settings, clock and LLM.
pub record PlannerEnv (F : Type 0) : Type 0 where
  pub llm_enabled : Bool
  pub now : String
  pub llm : ℕ → LlmReply F
  pub user_prompt : InvestigationState F → String

-- A choice with the two previews.
pub record Choice (F : Type 0) : Type 0 where
  pub tool : String
  pub reason : String
  pub confidence : F
  pub prompt_preview : Option String
  pub response_preview : Option String

module _ {F : Type 0} (fl : Floats F) (loads : String → Option (Value F)) where
  open fl use {pct}

  abbrev pub plain : String × String × F → Choice F
  plain (tool, reason, confidence) = record {
    tool = tool;
    reason = reason;
    confidence = confidence;
    prompt_preview = none;
    response_preview = none;
  }

  -- `except PlannerError` falls back to the rule sequence
  abbrev pub llm_or_rules :
      InvestigationState F → ToolRegistry F → Result (LlmDecision F) → Choice F
  llm_or_rules state registry (ok d) = record {
    tool = d.tool;
    reason = d.reason;
    confidence = d.confidence;
    prompt_preview = some d.prompt;
    response_preview = some d.response;
  }
  llm_or_rules state registry (err e) = plain (rule_sequence_next_tool fl state registry)

  abbrev pub llm_allowed : PlannerEnv F → InvestigationState F → Bool
  llm_allowed env state = env.llm_enabled && flag_or_true "planner_llm_enabled" state.feature_flags

  unfoldable pub choose : PlannerEnv F → ToolRegistry F → InvestigationState F → Choice F
  choose env registry state =
      if not (has_fields state.context) && not (contains "context_tool" state.completed_steps)
      then plain ("context_tool", "Context is required before any analysis", pct 99)
      else if not (llm_allowed env state)
      then plain (rule_sequence_next_tool fl state registry)
      else if planner_llm_circuit_open state
      then plain (rule_sequence_next_tool fl state registry)
      else llm_or_rules state registry
          (llm_planning fl loads state registry env.user_prompt env.llm)

  -- `x[:n] if x else None`
  abbrev pub preview : ℕ → Option String → Option String
  preview n none = none
  preview n (some s) = if s == "" then none else some (first_chars n s)

  abbrev pub decision_of : PlannerEnv F → InvestigationState F → Choice F → PlannerDecision F
  decision_of env state c = record {
    step = state.step_count + 1;
    selected_tool = c.tool;
    reason = c.reason;
    confidence = c.confidence;
    timestamp = env.now;
    llm_prompt_preview = preview 1000 c.prompt_preview;
    llm_response_preview = preview 500 c.response_preview;
  }

  -- the state that the node returns
  abbrev pub with_decision : InvestigationState F → PlannerDecision F → InvestigationState F
  with_decision state d = record state {
    next_action = d.selected_tool;
    step_count = state.step_count + 1;
    planner_decisions = state.planner_decisions ++ d ∷ [];
  }

  -- `valid_tools`
  abbrev pub is_valid_tool : ToolRegistry F → String → Bool
  is_valid_tool registry tool = contains tool (tool_names registry) || tool == "COMPLETE"

  unfoldable pub record_choice :
      PlannerEnv F
      → ToolRegistry F
      → InvestigationState F
      → Choice F
      → Result (InvestigationState F)
  record_choice env registry state c =
      if is_valid_tool registry c.tool
      then ok (with_decision state (decision_of env state c))
      else err (invalid_tool c.tool)

  -- `planner_node`
  unfoldable pub planner_node :
      PlannerEnv F → ToolRegistry F → InvestigationState F → Result (InvestigationState F)
  planner_node env registry state = record_choice env registry state (choose env registry state)
