-- ===== src/Agent/Planner/Sequencing.antt =====
-- What a decision of the LLM has to satisfy (app/agent/planner.py), stated apart from the code,
-- and what the canonical sequence picks.
use card_fraud_ops_analyst_a.Prelude.{
  ◌≡◌, ◌≢◌, ◌↔◌, ◌⊎◌, inl, inr, String, true, false, none, some, List, [], ◌∷◌, eq_iff, contains,
  arith, ap, ◌∙◌,
}
use card_fraud_ops_analyst_a.Agent.State.{InvestigationState}
use card_fraud_ops_analyst_a.Agent.Planner.Rules.{
  missing_analysis, check_later, validate_planner_decision, tool_sequence, first_open,
}

-- A tool that is registered has been completed.
abbrev pub Ready : List String → List String → String → Type 0
Ready available completed tool = contains tool available ≡ true → contains tool completed ≡ true

abbrev pub AllReady : List String → List String → List String → Type 0
AllReady available completed [] = Unit {0}
AllReady available completed (tool ∷ tools) =
    Ready available completed tool × AllReady available completed tools

abbrev pub analysis_tools : List String
analysis_tools = "pattern_tool" ∷ "similarity_tool" ∷ "link_analysis_tool" ∷ []

-- What a decision needs besides being new.
pub record InOrder (available completed : List String) (tool : String) : Type 0 where
  pub analyses : tool ≡ "reasoning_tool" → AllReady available completed analysis_tools
  pub reasoning :
      (tool ≡ "recommendation_tool") ⊎ (tool ≡ "COMPLETE")
      → Ready available completed "reasoning_tool"
  pub recommendation : tool ≡ "COMPLETE" → Ready available completed "recommendation_tool"

missing_analysis_iff :
    (available completed : List String)
    → (missing_analysis available completed ≡ []) ↔ AllReady available completed analysis_tools
unfolding missing_analysis
missing_analysis_iff available completed = ground arith

check_later_sound :
    (available completed : List String) (tool : String)
    → check_later available completed tool ≡ none
    → ((tool ≡ "recommendation_tool") ⊎ (tool ≡ "COMPLETE")
        → Ready available completed "reasoning_tool")
      × (tool ≡ "COMPLETE" → Ready available completed "recommendation_tool")
unfolding check_later
check_later_sound available completed tool h =
    ground (arith, eq_iff tool "recommendation_tool", eq_iff tool "COMPLETE")

check_later_complete :
    (available completed : List String) (tool : String)
    → InOrder available completed tool
    → check_later available completed tool ≡ none
unfolding check_later
check_later_complete available completed tool o =
    ground (arith, eq_iff tool "recommendation_tool", eq_iff tool "COMPLETE")

module _ {F : Type 0} (state : InvestigationState F) (tool : String) (available : List String) where
  validate_sound :
      validate_planner_decision state tool available ≡ none
      → (contains tool state.completed_steps ≡ false) × InOrder available state.completed_steps tool
  unfolding validate_planner_decision
  validate_sound h =
      let iff = missing_analysis_iff available state.completed_steps in
      let later = check_later_sound available state.completed_steps tool in
      ground (arith, eq_iff tool "reasoning_tool", iff, later)

  pub validate_complete :
      contains tool state.completed_steps ≡ false
      → InOrder available state.completed_steps tool
      → validate_planner_decision state tool available ≡ none
  unfolding validate_planner_decision
  validate_complete fresh o =
      let iff = missing_analysis_iff available state.completed_steps in
      let later = check_later_complete available state.completed_steps tool o in
      ground (arith, eq_iff tool "reasoning_tool", iff, later)

  -- A decision of the LLM passes the check exactly when its tool is not completed yet and it is in
  -- order: `reasoning_tool` waits for the registered analysis tools, `recommendation_tool` and
  -- COMPLETE for `reasoning_tool`, and COMPLETE for `recommendation_tool`, each if registered.
  pub validate-InOrder_iff : (validate_planner_decision state tool available ≡ none) ↔ (
      (contains tool state.completed_steps ≡ false) × InOrder available state.completed_steps tool)
  validate-InOrder_iff = (validate_sound, λ h. validate_complete h.0 h.1)

pub first_open_sound :
    (completed available tools : List String) (tool : String)
    → first_open completed available tools ≡ some tool
    → (contains tool completed ≡ false) × (contains tool available ≡ true)
unfolding first_open
first_open_sound completed available [] tool h = cc
first_open_sound completed available (t ∷ ts) tool h =
    ground (arith, first_open_sound completed available ts tool)

pub first_open-none :
    (completed available tools : List String)
    → (first_open completed available tools ≡ none) ↔ AllReady available completed tools
unfolding first_open
first_open-none completed available [] = ground arith
first_open-none completed available (t ∷ ts) =
    ground (arith, first_open-none completed available ts)

-- a tool of the sequence that waits for others comes behind them in it
first_open-reasoning :
    (completed available : List String)
    → first_open completed available tool_sequence ≡ some "reasoning_tool"
    → AllReady available completed analysis_tools
unfolding first_open
first_open-reasoning completed available h = ground (
  arith,
  eq_iff "context_tool" "reasoning_tool",
  eq_iff "pattern_tool" "reasoning_tool",
  eq_iff "similarity_tool" "reasoning_tool",
  eq_iff "link_analysis_tool" "reasoning_tool",
)

first_open-recommendation :
    (completed available : List String)
    → first_open completed available tool_sequence ≡ some "recommendation_tool"
    → Ready available completed "reasoning_tool"
unfolding first_open
first_open-recommendation completed available h = ground (
  arith,
  eq_iff "context_tool" "recommendation_tool",
  eq_iff "pattern_tool" "recommendation_tool",
  eq_iff "similarity_tool" "recommendation_tool",
  eq_iff "link_analysis_tool" "recommendation_tool",
  eq_iff "reasoning_tool" "recommendation_tool",
)

pub first_open-ne_complete :
    (completed available : List String)
    → first_open completed available tool_sequence ≢ some "COMPLETE"
unfolding first_open
first_open-ne_complete completed available h = ground (
  arith,
  eq_iff "context_tool" "COMPLETE",
  eq_iff "pattern_tool" "COMPLETE",
  eq_iff "similarity_tool" "COMPLETE",
  eq_iff "link_analysis_tool" "COMPLETE",
  eq_iff "reasoning_tool" "COMPLETE",
  eq_iff "recommendation_tool" "COMPLETE",
)

pub first_open-InOrder :
    (completed available : List String) (tool : String)
    → first_open completed available tool_sequence ≡ some tool
    → InOrder available completed tool
first_open-InOrder completed available tool h = record {
  analyses = λ e. first_open-reasoning completed available (h ∙ ap some e);
  reasoning = elim [
    | inl e ↦ first_open-recommendation completed available (h ∙ ap some e)
    | inr e ↦ absurd (first_open-ne_complete completed available (h ∙ ap some e))
  ];
  recommendation = λ e. absurd (first_open-ne_complete completed available (h ∙ ap some e));
}
