-- ===== src/Agent/Planner/Choosing.antt =====
-- What `planner_node` (app/agent/planner.py) selects, whichever way it selects.
use card_fraud_ops_analyst_a.Prelude.{
  ◌+◌, ◌≡◌, inl, inr, String, true, false, Option, none, [], ◌∷◌, ◌++◌, eq_iff, arith, refl,
  Bool-cases, sym, ap, contains, not, ◌&&◌,
}
use card_fraud_ops_analyst_a.Value.{Value, has_fields}
use card_fraud_ops_analyst_a.Floats.{Floats}
use card_fraud_ops_analyst_a.Agent.State.{
  InvestigationState, PlannerDecision, ToolRegistry, tool_names,
}
use card_fraud_ops_analyst_a.Agent.Planner.Rules.{
  validate_planner_decision, planner_llm_circuit_open,
}
use card_fraud_ops_analyst_a.Agent.Planner.Sequencing.{
  InOrder, validate-InOrder_iff, validate_complete,
}
use card_fraud_ops_analyst_a.Agent.Planner.Fallback.{validate-rule_sequence}
use card_fraud_ops_analyst_a.Agent.Planner.Llm.{
  Result, ok, err, if-eq-ok, LlmDecision, invalid_tool, llm_planning,
}
use card_fraud_ops_analyst_a.Agent.Planner.Repair.{llm_planning_sound}
use card_fraud_ops_analyst_a.Agent.Planner.Node.{
  PlannerEnv, Choice, choose, record_choice, planner_node, is_valid_tool, llm_or_rules, llm_allowed,
  decision_of, with_decision,
}

module _ {F : Type 0} (fl : Floats F) (loads : String → Option (Value F)) (env : PlannerEnv F)
    (registry : ToolRegistry F) (state : InvestigationState F) where
  abbrev Checked : Choice F → Type 0
  Checked c = validate_planner_decision state c.tool (tool_names registry) ≡ none

  context-InOrder : InOrder (tool_names registry) state.completed_steps "context_tool"
  context-InOrder = ground (
    arith,
    eq_iff "context_tool" "reasoning_tool",
    eq_iff "context_tool" "recommendation_tool",
    eq_iff "context_tool" "COMPLETE",
  )

  llm_or_rules-Checked :
      contains "COMPLETE" state.completed_steps ≡ false
      → (r : Result (LlmDecision F))
      → llm_planning fl loads state registry env.user_prompt env.llm ≡ r
      → Checked (llm_or_rules fl loads state registry r)
  llm_or_rules-Checked fresh (ok d) h =
      (llm_planning_sound fl loads state registry env.user_prompt env.llm d h).0
  llm_or_rules-Checked fresh (err e) h = validate-rule_sequence fl state registry fresh

  choose-Checked :
      contains "COMPLETE" state.completed_steps ≡ false
      → Checked (choose fl loads env registry state)
  unfolding choose
  choose-Checked fresh =
      elim (Bool-cases
        (not (has_fields state.context) && not (contains "context_tool" state.completed_steps))) [
          | inl h ↦ rw h (
              validate_complete state "context_tool" (tool_names registry) (ground arith)
                context-InOrder)
          | inr h ↦ rw h (elim (Bool-cases (llm_allowed fl loads env state)) [
            | inr off ↦ rw off (validate-rule_sequence fl state registry fresh)
            | inl on ↦ rw on (elim (Bool-cases (planner_llm_circuit_open state)) [
              | inl shut ↦ rw shut (validate-rule_sequence fl state registry fresh)
              | inr clear ↦ rw clear (llm_or_rules-Checked fresh _ refl)
            ])
          ])
        ]

  pub record_choice-ok :
      (c : Choice F) (s' : InvestigationState F)
      → record_choice fl loads env registry state c ≡ ok s'
      → (is_valid_tool fl loads registry c.tool ≡ true)
        × (s' ≡ with_decision fl loads state (decision_of fl loads env state c))
  unfolding record_choice
  record_choice-ok c s' h =
      let kept = with_decision fl loads state (decision_of fl loads env state c) in
      let parts =
        if-eq-ok (is_valid_tool fl loads registry c.tool) kept s' (invalid_tool c.tool) h in
      (parts.0, sym parts.1)

  -- What a call of the planner that raises no error has done, from a state in which COMPLETE is not
  -- among the completed steps: it has selected a registered tool or COMPLETE, never a tool that is
  -- already completed, and in order; it has counted the step and appended the decision; and it has
  -- changed nothing else. The selected tool of the decision is the next action.
  pub planner_node-selects :
      (s' : InvestigationState F)
      → contains "COMPLETE" state.completed_steps ≡ false
      → planner_node fl loads env registry state ≡ ok s'
      → (is_valid_tool fl loads registry s'.next_action ≡ true)
        × (contains s'.next_action state.completed_steps ≡ false)
        × InOrder (tool_names registry) state.completed_steps s'.next_action
        × ((d : PlannerDecision F) × (d.selected_tool ≡ s'.next_action)
            × (s' ≡ record state {
              next_action = d.selected_tool;
              step_count = state.step_count + 1;
              planner_decisions = state.planner_decisions ++ d ∷ [];
            }))
  unfolding planner_node
  planner_node-selects s' fresh h =
      let c = choose fl loads env registry state in
      let (valid, e) = record_choice-ok c s' h in
      let action : s'.next_action ≡ c.tool = ap (λ (s : InvestigationState F). s.next_action) e in
      let order =
        (validate-InOrder_iff state c.tool (tool_names registry)).0 (choose-Checked fresh) in
      (
        rw action valid,
        rw action order.0,
        rw action order.1,
        (decision_of fl loads env state c, sym action, e),
      )
