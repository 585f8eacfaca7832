-- ===== src/Agent/Planner/Circuit.antt =====
-- The circuit of app/agent/planner.py that keeps the LLM out after a failure.
use card_fraud_ops_analyst_a.Prelude.{
  ℕ, ◌≡◌, String, Bool, true, false, Option, List, [], ◌∷◌, ◌++◌, ◌&&◌, ◌||◌, not, arith, refl,
  contains, lower, is_infix, is_some, ap,
}
use card_fraud_ops_analyst_a.Value.{Value, has_fields}
use card_fraud_ops_analyst_a.Floats.{Floats}
use card_fraud_ops_analyst_a.Agent.State.{
  InvestigationState, PlannerDecision, ToolRegistry, tool_names,
}
use card_fraud_ops_analyst_a.Agent.Planner.Rules.{
  llm_unavailable, any_opens, opens_circuit, planner_llm_circuit_open, first_open, tool_sequence,
  rule_sequence_next_tool,
}
use card_fraud_ops_analyst_a.Agent.Planner.Llm.{LlmReply, ok, err, PlannerError, llm_planning}
use card_fraud_ops_analyst_a.Agent.Planner.Node.{
  PlannerEnv, Choice, choose, record_choice, planner_node, llm_allowed, plain, decision_of,
}
use card_fraud_ops_analyst_a.Agent.Planner.Choosing.{record_choice-ok}

module _ {F : Type 0} where
  any_opens-append :
      (ds : List (PlannerDecision F)) (d : PlannerDecision F)
      → any_opens (ds ++ d ∷ []) ≡ (any_opens ds || opens_circuit d)
  unfolding any_opens
  any_opens-append [] d = ground arith
  any_opens-append (e ∷ ds) d = ground (arith, any_opens-append ds d)

unavailable_opens :
    is_infix "rule-sequence fallback: llm planner unavailable" (lower llm_unavailable) ≡ true
unfolding is_infix lower
unavailable_opens = refl

draft_keeps_closed :
    (is_infix "rule-sequence fallback: llm planner unavailable"
        (lower "rule-sequence fallback: rule draft required")
      || is_infix "rule-sequence fallback: planner circuit open"
          (lower "rule-sequence fallback: rule draft required"))
    ≡ false
unfolding is_infix lower
draft_keeps_closed = refl

done_keeps_closed :
    (is_infix "rule-sequence fallback: llm planner unavailable"
        (lower "rule-sequence fallback: all tools completed")
      || is_infix "rule-sequence fallback: planner circuit open"
          (lower "rule-sequence fallback: all tools completed"))
    ≡ false
unfolding is_infix lower
done_keeps_closed = refl

abbrev opens_by : String → Bool
opens_by reason =
    is_infix "rule-sequence fallback: llm planner unavailable" (lower reason)
    || is_infix "rule-sequence fallback: planner circuit open" (lower reason)

module _ {F : Type 0} (fl : Floats F) (loads : String → Option (Value F)) (env : PlannerEnv F)
    (registry : ToolRegistry F) (state : InvestigationState F) where
  -- the reason of the rule sequence opens the circuit exactly while a tool of the sequence is left
  rule_sequence-reason :
      opens_by (rule_sequence_next_tool fl state registry).1
      ≡ is_some (first_open state.completed_steps (tool_names registry) tool_sequence)
  unfolding rule_sequence_next_tool
  rule_sequence-reason = ground (arith, unavailable_opens, draft_keeps_closed, done_keeps_closed)

  -- The state of a call in which the LLM is asked.
  pub record AsksLlm : Type 0 where
    pub has_context :
        (not (has_fields state.context) && not (contains "context_tool" state.completed_steps))
        ≡ false
    pub allowed : llm_allowed fl loads env state ≡ true
    pub closed : planner_llm_circuit_open state ≡ false

  choose-after_failure :
      (e : PlannerError)
      → AsksLlm
      → llm_planning fl loads state registry env.user_prompt env.llm ≡ err e
      → choose fl loads env registry state
        ≡ plain fl loads (rule_sequence_next_tool fl state registry)
  unfolding choose
  choose-after_failure e asks h = rw (asks.has_context, asks.allowed, asks.closed, h)

  -- When the LLM is asked and fails and the planner raises no error, the decision of the rule
  -- sequence that stands in for it opens the circuit exactly if it is a tool of the canonical
  -- sequence: a fallback to `rule_draft_tool` or to COMPLETE leaves the circuit closed.
  pub circuit_opens_iff :
      (e : PlannerError) (s' : InvestigationState F)
      → AsksLlm
      → llm_planning fl loads state registry env.user_prompt env.llm ≡ err e
      → planner_node fl loads env registry state ≡ ok s'
      → planner_llm_circuit_open s'
        ≡ is_some (first_open state.completed_steps (tool_names registry) tool_sequence)
  unfolding planner_node planner_llm_circuit_open
  circuit_opens_iff e s' asks failed h =
      let c = choose fl loads env registry state in
      let kept = record_choice-ok fl loads env registry state c s' h in
      let reason = ap (λ (x : Choice F). x.reason) (choose-after_failure e asks failed) in
      rw (
        ap (λ (s : InvestigationState F). s.planner_decisions) kept.1,
        any_opens-append state.planner_decisions (decision_of fl loads env state c),
        asks.closed,
        reason,
        rule_sequence-reason,
      )

  -- Behind an open circuit the LLM is not asked: any other replies give the same result.
  pub circuit_open-ignores_llm :
      (llm : ℕ → LlmReply F)
      → planner_llm_circuit_open state ≡ true
      → planner_node fl loads env registry state
        ≡ planner_node fl loads (record env { llm = llm }) registry state
  unfolding planner_node choose record_choice
  circuit_open-ignores_llm llm shut = rw shut
