-- ===== src/Agent/Planner/Fallback.antt =====
-- The canonical sequence of app/agent/planner.py, when the LLM is off, failed or shut out.
use card_fraud_ops_analyst_a.Prelude.{
  ◌≡◌, ◌≢◌, ◌↔◌, ◌⊎◌, inl, inr, String, true, false, none, some, List, eq_iff, contains, arith, ap,
  sym, ◌∙◌,
}
use card_fraud_ops_analyst_a.Floats.{Floats}
use card_fraud_ops_analyst_a.Agent.State.{InvestigationState, ToolRegistry, tool_names}
use card_fraud_ops_analyst_a.Agent.Planner.Rules.{
  tool_sequence, first_open, rule_sequence_next_tool, should_attempt_rule_draft,
  validate_planner_decision,
}
use card_fraud_ops_analyst_a.Agent.Planner.Sequencing.{
  AllReady, InOrder, first_open_sound, first_open-none, first_open-InOrder, first_open-ne_complete,
  validate_complete,
}

-- what `AllReady` of the sequence says of the tools that COMPLETE waits for
AllReady-InOrder :
    (available completed : List String) (tool : String)
    → AllReady available completed tool_sequence
    → InOrder available completed tool
AllReady-InOrder available completed tool (a, (b, (c, (d, (e, (f, u)))))) = record {
  analyses = λ _. (b, (c, (d, tt)));
  reasoning = λ _. e;
  recommendation = λ _. f;
}

draft_ne_complete : ◌≢◌ {A = String} "rule_draft_tool" "COMPLETE"
draft_ne_complete = ground (arith, eq_iff "rule_draft_tool" "COMPLETE")

module _ {F : Type 0} (fl : Floats F) (state : InvestigationState F)
    (registry : ToolRegistry F) where
  abbrev choice : String
  choice = (rule_sequence_next_tool fl state registry).0

  -- The rule draft comes last: it is registered, open, and called for.
  abbrev pub DraftDue : Type 0
  DraftDue =
      (contains "rule_draft_tool" (tool_names registry) ≡ true)
      × (contains "rule_draft_tool" state.completed_steps ≡ false)
      × (should_attempt_rule_draft fl state ≡ true)

  -- one of the three ways in which the sequence chooses
  rule_sequence-cases :
      (first_open state.completed_steps (tool_names registry) tool_sequence ≡ some choice)
      ⊎ (AllReady (tool_names registry) state.completed_steps tool_sequence
          × ((choice ≡ "rule_draft_tool") × DraftDue ⊎ (choice ≡ "COMPLETE") × (¬ DraftDue)))
  unfolding rule_sequence_next_tool
  rule_sequence-cases =
      ground (arith, first_open-none state.completed_steps (tool_names registry) tool_sequence)

  -- The sequence keeps to the rules that decisions of the LLM are held to, from a state in which
  -- COMPLETE is not among the completed steps.
  pub validate-rule_sequence :
      contains "COMPLETE" state.completed_steps ≡ false
      → validate_planner_decision state
          (rule_sequence_next_tool fl state registry).0
          (tool_names registry)
        ≡ none
  validate-rule_sequence fresh = elim rule_sequence-cases [
    | inl h ↦
        let order = first_open-InOrder state.completed_steps (tool_names registry) choice h in
        let chosen =
          first_open_sound state.completed_steps (tool_names registry) tool_sequence choice h in
        validate_complete state choice (tool_names registry) chosen.0 order
    | inr (ready, inl (e, due)) ↦
        validate_complete state choice (tool_names registry) (rw e due.1)
          (AllReady-InOrder (tool_names registry) state.completed_steps choice ready)
    | inr (ready, inr (e, idle)) ↦
        validate_complete state choice (tool_names registry) (rw e fresh)
          (AllReady-InOrder (tool_names registry) state.completed_steps choice ready)
  ]

  -- The sequence ends exactly when every registered tool of it is completed and no rule draft is
  -- due: one is due if `rule_draft_tool` is registered, not completed, and called for by the
  -- severity or a recommendation.
  pub rule_sequence-complete_iff :
      ((rule_sequence_next_tool fl state registry).0 ≡ "COMPLETE")
      ↔ (AllReady (tool_names registry) state.completed_steps tool_sequence × (¬ DraftDue))
  rule_sequence-complete_iff =
      let missed = first_open-ne_complete state.completed_steps (tool_names registry) in
      (
        λ h. elim rule_sequence-cases [
          | inl e ↦ absurd (missed (e ∙ ap some h))
          | inr (ready, inl (e, due)) ↦ absurd (draft_ne_complete (sym e ∙ h))
          | inr (ready, inr (e, idle)) ↦ (ready, idle)
        ],
        λ (ready, idle). elim rule_sequence-cases [
          | inl e ↦ cc (
            e,
            (first_open-none state.completed_steps (tool_names registry) tool_sequence).1 ready,
          )
          | inr (ready, inl (e, due)) ↦ absurd (idle due)
          | inr (ready, inr (e, idle)) ↦ e
        ],
      )

  pub rule_sequence-fresh :
      (choice ≡ "COMPLETE")
      ⊎ ((contains choice state.completed_steps ≡ false)
          × (contains choice (tool_names registry) ≡ true))
  rule_sequence-fresh = elim rule_sequence-cases [
    | inl h ↦
        inr (first_open_sound state.completed_steps (tool_names registry) tool_sequence choice h)
    | inr (ready, inl (e, due)) ↦ inr (rw e due.1, rw e due.0)
    | inr (ready, inr (e, idle)) ↦ inl e
  ]
