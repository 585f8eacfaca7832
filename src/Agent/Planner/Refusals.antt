-- ===== src/Agent/Planner/Refusals.antt =====
-- When `planner_node` of app/agent/planner.py raises an error.
use card_fraud_ops_analyst_a.Prelude.{
  ◌≡◌, ◌⊎◌, ◌↔◌, inl, inr, String, Bool, true, false, Option, arith, refl, Bool-cases, sym, ap, ◌∙◌,
  contains, not, ◌&&◌, true≢false_of,
}
use card_fraud_ops_analyst_a.Value.{Value, has_fields}
use card_fraud_ops_analyst_a.Floats.{Floats}
use card_fraud_ops_analyst_a.Agent.State.{InvestigationState, ToolRegistry, tool_names}
use card_fraud_ops_analyst_a.Agent.Planner.Rules.{rule_sequence_next_tool, planner_llm_circuit_open}
use card_fraud_ops_analyst_a.Agent.Planner.Fallback.{rule_sequence-fresh}
use card_fraud_ops_analyst_a.Agent.Planner.Llm.{
  Result, ok, err, PlannerError, LlmDecision, invalid_tool, llm_planning,
}
use card_fraud_ops_analyst_a.Agent.Planner.Node.{
  PlannerEnv, choose, record_choice, planner_node, is_valid_tool, llm_or_rules, llm_allowed,
}
use card_fraud_ops_analyst_a.Agent.Planner.Circuit.{AsksLlm}

module _ {F : Type 0} (fl : Floats F) (loads : String → Option (Value F)) (env : PlannerEnv F)
    (registry : ToolRegistry F) (state : InvestigationState F) where
  abbrev pub needs_context : Bool
  needs_context =
      not (has_fields state.context) && not (contains "context_tool" state.completed_steps)

  abbrev is_known : String → Bool
  is_known tool = is_valid_tool fl loads registry tool

  -- the LLM is asked and its decision is taken
  abbrev pub IsAnswered : String → Type 0
  IsAnswered tool =
      AsksLlm fl loads env registry state
      × ((d : LlmDecision F) × (llm_planning fl loads state registry env.user_prompt env.llm ≡ ok d)
          × (tool ≡ d.tool))

  rules_known : is_known (rule_sequence_next_tool fl state registry).0 ≡ true
  rules_known = elim (rule_sequence-fresh fl state registry) [
    | inl e ↦ rw e (ground arith)
    | inr h ↦ rw h.1 refl
  ]

  refused_iff :
      (e : PlannerError)
      → (planner_node fl loads env registry state ≡ err e) ↔ (
          (is_known (choose fl loads env registry state).tool ≡ false)
          × (e ≡ invalid_tool (choose fl loads env registry state).tool))
  unfolding planner_node record_choice
  refused_iff e = (λ h. ground arith, λ h. rw (h.0, h.1) refl)

  llm_or_rules-IsAnswered :
      AsksLlm fl loads env registry state
      → (r : Result (LlmDecision F))
      → llm_planning fl loads state registry env.user_prompt env.llm ≡ r
      → is_known (llm_or_rules fl loads state registry r).tool ≡ false
      → IsAnswered (llm_or_rules fl loads state registry r).tool
  llm_or_rules-IsAnswered asks (ok d) h bad = (asks, (d, h, refl))
  llm_or_rules-IsAnswered asks (err e) h bad = absurd (true≢false_of rules_known bad)

  choice-unknown :
      is_known (choose fl loads env registry state).tool ≡ false
      → ((needs_context ≡ true) × ((choose fl loads env registry state).tool ≡ "context_tool"))
        ⊎ IsAnswered (choose fl loads env registry state).tool
  unfolding choose
  choice-unknown bad = elim (Bool-cases needs_context) [
    | inl n ↦ inl (n, rw n refl)
    | inr n ↦ elim (Bool-cases (llm_allowed fl loads env state)) [
      | inr a ↦ absurd (true≢false_of rules_known (rw (n, a) at bad))
      | inl a ↦ elim (Bool-cases (planner_llm_circuit_open state)) [
        | inl o ↦ absurd (true≢false_of rules_known (rw (n, a, o) at bad))
        | inr o ↦
            rw (n, a, o)
              (inr (
                llm_or_rules-IsAnswered (record { has_context = n; allowed = a; closed = o }) _ refl
                  (rw (n, a, o) at bad)))
      ]
    ]
  ]

  unknown-choice :
      ((needs_context ≡ true) × (contains "context_tool" (tool_names registry) ≡ false))
      → ((choose fl loads env registry state).tool ≡ "context_tool")
        × (is_known "context_tool" ≡ false)
  unfolding choose
  unknown-choice (n, absent) = (rw n refl, rw absent refl)

  answered-choice :
      (d : LlmDecision F)
      → AsksLlm fl loads env registry state
      → llm_planning fl loads state registry env.user_prompt env.llm ≡ ok d
      → (choose fl loads env registry state).tool ≡ d.tool
  unfolding choose
  answered-choice d asks h = rw (asks.has_context, asks.allowed, asks.closed, h) refl

  -- `planner_node` raises an error exactly if the tool context_tool is due before any analysis and
  -- not registered, or the LLM is asked and its decision is taken although its tool is neither
  -- registered nor COMPLETE; the error names that tool. The rule sequence never leads to an error,
  -- and neither does a failure of the LLM.
  pub planner_node-refuses_iff :
      (e : PlannerError)
      → (planner_node fl loads env registry state ≡ err e) ↔ (
          ((needs_context ≡ true)
            × (contains "context_tool" (tool_names registry) ≡ false)
            × (e ≡ invalid_tool "context_tool"))
          ⊎ ((d : LlmDecision F) × AsksLlm fl loads env registry state
              × (llm_planning fl loads state registry env.user_prompt env.llm ≡ ok d)
              × (is_valid_tool fl loads registry d.tool ≡ false)
              × (e ≡ invalid_tool d.tool)))
  planner_node-refuses_iff e = (
    λ h.
        let (bad, named) = (refused_iff e).0 h in
        elim (choice-unknown bad) [
          | inl (n, c) ↦ inl (n, known_parts (rw c at bad), named ∙ ap invalid_tool c)
          | inr (asks, (d, made, c)) ↦ inr (d, asks, made, rw c at bad, named ∙ ap invalid_tool c)
        ],
    λ h. elim h [
      | inl (n, absent, named) ↦
          let (c, bad) = unknown-choice (n, absent) in
          (refused_iff e).1 (rw c bad, named ∙ ap invalid_tool (sym c))
      | inr (d, asks, made, bad, named) ↦
          let c = answered-choice d asks made in
          (refused_iff e).1 (rw c bad, named ∙ ap invalid_tool (sym c))
    ],
  )
    where
      known_parts :
          is_known "context_tool" ≡ false → contains "context_tool" (tool_names registry) ≡ false
      known_parts h = ground arith
