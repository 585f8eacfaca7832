-- ===== src/Agent/Graph/Investigation.antt =====
-- A whole investigation: the graph (app/agent/graph.py) from `create_initial_state`
-- (app/agent/state.py).
use card_fraud_ops_analyst_a.Prelude.{
  ℕ, ◌+◌, ◌*◌, ◌≤◌, ◌≡◌, String, Bool, true, Option, List, refl, arith, contains, true≢false_of,
}
use card_fraud_ops_analyst_a.Value.{Value}
use card_fraud_ops_analyst_a.Floats.{Floats}
use card_fraud_ops_analyst_a.Agent.State.{
  InvestigationState, ToolRegistry, tool_names, create_initial_state,
}
use card_fraud_ops_analyst_a.Agent.Executor.Effect.{KeepControl}
use card_fraud_ops_analyst_a.Agent.Graph.{GraphEnv, invoke}
use card_fraud_ops_analyst_a.Agent.Graph.Invariant.{IsConsistent, successes}
use card_fraud_ops_analyst_a.Agent.Graph.Safety.{invoke-IsConsistent}
use card_fraud_ops_analyst_a.Agent.Graph.Termination.{is_over, invoke-over}

module _ {F : Type 0} (fl : Floats F) (loads : String → Option (Value F)) (env : GraphEnv F)
    (registry : ToolRegistry F) (now investigation_id transaction_id : String) (max_steps : ℕ)
    (case_id scenario_name trace_id : Option String) (feature_flags : List (String × Bool))
    (safeguards : List (String × ℕ)) where
  abbrev pub initial : InvestigationState F
  initial =
      create_initial_state (fl.pct 0) now investigation_id transaction_id max_steps case_id
        scenario_name trace_id feature_flags safeguards

  initial-IsConsistent : IsConsistent (tool_names registry) initial
  unfolding create_initial_state successes contains
  initial-IsConsistent = record {
    decisions = refl;
    completed = refl;
    distinct = tt;
    no_complete = refl;
    sequenced = record {
      analyses = λ h. absurd (true≢false_of h refl);
      reasoning = λ h. absurd (true≢false_of h refl);
    };
    executions = omega arith;
  }

  initial-steps : initial.max_steps ≡ max_steps
  unfolding create_initial_state
  initial-steps = refl

  -- If no tool touches the control fields, an investigation with a limit of `max_steps` steps is
  -- over after 2 * max_steps + 2 supersteps, and its state is consistent, whatever the LLM answers
  -- and however the tools fail.
  pub investigation-ends :
      (k : ℕ)
      → KeepControl registry
      → 2 * max_steps + 2 ≤ k
      → (is_over (invoke fl loads env registry k initial).node ≡ true)
        × IsConsistent (tool_names registry) (invoke fl loads env registry k initial).state
  investigation-ends k keep enough = (
    invoke-over fl loads env registry k initial keep (ground (arith, initial-steps)),
    invoke-IsConsistent fl loads env registry k initial keep initial-IsConsistent,
  )
