-- ===== src/Samples/Agent.antt =====
-- The theorems on the graph (app/agent/graph.py) and its executor and completion nodes at concrete
-- states.
use mathlib.Core.Option
use card_fraud_ops_analyst_a.Prelude.{
  ℕ, ◌+◌, ◌-◌, ◌*◌, ◌≤◌, ◌≡◌, ◌⊎◌, true, false, some, refl, arith, length, contains, upper,
  true≢false_of,
}
use card_fraud_ops_analyst_a.Value.{get}
use card_fraud_ops_analyst_a.Floats.{truthy}
use card_fraud_ops_analyst_a.Agent.State.{InvestigationState, tool_names}
use card_fraud_ops_analyst_a.Agent.Executor.{executor_node}
use card_fraud_ops_analyst_a.Agent.Executor.Effect.{Executed, tool_returns, executor_node-Executed}
use card_fraud_ops_analyst_a.Agent.Completion.{
  completion_node, is_terminal_failure, compute_final_confidence, determine_severity,
}
use card_fraud_ops_analyst_a.Agent.Completion.Severity.{IsCompleted, completion_node-ends}
use card_fraud_ops_analyst_a.Agent.Graph.{invoke}
use card_fraud_ops_analyst_a.Agent.Graph.Invariant.{IsConsistent, successes}
use card_fraud_ops_analyst_a.Agent.Graph.Safety.{invoke-IsConsistent}
use card_fraud_ops_analyst_a.Agent.Graph.Termination.{is_over, invoke-over}
use card_fraud_ops_analyst_a.Agent.Graph.Executions.{invoke-executions}
use card_fraud_ops_analyst_a.Samples.{hundredths, loads, registry, env, ready, registry-KeepControl}

ready-IsConsistent : IsConsistent (tool_names registry) ready
unfolding successes contains
ready-IsConsistent = record {
  decisions = refl;
  completed = refl;
  distinct = tt;
  no_complete = refl;
  sequenced = record {
    analyses = λ h. absurd (true≢false_of h refl);
    reasoning = λ h. absurd (true≢false_of h refl);
  };
  executions = omega arith;
}

invoke-IsConsistent_example :
    IsConsistent (tool_names registry) (invoke hundredths loads env registry 9 ready).state
invoke-IsConsistent_example =
    invoke-IsConsistent hundredths loads env registry 9 ready registry-KeepControl
      ready-IsConsistent

enough : 2 * (ready.max_steps - ready.step_count) + 2 ≤ 12
enough = omega arith

invoke-over_example : is_over (invoke hundredths loads env registry 12 ready).node ≡ true
invoke-over_example = invoke-over hundredths loads env registry 12 ready registry-KeepControl enough

invoke-executions_example :
    2
        * (length (invoke hundredths loads env registry 12 ready).state.tool_executions
            - length ready.tool_executions)
      + 2
    ≤ 12
invoke-executions_example =
    invoke-executions hundredths loads env registry 12 ready registry-KeepControl
      invoke-over_example

abbrev at_pattern : InvestigationState ℕ
at_pattern = record ready { next_action = "pattern_tool" }

executor_node-Executed_example :
    Executed
      (tool_returns (env.executing 0) registry at_pattern)
      at_pattern
      (executor_node (env.executing 0) registry at_pattern)
executor_node-Executed_example =
    executor_node-Executed (env.executing 0) registry at_pattern registry-KeepControl

abbrev completed : InvestigationState ℕ
completed = record ready {
  status = "COMPLETED";
  completed_at = some "t";
  confidence_score = 0;
  severity = "LOW";
}

ready-completes : completion_node hundredths loads "t" ready ≡ some completed
unfolding completion_node compute_final_confidence determine_severity contains upper get truthy
    Option.bind
ready-completes = refl

completion_node-ends_example :
    ((is_terminal_failure hundredths loads (upper "PENDING") ≡ true)
      × (completed ≡ record ready { status = upper "PENDING"; completed_at = some "t" }))
    ⊎ ((is_terminal_failure hundredths loads (upper "PENDING") ≡ false)
        × IsCompleted hundredths loads "t" ready completed)
completion_node-ends_example =
    completion_node-ends hundredths loads "t" ready completed ready-completes
