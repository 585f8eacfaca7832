-- ===== src/Agent/Executor.antt =====
-- app/agent/executor.py: the node that runs the selected tool. The two display summaries of an
-- execution record are left out, and with them the case that building one raises.
pub mod Effect
use Prim.Native.String.{◌++◌ as append}
use card_fraud_ops_analyst_a.Prelude.{
  ℕ, ◌≡◌, String, Bool, true, false, Option, none, some, List, [], ◌∷◌, ◌++◌, ◌==◌, if◌then◌else◌,
  upper,
}
use card_fraud_ops_analyst_a.Agent.State.{
  InvestigationState, ToolExecution, BaseTool, ToolRegistry, ToolOutcome, returned, timed_out,
  raised, get_tool, has_tool,
}

-- What one execution reads of its surroundings: the number of the call, the clock, the time taken
-- and the text of the timeout setting.
pub record ExecutorEnv : Type 0 where
  pub call : ℕ
  pub now : String
  pub elapsed_ms : ℕ
  pub timeout_message : String

-- `_create_execution_record`
abbrev pub execution_record : ExecutorEnv → String → String → ℕ → Option String → ToolExecution
execution_record env tool_name status ms error = record {
  tool_name = tool_name;
  execution_time_ms = ms;
  status = status;
  error_message = error;
  timestamp = env.now;
}

module _ {F : Type 0} where
  -- `_append_step`
  unfoldable pub append_step : InvestigationState F → String → ToolExecution → InvestigationState F
  append_step state tool_name execution = record state {
    completed_steps =
        if upper execution.status == "SUCCESS"
        then state.completed_steps ++ tool_name ∷ []
        else state.completed_steps;
    tool_executions = state.tool_executions ++ execution ∷ [];
  }

  -- The `try` of `executor_node`, on what the tool's call came to.
  unfoldable pub record_outcome :
      ExecutorEnv → InvestigationState F → String → ToolOutcome F → InvestigationState F
  record_outcome env state tool (returned updated) =
      append_step updated tool (execution_record env tool "SUCCESS" env.elapsed_ms none)
  record_outcome env state tool timed_out =
      append_step state tool
        (execution_record env tool "TIMED_OUT" env.elapsed_ms (some env.timeout_message))
  record_outcome env state tool (raised message) =
      append_step state tool (execution_record env tool "FAILED" env.elapsed_ms (some message))

  abbrev pub run_tool :
      ExecutorEnv → InvestigationState F → String → Option (BaseTool F) → InvestigationState F
  run_tool env state tool none =
      append_step state tool
        (execution_record env tool "FAILED" 0 (some (append "Unknown tool: " tool)))
  run_tool env state tool (some t) = record_outcome env state tool (t.execute env.call state)

  -- `executor_node`
  unfoldable pub executor_node :
      ExecutorEnv → ToolRegistry F → InvestigationState F → InvestigationState F
  executor_node env registry state =
      run_tool env state state.next_action (get_tool state.next_action registry)
