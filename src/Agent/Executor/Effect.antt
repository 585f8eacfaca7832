-- ===== src/Agent/Executor/Effect.antt =====
-- What an execution (app/agent/executor.py) does to the fields that control the investigation.
use Prim.Native.String.{◌++◌ as append}
use card_fraud_ops_analyst_a.Prelude.{
  ℕ, ◌≡◌, String, Bool, true, false, Option, none, some, [], ◌∷◌, ◌++◌, ◌==◌, if◌then◌else◌, upper,
  refl,
}
use card_fraud_ops_analyst_a.Agent.State.{
  InvestigationState, ToolExecution, BaseTool, ToolRegistry, ToolOutcome, returned, timed_out,
  raised, get_tool,
}
use card_fraud_ops_analyst_a.Agent.Executor.{
  ExecutorEnv, execution_record, append_step, record_outcome, run_tool, executor_node,
}

abbrev pub succeeded : ToolExecution → Bool
succeeded x = upper x.status == "SUCCESS"

module _ {F : Type 0} where
  -- The fields that no tool may touch.
  pub record SameControl (s t : InvestigationState F) : Type 0 where
    pub completed : t.completed_steps ≡ s.completed_steps
    pub executions : t.tool_executions ≡ s.tool_executions
    pub decisions : t.planner_decisions ≡ s.planner_decisions
    pub steps : t.step_count ≡ s.step_count
    pub limit : t.max_steps ≡ s.max_steps

  -- The tools of a registry touch none of those fields.
  pub record KeepControl (registry : ToolRegistry F) : Type 0 where
    pub keeps :
        (name : String) (tool : BaseTool F) (call : ℕ) (s t : InvestigationState F)
        → get_tool name registry ≡ some tool
        → tool.execute call s ≡ returned t
        → SameControl s t

  abbrev pub is_returned : ToolOutcome F → Bool
  is_returned (returned _) = true
  is_returned _ = false

  abbrev returns_with : ExecutorEnv → InvestigationState F → Option (BaseTool F) → Bool
  returns_with env s none = false
  returns_with env s (some tool) = is_returned (tool.execute env.call s)

  -- The next action is a registered tool, and its call returns a state.
  abbrev pub tool_returns : ExecutorEnv → ToolRegistry F → InvestigationState F → Bool
  tool_returns env registry s = returns_with env s (get_tool s.next_action registry)

  -- One execution is recorded for the next action, the action is completed exactly if its tool
  -- returned (`done`), and otherwise the rest of the state is as it was.
  pub record Executed (done : Bool) (s t : InvestigationState F) : Type 0 where
    pub execution : ToolExecution
    pub named : execution.tool_name ≡ s.next_action
    pub status : succeeded execution ≡ done
    pub executions : t.tool_executions ≡ s.tool_executions ++ execution ∷ []
    pub completed :
        t.completed_steps
        ≡ (if done then s.completed_steps ++ s.next_action ∷ [] else s.completed_steps)
    pub decisions : t.planner_decisions ≡ s.planner_decisions
    pub steps : t.step_count ≡ s.step_count
    pub limit : t.max_steps ≡ s.max_steps
    pub rollback :
        done ≡ false → t ≡ record s { tool_executions = s.tool_executions ++ execution ∷ [] }

  SameControl-refl : (s : InvestigationState F) → SameControl s s
  SameControl-refl s = record {
    completed = refl;
    executions = refl;
    decisions = refl;
    steps = refl;
    limit = refl;
  }

  append_step-Executed :
      (s t : InvestigationState F) (x : ToolExecution)
      → x.tool_name ≡ s.next_action
      → SameControl s t
      → (succeeded x ≡ false → t ≡ s)
      → Executed (succeeded x) s (append_step t s.next_action x)
  unfolding append_step
  append_step-Executed s t x name same undone = record {
    execution = x;
    named = name;
    status = refl;
    executions = rw (same.executions);
    completed = rw (same.completed);
    decisions = same.decisions;
    steps = same.steps;
    limit = same.limit;
    rollback = λ failed. rw (failed, undone failed);
  }

  record_outcome-Executed :
      (env : ExecutorEnv) (s : InvestigationState F) (o : ToolOutcome F)
      → ((t : InvestigationState F) → o ≡ returned t → SameControl s t)
      → Executed (is_returned o) s (record_outcome env s s.next_action o)
  unfolding record_outcome
  record_outcome-Executed env s (returned t) keeps =
      unfold upper in
      append_step-Executed s t (execution_record env s.next_action "SUCCESS" env.elapsed_ms none)
        refl (keeps t refl) (λ failed. cc)
  record_outcome-Executed env s timed_out keeps =
      unfold upper in
      append_step-Executed s s
        (execution_record env s.next_action "TIMED_OUT" env.elapsed_ms (some env.timeout_message))
        refl (SameControl-refl s) (λ _. refl)
  record_outcome-Executed env s (raised m) keeps =
      unfold upper in
      append_step-Executed s s (execution_record env s.next_action "FAILED" env.elapsed_ms (some m))
        refl (SameControl-refl s) (λ _. refl)

  run_tool-Executed :
      (env : ExecutorEnv) (s : InvestigationState F) (o : Option (BaseTool F))
      → ((tool : BaseTool F) (t : InvestigationState F)
          → o ≡ some tool
          → tool.execute env.call s ≡ returned t
          → SameControl s t)
      → Executed (returns_with env s o) s (run_tool env s s.next_action o)
  run_tool-Executed env s none keeps =
      unfold upper in
      append_step-Executed s s
        (execution_record env s.next_action "FAILED" 0
          (some (append "Unknown tool: " s.next_action)))
        refl (SameControl-refl s) (λ _. refl)
  run_tool-Executed env s (some tool) keeps =
      record_outcome-Executed env s (tool.execute env.call s) (λ t e. keeps tool t refl e)

  -- If no tool touches the control fields, then whatever a tool does, `executor_node` records one
  -- execution of the next action, marks it a success and completes the action exactly if the
  -- tool is registered and returned, leaves the other control fields alone, and otherwise (a
  -- timeout, an exception, an unknown tool) has changed nothing but the list of executions.
  pub executor_node-Executed :
      (env : ExecutorEnv) (registry : ToolRegistry F) (s : InvestigationState F)
      → KeepControl registry
      → Executed (tool_returns env registry s) s (executor_node env registry s)
  unfolding executor_node
  executor_node-Executed env registry s keep =
      run_tool-Executed env s (get_tool s.next_action registry)
        (λ tool t found e. keep.keeps s.next_action tool env.call s t found e)
