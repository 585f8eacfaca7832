-- ===== src/Agent/Graph/Safety.antt =====
-- The invariant over a whole run of the graph (app/agent/graph.py).
use card_fraud_ops_analyst_a.Prelude.{
  ℕ, zero, suc, ◌+◌, ◌<◌, ◌≡◌, String, false, Option, none, some, List, [], ◌∷◌, ◌++◌, ◌==◌, refl,
  arith, ap, length-append,
}
use card_fraud_ops_analyst_a.Value.{Value}
use card_fraud_ops_analyst_a.Floats.{Floats}
use card_fraud_ops_analyst_a.Agent.State.{InvestigationState, ToolRegistry, tool_names}
use card_fraud_ops_analyst_a.Agent.Planner.Llm.{Result, ok, err}
use card_fraud_ops_analyst_a.Agent.Planner.Node.{planner_node}
use card_fraud_ops_analyst_a.Agent.Planner.Choosing.{planner_node-selects}
use card_fraud_ops_analyst_a.Agent.Executor.{executor_node}
use card_fraud_ops_analyst_a.Agent.Executor.Effect.{
  SameControl, KeepControl, tool_returns, executor_node-Executed,
}
use card_fraud_ops_analyst_a.Agent.Completion.{completion_node}
use card_fraud_ops_analyst_a.Agent.Completion.Keeps.{completion_node-SameControl}
use card_fraud_ops_analyst_a.Agent.Graph.{
  Node, planner, tool_executor, completion, ended, crashed, Run, GraphEnv, fail_planner,
  route_after_planner, planner_step, finish, dispatch, superstep, run_from, start, invoke,
}
use card_fraud_ops_analyst_a.Agent.Graph.Invariant.{IsConsistent, IsPending, Executed-IsConsistent}

module _ {F : Type 0} where
  route-tool_executor :
      (s : InvestigationState F)
      → route_after_planner s ≡ tool_executor
      → ((s.next_action == "COMPLETE") ≡ false) × (s.step_count < s.max_steps)
  unfolding route_after_planner
  route-tool_executor s h = ground arith

module _ {F : Type 0} (fl : Floats F) (loads : String → Option (Value F)) (env : GraphEnv F)
    (registry : ToolRegistry F) where
  abbrev available : List String
  available = tool_names registry

  -- a decision of the planner keeps the invariant, and what it chooses may run
  decided-IsConsistent :
      (n : ℕ) (s s' : InvestigationState F)
      → IsConsistent available s
      → planner_node fl loads (env.planning n) registry s ≡ ok s'
      → IsConsistent available s'
        × (route_after_planner s' ≡ tool_executor → IsPending available s')
  decided-IsConsistent n s s' c h =
      let selected = planner_node-selects fl loads (env.planning n) registry s s' c.no_complete h in
      let kept = selected.3.2 in
      let completed : s'.completed_steps ≡ s.completed_steps =
        ap (λ (t : InvestigationState F). t.completed_steps) kept in
      let executions : s'.tool_executions ≡ s.tool_executions =
        ap (λ (t : InvestigationState F). t.tool_executions) kept in
      let steps : s'.step_count ≡ s.step_count + 1 =
        ap (λ (t : InvestigationState F). t.step_count) kept in
      let decisions : s'.planner_decisions ≡ s.planner_decisions ++ selected.3.0 ∷ [] =
        ap (λ (t : InvestigationState F). t.planner_decisions) kept in
      (
        record {
          decisions = rw (decisions, steps, length-append) (omega (arith, c.decisions));
          completed = rw (completed, executions) c.completed;
          distinct = rw completed c.distinct;
          no_complete = rw completed c.no_complete;
          sequenced = rw completed c.sequenced;
          executions = rw (executions, steps) (omega (arith, c.executions));
        },
        λ route. record {
          fresh = rw completed selected.1;
          in_order = rw completed selected.2;
          not_complete = (route-tool_executor s' route).0;
          room = rw (executions, steps) (omega (arith, c.executions));
        },
      )

  planned-IsConsistent :
      (n : ℕ) (s : InvestigationState F) (r : Result (InvestigationState F))
      → IsConsistent available s
      → planner_node fl loads (env.planning n) registry s ≡ r
      → IsConsistent available (fail_planner env.message s r)
        × (route_after_planner (fail_planner env.message s r) ≡ tool_executor
            → IsPending available (fail_planner env.message s r))
  unfolding fail_planner
  planned-IsConsistent n s (ok s') c h = decided-IsConsistent n s s' c h
  planned-IsConsistent n s (err e) c h = (
    record {
      decisions = c.decisions;
      completed = c.completed;
      distinct = c.distinct;
      no_complete = c.no_complete;
      sequenced = c.sequenced;
      executions = c.executions;
    },
    λ route. unfold route_after_planner in cc,
  )

  planner_step-IsConsistent :
      (n : ℕ) (s : InvestigationState F)
      → IsConsistent available s
      → IsConsistent available (planner_step fl loads env registry n s)
        × (route_after_planner (planner_step fl loads env registry n s) ≡ tool_executor
            → IsPending available (planner_step fl loads env registry n s))
  unfolding planner_step
  planner_step-IsConsistent n s c =
      planned-IsConsistent n s (planner_node fl loads (env.planning n) registry s) c refl

  -- The invariant of a run: consistent always, and pending before an execution.
  pub record IsSafe (r : Run F) : Type 0 where
    pub consistent : IsConsistent available r.state
    pub pending : r.node ≡ tool_executor → IsPending available r.state

  same-IsConsistent :
      (s t : InvestigationState F)
      → SameControl s t
      → IsConsistent available s
      → IsConsistent available t
  same-IsConsistent s t same c = record {
    decisions = rw (same.decisions, same.steps) c.decisions;
    completed = rw (same.completed, same.executions) c.completed;
    distinct = rw same.completed c.distinct;
    no_complete = rw same.completed c.no_complete;
    sequenced = rw same.completed c.sequenced;
    executions = rw (same.executions, same.steps) c.executions;
  }

  finish-IsSafe :
      (r : Run F) (o : Option (InvestigationState F))
      → ((t : InvestigationState F) → o ≡ some t → SameControl r.state t)
      → IsConsistent available r.state
      → IsSafe (finish fl loads env registry r o)
  finish-IsSafe r none keeps c = record { consistent = c; pending = λ e. cc }
  finish-IsSafe r (some t) keeps c = record {
    consistent = same-IsConsistent r.state t (keeps t refl) c;
    pending = λ e. cc;
  }

  dispatch-IsSafe :
      (n : ℕ) (node : Node) (r : Run F)
      → KeepControl registry
      → r.node ≡ node
      → IsSafe r
      → IsSafe (dispatch fl loads env registry n node r)
  unfolding dispatch
  dispatch-IsSafe n planner r keep e s =
      let step = planner_step-IsConsistent n r.state s.consistent in
      record { consistent = step.0; pending = step.1 }
  dispatch-IsSafe n tool_executor r keep e s = record {
    consistent =
        Executed-IsConsistent available r.state (executor_node (env.executing n) registry r.state)
          (tool_returns (env.executing n) registry r.state)
          (executor_node-Executed (env.executing n) registry r.state keep) s.consistent
          (s.pending e);
    pending = λ h. cc;
  }
  dispatch-IsSafe n completion r keep e s =
      finish-IsSafe r (completion_node fl loads (env.now n) r.state)
        (λ t h. completion_node-SameControl fl loads (env.now n) r.state t h) s.consistent
  dispatch-IsSafe n ended r keep e s = s
  dispatch-IsSafe n crashed r keep e s = s

  run_from-IsSafe :
      (k n : ℕ) (r : Run F)
      → KeepControl registry
      → IsSafe r
      → IsSafe (run_from fl loads env registry k n r)
  unfolding run_from superstep
  run_from-IsSafe zero n r keep s = s
  run_from-IsSafe (suc k) n r keep s =
      run_from-IsSafe k (n + 1) (superstep fl loads env registry n r) keep
        (dispatch-IsSafe n r.node r keep refl s)

  -- From a consistent state, whatever the LLM answers, however the tools fail and however many
  -- supersteps are taken, the state of the run is consistent, if no tool touches the control
  -- fields: each step is one decision, the completed steps are exactly the successful executions in
  -- order, none of them twice, `reasoning_tool` is completed only behind the registered analysis
  -- tools and `recommendation_tool` only behind a registered `reasoning_tool`, and there are at
  -- most as many executions as steps.
  pub invoke-IsConsistent :
      (k : ℕ) (s : InvestigationState F)
      → KeepControl registry
      → IsConsistent available s
      → IsConsistent available (invoke fl loads env registry k s).state
  unfolding invoke
  invoke-IsConsistent k s keep c =
      (run_from-IsSafe k 0 (start fl loads env registry s) keep
        (record { consistent = c; pending = λ e. cc })).consistent
