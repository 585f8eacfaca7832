-- ===== src/Agent/Graph.antt =====
-- app/agent/graph.py: the three nodes, their edges, and a run of the compiled graph as LangGraph
-- documents it: one node at a time, from the entry point along the edges to END.
pub mod Invariant
pub mod Safety
pub mod Termination
pub mod Executions
pub mod Investigation
use card_fraud_ops_analyst_a.Prelude.{
  ℕ, zero, suc, ◌+◌, ◌≡◌, String, Bool, true, false, Option, none, some, List, [], ◌∷◌, ◌++◌, ◌==◌,
  if◌then◌else◌, leb,
}
use card_fraud_ops_analyst_a.Value.{Value}
use card_fraud_ops_analyst_a.Floats.{Floats}
use card_fraud_ops_analyst_a.Agent.State.{InvestigationState, ToolRegistry}
use card_fraud_ops_analyst_a.Agent.Planner.Llm.{Result, ok, err, PlannerError}
use card_fraud_ops_analyst_a.Agent.Planner.Node.{PlannerEnv, planner_node}
use card_fraud_ops_analyst_a.Agent.Executor.{ExecutorEnv, executor_node}
use card_fraud_ops_analyst_a.Agent.Completion.{completion_node}

-- The node that runs next; `ended` and `crashed` (an uncaught exception) are final.
pub data Node : Type 0 where
  planner tool_executor completion ended crashed : Node

pub record Run (F : Type 0) : Type 0 where
  pub node : Node
  pub state : InvestigationState F
  -- the states handed to `state_store.save_state`, in order
  pub saves : List (InvestigationState F)

-- What the superstep with a number reads of its surroundings.
pub record GraphEnv (F : Type 0) : Type 0 where
  pub planning : ℕ → PlannerEnv F
  pub executing : ℕ → ExecutorEnv
  pub now : ℕ → String
  -- `str(exc)`
  pub message : PlannerError → String

module _ {F : Type 0} where
  unfoldable pub fail_planner :
      (PlannerError → String)
      → InvestigationState F
      → Result (InvestigationState F)
      → InvestigationState F
  fail_planner message state (ok updated) = updated
  fail_planner message state (err e) = record state {
    status = "FAILED";
    error = some (message e);
    next_action = "COMPLETE";
  }

  unfoldable pub route_after_planner : InvestigationState F → Node
  route_after_planner state =
      if state.next_action == "COMPLETE"
      then completion
      else if leb state.max_steps state.step_count
      then completion
      else tool_executor

module _ {F : Type 0} (fl : Floats F) (loads : String → Option (Value F)) (env : GraphEnv F)
    (registry : ToolRegistry F) where
  -- the `planner` closure
  unfoldable pub planner_step : ℕ → InvestigationState F → InvestigationState F
  planner_step n state =
      fail_planner env.message state (planner_node fl loads (env.planning n) registry state)

  abbrev pub finish : Run F → Option (InvestigationState F) → Run F
  finish r none = record r { node = crashed }
  finish r (some final) = record {
    node = ended;
    state = final;
    saves = r.saves ++ final ∷ final ∷ [];
  }

  unfoldable pub dispatch : ℕ → Node → Run F → Run F
  dispatch n planner r =
      let updated = planner_step n r.state in
      record {
        node = route_after_planner updated;
        state = updated;
        saves = r.saves ++ updated ∷ [];
      }
  dispatch n tool_executor r =
      let updated = executor_node (env.executing n) registry r.state in
      record { node = planner; state = updated; saves = r.saves ++ updated ∷ [] }
  dispatch n completion r = finish r (completion_node fl loads (env.now n) r.state)
  dispatch n ended r = r
  dispatch n crashed r = r

  -- The superstep with number `n`.
  unfoldable pub superstep : ℕ → Run F → Run F
  superstep n r = dispatch n r.node r

  -- The supersteps `n`, `n + 1`, …, as many as the first argument says.
  unfoldable pub run_from : ℕ → ℕ → Run F → Run F
  run_from zero n r = r
  run_from (suc k) n r = run_from k (n + 1) (superstep n r)

  abbrev pub start : InvestigationState F → Run F
  start state = record { node = planner; state = state; saves = [] }

  -- `graph.ainvoke(state)`, cut after `k` supersteps
  unfoldable pub invoke : ℕ → InvestigationState F → Run F
  invoke k state = run_from k 0 (start state)
