-- ===== src/Agent/Graph/Executions.antt =====
-- How many executions the supersteps of a run (app/agent/graph.py) pay for.
use card_fraud_ops_analyst_a.Prelude.{
  ℕ, zero, suc, ◌+◌, ◌-◌, ◌*◌, ◌≤◌, ◌≡◌, String, true, Option, none, some, refl, arith, length,
  length-append,
}
use card_fraud_ops_analyst_a.Value.{Value}
use card_fraud_ops_analyst_a.Floats.{Floats}
use card_fraud_ops_analyst_a.Agent.State.{InvestigationState, ToolRegistry}
use card_fraud_ops_analyst_a.Agent.Executor.Effect.{
  KeepControl, SameControl, executor_node-Executed,
}
use card_fraud_ops_analyst_a.Agent.Completion.{completion_node}
use card_fraud_ops_analyst_a.Agent.Completion.Keeps.{completion_node-SameControl}
use card_fraud_ops_analyst_a.Agent.Graph.{
  Node, planner, tool_executor, completion, ended, crashed, Run, GraphEnv, route_after_planner,
  planner_step, finish, dispatch, superstep, run_from, start, invoke,
}
use card_fraud_ops_analyst_a.Agent.Graph.Termination.{is_over, planner_step-Planned}

-- the supersteps that a run has taken, by the executions it has made since the start
abbrev pub taken_at : Node → ℕ → ℕ
taken_at planner e = 2 * e
taken_at tool_executor e = 2 * e + 1
taken_at completion e = 2 * e + 1
taken_at ended e = 2 * e + 2
taken_at crashed e = 2 * e + 2

module _ {F : Type 0} (fl : Floats F) (loads : String → Option (Value F)) (env : GraphEnv F)
    (registry : ToolRegistry F) where
  abbrev taken : ℕ → Run F → ℕ
  taken before r = taken_at r.node (length r.state.tool_executions - before)

  route-taken : (t : InvestigationState F) (e : ℕ) → taken_at (route_after_planner t) e ≡ 2 * e + 1
  unfolding route_after_planner
  route-taken t e = ground arith

  finish-taken :
      (before : ℕ) (r : Run F) (o : Option (InvestigationState F))
      → ((t : InvestigationState F) → o ≡ some t → SameControl r.state t)
      → taken before (finish fl loads env registry r o)
        ≡ 2 * (length r.state.tool_executions - before) + 2
  finish-taken before r none keeps = refl
  finish-taken before r (some t) keeps = rw ((keeps t refl).executions)

  -- a superstep counts once, until the run is over
  dispatch-taken :
      (before n : ℕ) (node : Node) (r : Run F)
      → KeepControl registry
      → r.node ≡ node
      → before ≤ length r.state.tool_executions
      → taken before (dispatch fl loads env registry n node r) ≤ taken before r + 1
  unfolding dispatch
  dispatch-taken before n planner r keep e h =
      let t = planner_step fl loads env registry n r.state in
      let p = planner_step-Planned fl loads env registry n r.state in
      rw (e, route-taken t (length t.tool_executions - before), p.executions) (omega arith)
  dispatch-taken before n tool_executor r keep e h =
      let x = executor_node-Executed (env.executing n) registry r.state keep in
      rw (e, x.executions, length-append) (omega arith)
  dispatch-taken before n completion r keep e h =
      rw
        (
          e,
          finish-taken before r (completion_node fl loads (env.now n) r.state)
              (λ t done. completion_node-SameControl fl loads (env.now n) r.state t done),
        )
        (omega arith)
  dispatch-taken before n ended r keep e h = omega arith
  dispatch-taken before n crashed r keep e h = omega arith

  finish-executions :
      (r : Run F) (o : Option (InvestigationState F))
      → ((t : InvestigationState F) → o ≡ some t → SameControl r.state t)
      → (finish fl loads env registry r o).state.tool_executions ≡ r.state.tool_executions
  finish-executions r none keeps = refl
  finish-executions r (some t) keeps = (keeps t refl).executions

  -- no superstep loses an execution
  dispatch-executions :
      (n : ℕ) (node : Node) (r : Run F)
      → KeepControl registry
      → length r.state.tool_executions
        ≤ length (dispatch fl loads env registry n node r).state.tool_executions
  unfolding dispatch
  dispatch-executions n planner r keep =
      rw ((planner_step-Planned fl loads env registry n r.state).executions) (omega arith)
  dispatch-executions n tool_executor r keep =
      rw
        ((executor_node-Executed (env.executing n) registry r.state keep).executions, length-append)
        (omega arith)
  dispatch-executions n completion r keep =
      rw
        (finish-executions r (completion_node fl loads (env.now n) r.state)
          (λ t done. completion_node-SameControl fl loads (env.now n) r.state t done))
        (omega arith)
  dispatch-executions n ended r keep = omega arith
  dispatch-executions n crashed r keep = omega arith

  run_from-taken :
      (before k n : ℕ) (r : Run F)
      → KeepControl registry
      → before ≤ length r.state.tool_executions
      → taken before (run_from fl loads env registry k n r) ≤ taken before r + k
  unfolding run_from superstep
  run_from-taken before zero n r keep h = omega arith
  run_from-taken before (suc k) n r keep h =
      let next = dispatch fl loads env registry n r.node r in
      let grows = dispatch-executions n r.node r keep in
      omega (
        arith,
        dispatch-taken before n r.node r keep refl h,
        run_from-taken before k (n + 1) next keep (omega (arith, grows)),
      )

  -- If no tool touches the control fields, a run that is over after `k` supersteps has made e new
  -- executions with 2 * e + 2 ≤ k.
  pub invoke-executions :
      (k : ℕ) (s : InvestigationState F)
      → KeepControl registry
      → is_over (invoke fl loads env registry k s).node ≡ true
      → 2
            * (length (invoke fl loads env registry k s).state.tool_executions
                - length s.tool_executions)
          + 2
        ≤ k
  unfolding invoke
  invoke-executions k s keep over =
      let before = length s.tool_executions in
      let last = run_from fl loads env registry k 0 (start fl loads env registry s) in
      let bound = run_from-taken before k 0 (start fl loads env registry s) keep (omega arith) in
      ground (arith, bound)
