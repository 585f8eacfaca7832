-- ===== src/Agent/Graph/Termination.antt =====
-- Every run of the graph (app/agent/graph.py) ends, and how many supersteps it takes.
use card_fraud_ops_analyst_a.Prelude.{
  ℕ, zero, suc, ◌+◌, ◌-◌, ◌*◌, ◌≤◌, ◌<◌, ◌≡◌, ◌⊎◌, inl, inr, String, Bool, true, false, Option,
  none, some, refl, arith, ap,
}
use card_fraud_ops_analyst_a.Value.{Value}
use card_fraud_ops_analyst_a.Floats.{Floats}
use card_fraud_ops_analyst_a.Agent.State.{InvestigationState, ToolRegistry}
use card_fraud_ops_analyst_a.Agent.Planner.Llm.{Result, ok, err}
use card_fraud_ops_analyst_a.Agent.Planner.Node.{planner_node, choose}
use card_fraud_ops_analyst_a.Agent.Planner.Choosing.{record_choice-ok}
use card_fraud_ops_analyst_a.Agent.Executor.Effect.{KeepControl, executor_node-Executed}
use card_fraud_ops_analyst_a.Agent.Completion.{completion_node}
use card_fraud_ops_analyst_a.Agent.Graph.{
  Node, planner, tool_executor, completion, ended, crashed, Run, GraphEnv, fail_planner,
  route_after_planner, planner_step, finish, dispatch, superstep, run_from, start, invoke,
}

-- What the planner closure can do to the counters: count a step, or fail and go to completion.
pub record Planned {F : Type 0} (s t : InvestigationState F) : Type 0 where
  pub executions : t.tool_executions ≡ s.tool_executions
  pub limit : t.max_steps ≡ s.max_steps
  pub counted : (t.step_count ≡ s.step_count + 1) ⊎ (route_after_planner t ≡ completion)

-- The run is over, by END or by an exception that nothing catches.
abbrev pub is_over : Node → Bool
is_over ended = true
is_over crashed = true
is_over _ = false

-- The supersteps that a run can still take.
abbrev pub fuel_at : Node → ℕ → ℕ
fuel_at planner left = 2 * left + 2
fuel_at tool_executor left = 2 * left + 3
fuel_at completion left = 1
fuel_at ended left = 0
fuel_at crashed left = 0

module _ {F : Type 0} where
  abbrev pub steps_left : InvestigationState F → ℕ
  steps_left s = s.max_steps - s.step_count

  abbrev pub fuel_of : Run F → ℕ
  fuel_of r = fuel_at r.node (steps_left r.state)

  route-fuel :
      (s t : InvestigationState F)
      → Planned s t
      → fuel_at (route_after_planner t) (steps_left t) < 2 * steps_left s + 2
  unfolding route_after_planner
  route-fuel s t p = ground (arith, p.counted, p.limit)

module _ {F : Type 0} (fl : Floats F) (loads : String → Option (Value F)) (env : GraphEnv F)
    (registry : ToolRegistry F) where
  planner_node-Planned :
      (n : ℕ) (s : InvestigationState F) (r : Result (InvestigationState F))
      → planner_node fl loads (env.planning n) registry s ≡ r
      → Planned s (fail_planner env.message s r)
  unfolding fail_planner planner_node
  planner_node-Planned n s (ok t) h =
      let c = choose fl loads (env.planning n) registry s in
      let kept = (record_choice-ok fl loads (env.planning n) registry s c t h).1 in
      record {
        executions = ap (λ (u : InvestigationState F). u.tool_executions) kept;
        limit = ap (λ (u : InvestigationState F). u.max_steps) kept;
        counted = inl (ap (λ (u : InvestigationState F). u.step_count) kept);
      }
  planner_node-Planned n s (err e) h = record {
    executions = refl;
    limit = refl;
    counted = inr (unfold route_after_planner in refl);
  }

  pub planner_step-Planned :
      (n : ℕ) (s : InvestigationState F) → Planned s (planner_step fl loads env registry n s)
  unfolding planner_step
  planner_step-Planned n s =
      planner_node-Planned n s (planner_node fl loads (env.planning n) registry s) refl

  finish-over :
      (r : Run F) (o : Option (InvestigationState F))
      → is_over (finish fl loads env registry r o).node ≡ true
  finish-over r none = refl
  finish-over r (some t) = refl

  over-fuel : (node : Node) (left : ℕ) → is_over node ≡ true → fuel_at node left ≡ 0
  over-fuel node left h = ground arith

  fuel-over : (node : Node) (left : ℕ) → fuel_at node left ≡ 0 → is_over node ≡ true
  fuel-over planner left h = absurd (omega arith)
  fuel-over tool_executor left h = absurd (omega arith)
  fuel-over completion left h = absurd (omega arith)
  fuel-over ended left h = refl
  fuel-over crashed left h = refl

  -- a superstep uses one unit, if there is one
  dispatch-fuel :
      (n : ℕ) (node : Node) (r : Run F)
      → KeepControl registry
      → r.node ≡ node
      → fuel_of (dispatch fl loads env registry n node r) ≤ fuel_of r - 1
  unfolding dispatch
  dispatch-fuel n planner r keep e = rw e (
      omega (
        arith,
        route-fuel r.state (planner_step fl loads env registry n r.state)
            (planner_step-Planned n r.state),
      ))
  dispatch-fuel n tool_executor r keep e =
      let x = executor_node-Executed (env.executing n) registry r.state keep in
      rw e (rw (x.steps, x.limit) (omega arith))
  dispatch-fuel n completion r keep e =
      let last = finish fl loads env registry r (completion_node fl loads (env.now n) r.state) in
      let over = finish-over r (completion_node fl loads (env.now n) r.state) in
      omega (arith, over-fuel last.node (steps_left last.state) over)
  dispatch-fuel n ended r keep e = rw e (omega arith)
  dispatch-fuel n crashed r keep e = rw e (omega arith)

  run_from-fuel :
      (k n : ℕ) (r : Run F)
      → KeepControl registry
      → fuel_of (run_from fl loads env registry k n r) ≤ fuel_of r - k
  unfolding run_from superstep
  run_from-fuel zero n r keep = omega arith
  run_from-fuel (suc k) n r keep = omega (
    arith,
    dispatch-fuel n r.node r keep refl,
    run_from-fuel k (n + 1) (dispatch fl loads env registry n r.node r) keep,
  )

  -- If no tool touches the control fields, a run is over after two supersteps for each step that is
  -- left, and two more, whatever the LLM answers and however the tools fail.
  pub invoke-over :
      (k : ℕ) (s : InvestigationState F)
      → KeepControl registry
      → 2 * (s.max_steps - s.step_count) + 2 ≤ k
      → is_over (invoke fl loads env registry k s).node ≡ true
  unfolding invoke
  invoke-over k s keep enough =
      let last = run_from fl loads env registry k 0 (start fl loads env registry s) in
      let spent = run_from-fuel k 0 (start fl loads env registry s) keep in
      fuel-over last.node (steps_left last.state) (omega (arith, spent))
