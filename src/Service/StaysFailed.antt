-- ===== src/Service/StaysFailed.antt =====
-- What `resume_investigation` of app/services/investigation_service.py makes of an investigation
-- that has failed or timed out.
use card_fraud_ops_analyst_a.Prelude.{
  ℕ, zero, suc, ◌+◌, ◌≡◌, String, Bool, true, false, Option, none, some, List, ◌==◌, ◌||◌,
  if◌then◌else◌, refl, ap, Bool-cases, inl, inr, upper, eq_iff, true≢false_of,
}
use card_fraud_ops_analyst_a.Value.{Value}
use card_fraud_ops_analyst_a.Floats.{Floats}
use card_fraud_ops_analyst_a.Agent.State.{
  InvestigationState, BaseTool, ToolOutcome, returned, timed_out, raised, ToolRegistry, get_tool,
}
use card_fraud_ops_analyst_a.Agent.Planner.Llm.{Result, ok, err}
use card_fraud_ops_analyst_a.Agent.Planner.Node.{planner_node, choose}
use card_fraud_ops_analyst_a.Agent.Planner.Choosing.{record_choice-ok}
use card_fraud_ops_analyst_a.Agent.Executor.{
  ExecutorEnv, executor_node, run_tool, record_outcome, append_step,
}
use card_fraud_ops_analyst_a.Agent.Completion.{completion_node}
use card_fraud_ops_analyst_a.Agent.Completion.Severity.{completion_node-ends}
use card_fraud_ops_analyst_a.Agent.Graph.{
  Node, planner, tool_executor, completion, ended, crashed, Run, GraphEnv, fail_planner,
  planner_step, finish, dispatch, superstep, run_from, start, invoke,
}
use card_fraud_ops_analyst_a.Service.Final.{with_trace-status}
use card_fraud_ops_analyst_a.Service.Store.{Session, Write, load_state}
use card_fraud_ops_analyst_a.Service.Run.{
  Surroundings, investigated, Ainvoke, result, timeout, exception, ainvoke, outcome_at,
  resume_result, with_trace, on_loaded, finish as conclude, resume_investigation,
}

abbrev pub is_failure : String → Bool
is_failure status = status == "FAILED" || status == "TIMED_OUT"

upper-failure : (status : String) → is_failure status ≡ true → is_failure (upper status) ≡ true
unfolding upper
upper-failure status h = elim (Bool-cases (status == "FAILED")) [
  | inl e ↦ rw ((eq_iff status "FAILED").0 e) refl
  | inr e ↦ rw ((eq_iff status "TIMED_OUT").0 (rw e at h)) refl
]

-- no tool of the registry touches the status
pub record KeepStatus {F : Type 0} (registry : ToolRegistry F) : Type 0 where
  pub keeps :
      (name : String) (tool : BaseTool F) (call : ℕ) (s t : InvestigationState F)
      → get_tool name registry ≡ some tool
      → tool.execute call s ≡ returned t
      → t.status ≡ s.status

module _ {F : Type 0} where
  record_outcome-status :
      (env : ExecutorEnv) (s : InvestigationState F) (name : String) (o : ToolOutcome F)
      → ((t : InvestigationState F) → o ≡ returned t → t.status ≡ s.status)
      → (record_outcome env s name o).status ≡ s.status
  unfolding record_outcome append_step
  record_outcome-status env s name (returned t) keep = keep t refl
  record_outcome-status env s name timed_out keep = refl
  record_outcome-status env s name (raised m) keep = refl

  run_tool-status :
      (env : ExecutorEnv) (registry : ToolRegistry F) (s : InvestigationState F) (name : String)
      (o : Option (BaseTool F))
      → get_tool name registry ≡ o
      → KeepStatus registry
      → (run_tool env s name o).status ≡ s.status
  unfolding append_step
  run_tool-status env registry s name none e keep = refl
  run_tool-status env registry s name (some tool) e keep =
      record_outcome-status env s name (tool.execute env.call s)
        (λ t h. keep.keeps name tool env.call s t e h)

  executor_node-status :
      (env : ExecutorEnv) (registry : ToolRegistry F) (s : InvestigationState F)
      → KeepStatus registry
      → (executor_node env registry s).status ≡ s.status
  unfolding executor_node
  executor_node-status env registry s keep =
      run_tool-status env registry s s.next_action (get_tool s.next_action registry) refl keep

module _ {F : Type 0} (fl : Floats F) (loads : String → Option (Value F)) (env : GraphEnv F)
    (registry : ToolRegistry F) where
  abbrev Failed : InvestigationState F → Type 0
  Failed s = is_failure s.status ≡ true

  planned-Failed :
      (n : ℕ) (s : InvestigationState F) (r : Result (InvestigationState F))
      → planner_node fl loads (env.planning n) registry s ≡ r
      → Failed s
      → Failed (fail_planner env.message s r)
  unfolding fail_planner planner_node
  planned-Failed n s (ok t) e h =
      let c = choose fl loads (env.planning n) registry s in
      rw
        (ap (λ (u : InvestigationState F). u.status)
          (record_choice-ok fl loads (env.planning n) registry s c t e).1)
        h
  planned-Failed n s (err m) e h = refl

  finished-Failed :
      (now : String) (r : Run F) (o : Option (InvestigationState F))
      → completion_node fl loads now r.state ≡ o
      → Failed r.state
      → Failed (finish fl loads env registry r o).state
  finished-Failed now r none e h = h
  finished-Failed now r (some t) e h = elim (completion_node-ends fl loads now r.state t e) [
    | inl (failed, same) ↦ rw same failed
    | inr (open_end, done) ↦ absurd (true≢false_of (upper-failure r.state.status h) open_end)
  ]

  dispatch-Failed :
      (n : ℕ) (r : Run F) (node : Node)
      → KeepStatus registry
      → Failed r.state
      → Failed (dispatch fl loads env registry n node r).state
  unfolding dispatch planner_step
  dispatch-Failed n r planner keep h =
      planned-Failed n r.state (planner_node fl loads (env.planning n) registry r.state) refl h
  dispatch-Failed n r tool_executor keep h =
      rw (executor_node-status (env.executing n) registry r.state keep) h
  dispatch-Failed n r completion keep h = finished-Failed (env.now n) r _ refl h
  dispatch-Failed n r ended keep h = h
  dispatch-Failed n r crashed keep h = h

  run_from-Failed :
      (k n : ℕ) (r : Run F)
      → KeepStatus registry
      → Failed r.state
      → Failed (run_from fl loads env registry k n r).state
  unfolding run_from superstep
  run_from-Failed zero n r keep h = h
  run_from-Failed (suc k) n r keep h =
      run_from-Failed k (n + 1) _ keep (dispatch-Failed n r r.node keep h)

module _ {F : Type 0} (fl : Floats F) (loads : String → Option (Value F))
    (registry : ToolRegistry F) (persist : InvestigationState F → List (Write F)) where
  abbrev FailedResult : Ainvoke F → Type 0
  FailedResult (result s) = is_failure s.status ≡ true
  FailedResult timeout = Unit
  FailedResult (exception _) = Unit

  cut-FailedResult :
      (w : Surroundings F) (b : Bool) → FailedResult (if b then timeout else exception w.exception)
  cut-FailedResult w true = tt
  cut-FailedResult w false = tt

  outcome_at-FailedResult :
      (w : Surroundings F) (node : Node) (s : InvestigationState F)
      → is_failure s.status ≡ true
      → FailedResult (outcome_at w node s)
  outcome_at-FailedResult w ended s h = h
  outcome_at-FailedResult w crashed s h = tt
  outcome_at-FailedResult w planner s h = cut-FailedResult w w.times_out
  outcome_at-FailedResult w tool_executor s h = cut-FailedResult w w.times_out
  outcome_at-FailedResult w completion s h = cut-FailedResult w w.times_out

  resumed-Failed :
      (w : Surroundings F) (s : InvestigationState F) (a : Ainvoke F)
      → FailedResult a
      → is_failure (resume_result w s a).status ≡ true
  unfolding resume_result
  resumed-Failed w s (result final) h = rw (with_trace-status fl loads w.trace_id final) h
  resumed-Failed w s timeout h = refl
  resumed-Failed w s (exception m) h = refl

  on_loaded-StaysFailed :
      (w : Surroundings F) (id : String) (s : Session F) (state : InvestigationState F)
      (o : Option (InvestigationState F))
      → KeepStatus registry
      → o ≡ some state
      → is_failure state.status ≡ true
      → (final : InvestigationState F) × ((on_loaded fl loads registry persist w id s o).0
          ≡ investigated final)
        × (is_failure final.status ≡ true)
  unfolding ainvoke invoke conclude
  on_loaded-StaysFailed w id s state o keep e h =
      let traced = with_trace w.trace_id state in
      let failed : is_failure traced.status ≡ true =
        rw (with_trace-status fl loads w.trace_id state) h in
      (
        resume_result w traced (ainvoke fl loads registry w traced),
        rw e refl,
        resumed-Failed w traced _ (
            outcome_at-FailedResult w _ _ (
              run_from-Failed fl loads w.graph_env registry w.supersteps 0
                (start fl loads w.graph_env registry traced) keep failed)),
      )

  -- If no tool touches the status, resuming an investigation whose stored state is FAILED or
  -- TIMED_OUT always answers with a state that is FAILED or TIMED_OUT, whatever the planner and
  -- the tools do now: a resumption never completes it.
  pub resume_investigation-StaysFailed :
      (w : Surroundings F) (id : String) (s : Session F) (state : InvestigationState F)
      → KeepStatus registry
      → load_state id s.working ≡ some state
      → is_failure state.status ≡ true
      → (final : InvestigationState F) × ((resume_investigation fl loads registry persist w id s).0
          ≡ investigated final)
        × (is_failure final.status ≡ true)
  unfolding resume_investigation
  resume_investigation-StaysFailed w id s state keep e h =
      on_loaded-StaysFailed w id s state (load_state id s.working) keep e h
