-- ===== src/Service/Final.antt =====
-- The status with which app/services/investigation_service.py completes an investigation.
use card_fraud_ops_analyst_a.Prelude.{
  not, ◌&&◌, ℕ, zero, suc, ◌+◌, ◌≡◌, String, Bool, true, false, Option, none, some, ◌==◌, ◌||◌,
  if◌then◌else◌, refl, arith, Bool-cases, inl, inr, upper, leb,
}
use card_fraud_ops_analyst_a.Value.{Value}
use card_fraud_ops_analyst_a.Floats.{Floats}
use card_fraud_ops_analyst_a.Agent.State.{InvestigationState, ToolRegistry}
use card_fraud_ops_analyst_a.Agent.Completion.{completion_node, is_terminal_failure}
use card_fraud_ops_analyst_a.Agent.Completion.Severity.{completion_node-ends}
use card_fraud_ops_analyst_a.Agent.Graph.{
  Node, planner, tool_executor, completion, ended, crashed, Run, GraphEnv, route_after_planner,
  finish, superstep, dispatch, run_from, start, invoke,
}
use card_fraud_ops_analyst_a.Service.Store.{Session}
use card_fraud_ops_analyst_a.Service.Run.{
  Surroundings, Ainvoke, result, timeout, exception, ainvoke, outcome_at, run_result, resume_result,
  with_trace,
}

-- the statuses that nothing changes any more
abbrev pub is_final : String → Bool
is_final status = status == "COMPLETED" || status == "FAILED" || status == "TIMED_OUT"

module _ {F : Type 0} where
  -- only a final status has come to the end
  abbrev IsEnded : Node → InvestigationState F → Type 0
  IsEnded ended s = is_final s.status ≡ true
  IsEnded _ s = Unit

module _ {F : Type 0} (fl : Floats F) (loads : String → Option (Value F)) where
  failure-final :
      (status : String) → is_terminal_failure fl loads status ≡ true → is_final status ≡ true
  failure-final status h = ground arith

  completion_node-final :
      (now : String) (s t : InvestigationState F)
      → completion_node fl loads now s ≡ some t
      → is_final t.status ≡ true
  completion_node-final now s t h = elim (completion_node-ends fl loads now s t h) [
    | inl (failed, same) ↦ rw same (failure-final (upper s.status) failed)
    | inr (_, done) ↦ rw done.status refl
  ]

  route-IsEnded : (s t : InvestigationState F) → IsEnded (route_after_planner s) t
  unfolding route_after_planner
  route-IsEnded s t = elim (Bool-cases (s.next_action == "COMPLETE")) [
    | inl e ↦ rw e tt
    | inr e ↦ elim (Bool-cases (leb s.max_steps s.step_count)) [
      | inl k ↦ rw (e, k) tt
      | inr k ↦ rw (e, k) tt
    ]
  ]

  module _ (env : GraphEnv F) (registry : ToolRegistry F) where
    finish-IsEnded :
        (now : String) (r : Run F) (o : Option (InvestigationState F))
        → completion_node fl loads now r.state ≡ o
        → IsEnded (finish fl loads env registry r o).node (finish fl loads env registry r o).state
    finish-IsEnded now r none h = tt
    finish-IsEnded now r (some t) h = completion_node-final now r.state t h

    dispatch-IsEnded :
        (n : ℕ) (r : Run F) (node : Node)
        → IsEnded r.node r.state
        → IsEnded
            (dispatch fl loads env registry n node r).node
            (dispatch fl loads env registry n node r).state
    unfolding dispatch
    dispatch-IsEnded n r planner h = route-IsEnded _ _
    dispatch-IsEnded n r tool_executor h = tt
    dispatch-IsEnded n r completion h = finish-IsEnded (env.now n) r _ refl
    dispatch-IsEnded n r ended h = h
    dispatch-IsEnded n r crashed h = h

    run_from-IsEnded :
        (k n : ℕ) (r : Run F)
        → IsEnded r.node r.state
        → IsEnded
            (run_from fl loads env registry k n r).node
            (run_from fl loads env registry k n r).state
    unfolding run_from superstep
    run_from-IsEnded zero n r h = h
    run_from-IsEnded (suc k) n r h = run_from-IsEnded k (n + 1) _ (dispatch-IsEnded n r r.node h)

  pub with_trace-status :
      (t : Option String) (s : InvestigationState F) → (with_trace t s).status ≡ s.status
  with_trace-status none s = refl
  with_trace-status (some t) s = of_old s.trace_id refl
    where
      of_old : (o : Option String) → s.trace_id ≡ o → (with_trace (some t) s).status ≡ s.status
      of_old none e = elim (Bool-cases (t == "")) [
        | inl k ↦ rw (e, k) refl
        | inr k ↦ rw (e, k) refl
      ]
      of_old (some old) e = elim (Bool-cases (not (t == "") && old == "")) [
        | inl k ↦ rw (e, k) refl
        | inr k ↦ rw (e, k) refl
      ]

  -- what the graph returns, if it does, is final
  abbrev IsFinalResult : Ainvoke F → Type 0
  IsFinalResult (result s) = is_final s.status ≡ true
  IsFinalResult timeout = Unit
  IsFinalResult (exception _) = Unit

  cut-final :
      (w : Surroundings F) (b : Bool) → IsFinalResult (if b then timeout else exception w.exception)
  cut-final w true = tt
  cut-final w false = tt

  module _ (registry : ToolRegistry F) where
    outcome_at-final :
        (w : Surroundings F) (node : Node) (s : InvestigationState F)
        → IsEnded node s
        → IsFinalResult (outcome_at w node s)
    outcome_at-final w ended s h = h
    outcome_at-final w crashed s h = tt
    outcome_at-final w planner s h = cut-final w w.times_out
    outcome_at-final w tool_executor s h = cut-final w w.times_out
    outcome_at-final w completion s h = cut-final w w.times_out

    ainvoke-final :
        (w : Surroundings F) (s : InvestigationState F)
        → IsFinalResult (ainvoke fl loads registry w s)
    unfolding ainvoke invoke
    ainvoke-final w s = outcome_at-final w _ _ (
        run_from-IsEnded w.graph_env registry w.supersteps 0 (start fl loads w.graph_env registry s)
          tt)

    run_result-of :
        (w : Surroundings F) (initial : InvestigationState F) (s : Session F) (a : Ainvoke F)
        → IsFinalResult a
        → is_final (run_result w initial s a).status ≡ true
    unfolding run_result
    run_result-of w initial s (result final) h = rw (with_trace-status w.trace_id final) h
    run_result-of w initial s timeout h = refl
    run_result-of w initial s (exception m) h = refl

    pub run_result-final :
        (w : Surroundings F) (initial given : InvestigationState F) (s : Session F)
        → is_final (run_result w initial s (ainvoke fl loads registry w given)).status ≡ true
    run_result-final w initial given s =
        run_result-of w initial s (ainvoke fl loads registry w given) (ainvoke-final w given)

    resume_result-of :
        (w : Surroundings F) (s : InvestigationState F) (a : Ainvoke F)
        → IsFinalResult a
        → is_final (resume_result w s a).status ≡ true
    unfolding resume_result
    resume_result-of w s (result final) h = rw (with_trace-status w.trace_id final) h
    resume_result-of w s timeout h = refl
    resume_result-of w s (exception m) h = refl

    pub resume_result-final :
        (w : Surroundings F) (s : InvestigationState F)
        → is_final (resume_result w s (ainvoke fl loads registry w s)).status ≡ true
    resume_result-final w s =
        resume_result-of w s (ainvoke fl loads registry w s) (ainvoke-final w s)
