-- ===== src/Service/Run.antt =====
-- `run_investigation`, `resume_investigation` and `_complete_investigation` of
-- app/services/investigation_service.py. Where the code catches exceptions the model has the
-- branch; the other statements on the database succeed here.
use card_fraud_ops_analyst_a.Prelude.{
  ℕ, String, Bool, Option, none, some, List, [], ◌∷◌, ◌++◌, ◌==◌, ◌||◌, ◌&&◌, not, if◌then◌else◌,
}
use card_fraud_ops_analyst_a.Value.{Value}
use card_fraud_ops_analyst_a.Floats.{Floats}
use card_fraud_ops_analyst_a.Agent.State.{InvestigationState, ToolRegistry, create_initial_state}
use card_fraud_ops_analyst_a.Agent.Graph.{Node, ended, crashed, GraphEnv, invoke}
use card_fraud_ops_analyst_a.Service.Store.{
  Row, Tables, Session, Write, create, update_status, complete, get_active_for_transaction,
  save_state, load_state, emit, commit, rollback, execute,
}

pub record Settings : Type 0 where
  pub max_steps : ℕ
  pub feature_flags : List (String × Bool)
  pub safeguards : List (String × ℕ)

-- What one request reads of its surroundings.
pub record Surroundings (F : Type 0) : Type 0 where
  -- `uuid.uuid7()`
  pub new_id : String
  pub trace_id : Option String
  pub now : String
  pub graph_env : GraphEnv F
  -- the number of supersteps before the graph is interrupted
  pub supersteps : ℕ
  -- whether the timeout interrupts it, or an exception
  pub times_out : Bool
  -- `str(exc)` of what the graph raises
  pub exception : String
  -- whether a state can be stored
  pub storable : InvestigationState F → Bool
  -- whether `complete` raises, the first and the second time
  pub first_fails : Bool
  pub second_fails : Bool

-- What `await graph.ainvoke(state)` comes to.
pub data Ainvoke (F : Type 0) : Type 0 where
  result : InvestigationState F → Ainvoke F
  timeout : Ainvoke F
  exception : String → Ainvoke F

pub data Response (F : Type 0) : Type 0 where
  investigated : InvestigationState F → Response F
  -- ConflictError, with the id of the other investigation
  conflict : String → Response F
  -- the IntegrityError of `create`
  refused : Response F
  -- NotFoundError
  not_found : Response F

-- What the check for an active investigation leads to.
pub data Admission (F : Type 0) : Type 0 where
  admitted : Session F → Admission F
  rejected : String → Admission F

-- the trace id that a new state gets
abbrev pub given_trace : Option String → Option String
given_trace none = none
given_trace (some t) = if t == "" then none else some t

module _ {F : Type 0} where
  abbrev pub cut_outcome : Surroundings F → Ainvoke F
  cut_outcome w = if w.times_out then timeout else exception w.exception

  abbrev pub outcome_at : Surroundings F → Node → InvestigationState F → Ainvoke F
  outcome_at w ended final = result final
  outcome_at w crashed final = exception w.exception
  outcome_at w _ final = cut_outcome w

  -- the saves of the graph's nodes, in order
  abbrev pub store_all :
      Surroundings F → String → List (InvestigationState F) → Session F → Session F
  store_all w id [] s = s
  store_all w id (x ∷ xs) s =
      store_all w id xs (if w.storable x then execute (save_state id x) s else rollback s)

  abbrev pub with_trace : Option String → InvestigationState F → InvestigationState F
  with_trace none state = state
  with_trace (some t) state = elim state.trace_id [
    | none ↦ if t == "" then state else record state { trace_id = some t }
    | some old ↦ if not (t == "") && old == "" then record state { trace_id = some t } else state
  ]

  abbrev pub failed_state :
      String → String → Option String → InvestigationState F → InvestigationState F
  failed_state status error completed_at state = record state {
    status = status;
    error = some error;
    completed_at = completed_at;
  }

  abbrev pub latest : String → InvestigationState F → Session F → InvestigationState F
  latest id fallback s = elim (load_state id s.working) [ none ↦ fallback | some state ↦ state ]

  -- the `try` around the graph in `run_investigation`
  unfoldable pub run_result :
      Surroundings F → InvestigationState F → Session F → Ainvoke F → InvestigationState F
  run_result w initial s (result final) = with_trace w.trace_id final
  run_result w initial s timeout =
      failed_state "TIMED_OUT" "Investigation timed out" (some w.now) (latest w.new_id initial s)
  run_result w initial s (exception message) =
      failed_state "FAILED" message (some w.now) (latest w.new_id initial s)

  -- the `try` around the graph in `resume_investigation`
  unfoldable pub resume_result :
      Surroundings F → InvestigationState F → Ainvoke F → InvestigationState F
  resume_result w state (result final) = with_trace w.trace_id final
  resume_result w state timeout =
      failed_state "TIMED_OUT" "Resume timed out" state.completed_at state
  resume_result w state (exception message) = failed_state "FAILED" message state.completed_at state

  -- `save_state` and `commit` in a `try`
  abbrev pub try_save : Surroundings F → String → InvestigationState F → Session F → Session F
  try_save w id state s = if w.storable state then commit (execute (save_state id state) s) else s

  abbrev pub save_failure : Surroundings F → String → InvestigationState F → Session F → Session F
  save_failure w id state s =
      if state.status == "FAILED" || state.status == "TIMED_OUT" then try_save w id state s else s

  -- `_complete_investigation`
  unfoldable pub complete_investigation :
      Surroundings F → String → InvestigationState F → Session F → Session F
  complete_investigation w id state s =
      if w.first_fails
      then if w.second_fails
        then commit (execute (update_status id "FAILED") (rollback (rollback s)))
        else commit (execute (complete id state) (rollback s))
      else commit (execute (complete id state) s)

  abbrev pub on_existing : String → Option (Row F) → Session F → Admission F
  on_existing txn none s = admitted s
  on_existing txn (some row) s =
      let marked = commit (execute (update_status row.id "FAILED") s) in
      if row.id == ""
      then rejected row.id
      else elim (load_state row.id s.working) [ none ↦ admitted marked | some _ ↦ rejected row.id ]

  unfoldable pub admit : String → Session F → Admission F
  admit txn s = on_existing txn (get_active_for_transaction txn s.working) s

  -- from the `PENDING` row to the start of the graph
  unfoldable pub begin : Surroundings F → String → InvestigationState F → Session F → Session F
  begin w id initial s = execute (emit id "STARTED" "IN_PROGRESS") (
      commit (
        execute (update_status id "IN_PROGRESS")
          (try_save w id initial (execute (emit id "CREATED" "") (commit s)))))

module _ {F : Type 0} (fl : Floats F) (loads : String → Option (Value F))
    (registry : ToolRegistry F) where
  unfoldable pub ainvoke : Surroundings F → InvestigationState F → Ainvoke F
  ainvoke w state =
      let r = invoke fl loads w.graph_env registry w.supersteps state in outcome_at w r.node r.state

  abbrev pub graph_saves : Surroundings F → InvestigationState F → List (InvestigationState F)
  graph_saves w state = (invoke fl loads w.graph_env registry w.supersteps state).saves

module _ {F : Type 0} (persist : InvestigationState F → List (Write F)) where
  -- `_persist_results`, the commit and the last audit entry
  unfoldable pub finish : String → InvestigationState F → Session F → Response F × Session F
  finish id state s = (
    investigated state,
    execute (emit id "COMPLETED" state.status)
        (commit (execute (λ t. record t { results = t.results ++ persist state }) s)),
  )

module _ {F : Type 0} (fl : Floats F) (loads : String → Option (Value F))
    (registry : ToolRegistry F) (persist : InvestigationState F → List (Write F)) where
  abbrev pub initial_state :
      Settings → Surroundings F → String → Option String → Option String → InvestigationState F
  initial_state settings w txn case_id scenario =
      create_initial_state (fl.pct 0) w.now w.new_id txn settings.max_steps case_id scenario
        (given_trace w.trace_id) settings.feature_flags settings.safeguards

  -- from the start of the graph to the end
  unfoldable pub investigate :
      Surroundings F → InvestigationState F → Session F → Response F × Session F
  unfolding ainvoke run_result complete_investigation finish
  investigate w initial s =
      let s1 = store_all w w.new_id (graph_saves fl loads registry w initial) s in
      let state = run_result w initial s1 (ainvoke fl loads registry w initial) in
      finish persist w.new_id state
        (complete_investigation w w.new_id state (save_failure w w.new_id state s1))

  abbrev pub on_created :
      Surroundings F → InvestigationState F → Session F → Option (Tables F) → Response F × Session F
  on_created w initial s none = (refused, rollback s)
  on_created w initial s (some created) =
      investigate w initial (begin w w.new_id initial (execute (λ t. created) s))

  abbrev pub on_admitted :
      Settings
      → Surroundings F
      → String
      → String
      → InvestigationState F
      → Session F
      → Admission F
      → Response F × Session F
  on_admitted settings w txn mode initial before (rejected other) = (conflict other, before)
  on_admitted settings w txn mode initial before (admitted s) =
      on_created w initial s (create w.new_id txn mode (fl.pct 0) settings.max_steps s.working)

  -- `run_investigation`
  unfoldable pub run_investigation :
      Settings
      → Surroundings F
      → String
      → String
      → Option String
      → Option String
      → Session F
      → Response F × Session F
  unfolding admit begin investigate
  run_investigation settings w txn mode case_id scenario s =
      on_admitted settings w txn mode (initial_state settings w txn case_id scenario) s
        (admit txn s)

  abbrev pub on_loaded :
      Surroundings F → String → Session F → Option (InvestigationState F) → Response F × Session F
  on_loaded w id s none = (not_found, s)
  on_loaded w id s (some state) =
      let s1 = execute (emit id "RESUMED" "IN_PROGRESS") s in
      let traced = with_trace w.trace_id state in
      let s2 = store_all w id (graph_saves fl loads registry w traced) s1 in
      let final = resume_result w traced (ainvoke fl loads registry w traced) in
      finish persist id final (complete_investigation w id final s2)

  -- `resume_investigation`
  unfoldable pub resume_investigation : Surroundings F → String → Session F → Response F × Session F
  unfolding ainvoke resume_result complete_investigation finish
  resume_investigation w id s = on_loaded w id s (load_state id s.working)
