-- ===== src/Service/Finished.antt =====
-- What `run_investigation` of app/services/investigation_service.py leaves in the table of the
-- investigations.
use card_fraud_ops_analyst_a.Prelude.{ℕ, ◌≡◌, String, Option, none, some, List, refl}
use card_fraud_ops_analyst_a.Value.{Value}
use card_fraud_ops_analyst_a.Floats.{Floats}
use card_fraud_ops_analyst_a.Agent.State.{InvestigationState, ToolRegistry}
use card_fraud_ops_analyst_a.Service.Store.{
  Tables, Session, Write, create, load_state, execute, emit,
}
use card_fraud_ops_analyst_a.Service.Run.{
  Settings, Surroundings, investigated, conflict, refused, not_found, Admission, admitted, rejected,
  store_all, save_failure, admit, begin, graph_saves, ainvoke, finish, investigate, run_result,
  on_created, on_admitted, run_investigation, initial_state, on_loaded, resume_investigation,
  resume_result, with_trace,
}
use card_fraud_ops_analyst_a.Service.Final.{run_result-final, resume_result-final}
use card_fraud_ops_analyst_a.Service.Closed.{
  committed_by, IsStored, IsClosed, created-has_row, store_all-IsStored, save_failure-IsStored,
  begin-IsStored, complete_investigation-IsClosed,
}

module _ {F : Type 0} (fl : Floats F) (loads : String → Option (Value F))
    (registry : ToolRegistry F) (persist : InvestigationState F → List (Write F)) where
  investigated_inj : (s t : InvestigationState F) → investigated s ≡ investigated t → s ≡ t
  investigated_inj s t h = cc

  investigate-IsClosed :
      (w : Surroundings F) (initial final : InvestigationState F) (s : Session F)
      → IsStored w.new_id s
      → (investigate fl loads registry persist w initial s).0 ≡ investigated final
      → IsClosed w w.new_id final (investigate fl loads registry persist w initial s).1.committed
  unfolding investigate finish
  investigate-IsClosed w initial final s h k =
      let s1 = store_all w w.new_id (graph_saves fl loads registry w initial) s in
      let state = run_result w initial s1 (ainvoke fl loads registry w initial) in
      rw (← investigated_inj state final k) (
        complete_investigation-IsClosed w w.new_id state (save_failure w w.new_id state s1)
          (save_failure-IsStored w w.new_id w.new_id state s1
            (store_all-IsStored w w.new_id w.new_id (graph_saves fl loads registry w initial) s h))
          (run_result-final fl loads registry w initial initial s1))

  refused≢investigated : (x : InvestigationState F) → refused ≡ investigated x → ⊥
  refused≢investigated x h = cc

  conflict≢investigated :
      (other : String) (x : InvestigationState F) → conflict other ≡ investigated x → ⊥
  conflict≢investigated other x h = cc

  not_found≢investigated : (x : InvestigationState F) → not_found ≡ investigated x → ⊥
  not_found≢investigated x h = cc

  on_created-IsClosed :
      (w : Surroundings F) (txn mode : String) (max_steps : ℕ)
      (initial final : InvestigationState F) (s : Session F) (o : Option (Tables F))
      → create w.new_id txn mode (fl.pct 0) max_steps s.working ≡ o
      → (on_created fl loads registry persist w initial s o).0 ≡ investigated final
      → IsClosed w w.new_id final (on_created fl loads registry persist w initial s o).1.committed
  on_created-IsClosed w txn mode max_steps initial final s none made h =
      absurd (refused≢investigated final h)
  on_created-IsClosed w txn mode max_steps initial final s (some after) made h =
      investigate-IsClosed w initial final (begin w w.new_id initial (execute (λ t. after) s))
        (begin-IsStored w w.new_id initial (execute (λ t. after) s)
          (created-has_row w.new_id txn mode (fl.pct 0) max_steps s.working after made))
        h

  on_admitted-IsClosed :
      (settings : Settings) (w : Surroundings F) (txn mode : String)
      (initial final : InvestigationState F) (s : Session F) (a : Admission F)
      → (on_admitted fl loads registry persist settings w txn mode initial s a).0
        ≡ investigated final
      → IsClosed w w.new_id final
          (on_admitted fl loads registry persist settings w txn mode initial s a).1.committed
  on_admitted-IsClosed settings w txn mode initial final s (rejected other) h =
      absurd (conflict≢investigated other final h)
  on_admitted-IsClosed settings w txn mode initial final s (admitted s1) h =
      on_created-IsClosed w txn mode settings.max_steps initial final s1 _ refl h

  -- A run that ends with a result has committed the row of its investigation. The row has the
  -- status, severity, confidence and step count of that result, unless `complete` raises both
  -- times: then its status is FAILED. Whatever the graph does, the timeout, its exceptions and up
  -- to two failures of the last update included, the status of the row is neither PENDING nor
  -- IN_PROGRESS.
  pub run_investigation-IsClosed :
      (settings : Settings) (w : Surroundings F) (txn mode : String)
      (case_id scenario : Option String) (s : Session F) (final : InvestigationState F)
      → (run_investigation fl loads registry persist settings w txn mode case_id scenario s).0
        ≡ investigated final
      → IsClosed w w.new_id final (
          committed_by
            (run_investigation fl loads registry persist settings w txn mode case_id scenario s))
  unfolding run_investigation
  run_investigation-IsClosed settings w txn mode case_id scenario s final h =
      on_admitted-IsClosed settings w txn mode
        (initial_state fl loads registry persist settings w txn case_id scenario) final s
        (admit txn s) h

  on_loaded-IsClosed :
      (w : Surroundings F) (id : String) (s : Session F) (o : Option (InvestigationState F))
      (final : InvestigationState F)
      → IsStored id s
      → (on_loaded fl loads registry persist w id s o).0 ≡ investigated final
      → IsClosed w id final (on_loaded fl loads registry persist w id s o).1.committed
  unfolding finish
  on_loaded-IsClosed w id s none final h k = absurd (not_found≢investigated final k)
  on_loaded-IsClosed w id s (some state) final h k =
      let traced = with_trace w.trace_id state in
      let s1 = execute (emit id "RESUMED" "IN_PROGRESS") s in
      let s2 = store_all w id (graph_saves fl loads registry w traced) s1 in
      let reached = resume_result w traced (ainvoke fl loads registry w traced) in
      rw (← investigated_inj reached final k) (
        complete_investigation-IsClosed w id reached s2
          (store_all-IsStored w id id (graph_saves fl loads registry w traced) s1
            (record { here = h.here; durable = h.durable }))
          (resume_result-final fl loads registry w traced))

  -- The same holds of a resumed investigation that has a committed row.
  pub resume_investigation-IsClosed :
      (w : Surroundings F) (id : String) (s : Session F) (final : InvestigationState F)
      → IsStored id s
      → (resume_investigation fl loads registry persist w id s).0 ≡ investigated final
      → IsClosed w id final (committed_by (resume_investigation fl loads registry persist w id s))
  unfolding resume_investigation
  resume_investigation-IsClosed w id s final h k =
      on_loaded-IsClosed w id s (load_state id s.working) final h k
