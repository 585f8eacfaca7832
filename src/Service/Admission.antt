-- ===== src/Service/Admission.antt =====
-- Which requests `run_investigation` of app/services/investigation_service.py carries out.
use card_fraud_ops_analyst_a.Prelude.{
  ℕ, ◌≡◌, ◌≤◌, String, Bool, true, false, Option, none, some, List, ◌==◌, not, refl, ap, ◌∙◌,
  Bool-cases, inl, inr,
}
use card_fraud_ops_analyst_a.Value.{Value}
use card_fraud_ops_analyst_a.Floats.{Floats}
use card_fraud_ops_analyst_a.Agent.State.{InvestigationState, ToolRegistry}
use card_fraud_ops_analyst_a.Service.Store.{
  Row, Session, Write, some_row, is_active_for, is_running_for, create, get_active_for_transaction,
  commit, execute, update_status,
}
use card_fraud_ops_analyst_a.Service.Run.{
  Settings, Surroundings, Response, investigated, admit, on_existing, on_created, on_admitted,
  run_investigation, initial_state, investigate, finish,
}
use card_fraud_ops_analyst_a.Service.Hindering.{
  and_unless, count_rows, is_stale, hinders, taken, active_of_running, some_row-none,
  first_row-holds, stale-free, running_status, existing-stale, existing-held,
}

module _ {F : Type 0} (fl : Floats F) (loads : String → Option (Value F))
    (registry : ToolRegistry F) (persist : InvestigationState F → List (Write F)) where
  abbrev pub is_investigated : Response F × Session F → Bool
  is_investigated (investigated state, s) = true
  is_investigated (_, s) = false

  create-on_created :
      (w : Surroundings F) (txn mode : String) (max_steps : ℕ) (initial : InvestigationState F)
      (s : Session F)
      → is_investigated (
          on_created fl loads registry persist w initial s
            (create w.new_id txn mode (fl.pct 0) max_steps s.working))
        ≡ not (some_row (taken w.new_id txn) s.working.investigations)
  unfolding create investigate finish
  create-on_created w txn mode max_steps initial s =
      elim (Bool-cases (some_row (taken w.new_id txn) s.working.investigations)) [
        | inl e ↦ rw e refl
        | inr e ↦ rw e refl
      ]

  admission :
      (settings : Settings) (w : Surroundings F) (txn mode : String)
      (initial : InvestigationState F) (s : Session F) (o : Option (Row F))
      → get_active_for_transaction txn s.working ≡ o
      → some_row (λ r. r.id == w.new_id) s.working.investigations ≡ false
      → count_rows (is_active_for txn) s.working.investigations ≤ 1
      → is_investigated (
          on_admitted fl loads registry persist settings w txn mode initial s (on_existing txn o s))
        ≡ not (some_row (hinders s.working txn) s.working.investigations)
  admission settings w txn mode initial s none e fresh few =
      create-on_created w txn mode settings.max_steps initial s
      ∙ ap not (some_row-none s.working w.new_id txn s.working.investigations fresh e)
  admission settings w txn mode initial s (some row) e fresh few =
      elim (Bool-cases (is_stale s.working row)) [
        | inl stale ↦
            let (free, clear) =
              stale-free s.working w.new_id txn s.working.investigations row fresh few e stale in
            rw (existing-stale txn row s stale, clear)
              (create-on_created w txn mode settings.max_steps initial
                  (commit (execute (update_status row.id "FAILED") s))
                ∙ ap not free)
        | inr held ↦
            let rows = s.working.investigations in
            let running = (first_row-holds (is_running_for txn) (λ x. true) rows row e refl).0 in
            rw
              (
                existing-held txn row s held (running_status txn row running),
                (first_row-holds (is_running_for txn) (hinders s.working txn) rows row e
                    (rw held (and_unless _ (active_of_running txn row running)))).1,
              )
              refl
      ]

  -- When at most one investigation of the transaction is active and the new id is not used, a
  -- request is carried out exactly if no investigation of the transaction is PENDING, and none is
  -- IN_PROGRESS that has a stored state (or an empty id): an abandoned PENDING one blocks every
  -- further request, while one that is IN_PROGRESS without a state does not.
  pub run_investigation-admission :
      (settings : Settings) (w : Surroundings F) (txn mode : String)
      (case_id scenario : Option String) (s : Session F)
      → some_row (λ r. r.id == w.new_id) s.working.investigations ≡ false
      → count_rows (is_active_for txn) s.working.investigations ≤ 1
      → is_investigated
          (run_investigation fl loads registry persist settings w txn mode case_id scenario s)
        ≡ not (some_row (hinders s.working txn) s.working.investigations)
  unfolding run_investigation admit
  run_investigation-admission settings w txn mode case_id scenario s fresh few =
      admission settings w txn mode
        (initial_state fl loads registry persist settings w txn case_id scenario) s
        (get_active_for_transaction txn s.working) refl fresh few
