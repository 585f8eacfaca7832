-- ===== src/Service/Store.antt =====
-- The tables behind app/services/investigation_service.py, with the statements of
-- app/persistence/investigation_repository.py, app/persistence/state_store.py and
-- app/persistence/audit_repository.py, and the unique index that
-- db/migrations/005_add_missing_constraints_and_indexes.sql puts on the active investigations.
-- Time stamps, the planner's model and the constant priority are left out.
use card_fraud_ops_analyst_a.Prelude.{
  ℕ, String, Bool, false, Option, none, some, List, [], ◌∷◌, ◌++◌, ◌==◌, ◌&&◌, ◌||◌, if◌then◌else◌,
}
use card_fraud_ops_analyst_a.Value.{Value, Fields}
use card_fraud_ops_analyst_a.Agent.State.{InvestigationState, ToolExecution}

-- A row of `ops_agent_investigations`.
pub record Row (F : Type 0) : Type 0 where
  pub id : String
  pub transaction_id : String
  pub mode : String
  pub status : String
  pub severity : String
  pub final_confidence : F
  pub step_count : ℕ
  pub max_steps : ℕ

pub record AuditEntry : Type 0 where
  pub entity_id : String
  pub action : String
  pub new_status : String

-- The calls of the other repositories that `_persist_results` makes, with their arguments.
pub data Write (F : Type 0) : Type 0 where
  log_execution : String → ℕ → ToolExecution → Write F
  upsert_insight : String → String → String → String → Write F
  add_evidence : String → String → Fields F → Write F
  upsert_recommendation : String → String → Value F → String → Value F → Value F → String → Write F
  create_draft : String → List (Value F) → Write F

pub record Tables (F : Type 0) : Type 0 where
  pub investigations : List (Row F)
  pub states : List (String × InvestigationState F)
  pub audit : List AuditEntry
  pub results : List (Write F)

-- A session: what its transaction sees, and what is committed.
pub record Session (F : Type 0) : Type 0 where
  pub working : Tables F
  pub committed : Tables F

abbrev pub is_active : String → Bool
is_active status = status == "IN_PROGRESS" || status == "PENDING"

module _ {F : Type 0} where
  -- the rows that the index `uq_investigations_active_transaction` covers
  abbrev pub is_active_for : String → Row F → Bool
  is_active_for txn r = r.transaction_id == txn && is_active r.status

  abbrev pub is_running_for : String → Row F → Bool
  is_running_for txn r = r.transaction_id == txn && r.status == "IN_PROGRESS"

  unfoldable pub some_row : (Row F → Bool) → List (Row F) → Bool
  some_row test [] = false
  some_row test (r ∷ rs) = test r || some_row test rs

  unfoldable pub first_row : (Row F → Bool) → List (Row F) → Option (Row F)
  first_row test [] = none
  first_row test (r ∷ rs) = if test r then some r else first_row test rs

  -- `create`, `none` for the IntegrityError of the primary key or of the index
  unfoldable pub create : String → String → String → F → ℕ → Tables F → Option (Tables F)
  create id txn mode zero_score max_steps t =
      if some_row (λ r. r.id == id || is_active_for txn r) t.investigations
      then none
      else some (record t {
        investigations =
            t.investigations
            ++ record {
              id = id;
              transaction_id = txn;
              mode = mode;
              status = "PENDING";
              severity = "LOW";
              final_confidence = zero_score;
              step_count = 0;
              max_steps = max_steps;
            }
              ∷ [];
      })

  -- `UPDATE … WHERE id = :id`
  unfoldable pub update_rows : String → (Row F → Row F) → List (Row F) → List (Row F)
  update_rows id f [] = []
  update_rows id f (r ∷ rs) = (if r.id == id then f r else r) ∷ update_rows id f rs

  abbrev pub with_status : String → Row F → Row F
  with_status status r = record r { status = status }

  -- `update_status`
  abbrev pub update_status : String → String → Tables F → Tables F
  update_status id status t = record t {
    investigations = update_rows id (with_status status) t.investigations;
  }

  abbrev pub with_result : InvestigationState F → Row F → Row F
  with_result result r = record r {
    status = result.status;
    severity = result.severity;
    final_confidence = result.confidence_score;
    step_count = result.step_count;
  }

  -- `complete`
  abbrev pub complete : String → InvestigationState F → Tables F → Tables F
  complete id result t = record t {
    investigations = update_rows id (with_result result) t.investigations;
  }

  -- `get`
  abbrev pub get_row : String → Tables F → Option (Row F)
  get_row id t = first_row (λ r. r.id == id) t.investigations

  -- `get_active_for_transaction`
  abbrev pub get_active_for_transaction : String → Tables F → Option (Row F)
  get_active_for_transaction txn t = first_row (is_running_for txn) t.investigations

  unfoldable pub put_state :
      String
      → InvestigationState F
      → List (String × InvestigationState F)
      → List (String × InvestigationState F)
  put_state id state [] = (id, state) ∷ []
  put_state id state ((j, old) ∷ rest) =
      if j == id then (j, state) ∷ rest else (j, old) ∷ put_state id state rest

  unfoldable pub state_of :
      String → List (String × InvestigationState F) → Option (InvestigationState F)
  state_of id [] = none
  state_of id ((j, state) ∷ rest) = if j == id then some state else state_of id rest

  -- `save_state`
  abbrev pub save_state : String → InvestigationState F → Tables F → Tables F
  save_state id state t = record t { states = put_state id state t.states }

  -- `load_state`
  abbrev pub load_state : String → Tables F → Option (InvestigationState F)
  load_state id t = state_of id t.states

  -- `emit`
  abbrev pub emit : String → String → String → Tables F → Tables F
  emit id action status t = record t {
    audit = t.audit ++ record { entity_id = id; action = action; new_status = status } ∷ [];
  }

  abbrev pub commit : Session F → Session F
  commit s = record { working = s.working; committed = s.working }

  abbrev pub rollback : Session F → Session F
  rollback s = record { working = s.committed; committed = s.committed }

  -- a statement within the transaction
  abbrev pub execute : (Tables F → Tables F) → Session F → Session F
  execute statement s = record { working = statement s.working; committed = s.committed }
