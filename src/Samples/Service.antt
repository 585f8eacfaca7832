-- ===== src/Samples/Service.antt =====
-- The theorems on the investigation service (app/services/investigation_service.py) at concrete
-- tables.
use card_fraud_ops_analyst_a.Prelude.{
  ℕ, ◌≤◌, ◌≡◌, String, Bool, true, false, none, some, List, [], ◌∷◌, ◌==◌, not, refl, arith,
  if◌then◌else◌, ◌&&◌, Bool-cases, inl, inr, eq_iff,
}
use card_fraud_ops_analyst_a.Value.{str, obj, nil, cons, field, end}
use card_fraud_ops_analyst_a.Agent.State.{InvestigationState, returned}
use card_fraud_ops_analyst_a.Service.Store.{
  Row, Tables, Session, Write, some_row, first_row, update_rows, create, state_of, load_state,
  is_active_for,
}
use card_fraud_ops_analyst_a.Service.Results.{persist_results}
use card_fraud_ops_analyst_a.Service.Run.{
  Settings, Surroundings, Response, investigated, run_investigation, resume_investigation, admit,
  investigate, finish,
}
use card_fraud_ops_analyst_a.Service.Closed.{IsClosed, committed_by}
use card_fraud_ops_analyst_a.Service.Finished.{run_investigation-IsClosed}
use card_fraud_ops_analyst_a.Service.Hindering.{count_rows, hinders, failed-quiet}
use card_fraud_ops_analyst_a.Service.Admission.{is_investigated, run_investigation-admission}
use card_fraud_ops_analyst_a.Service.Exclusive.{
  IsExclusive, IsGuarded, session_of, requests-IsGuarded,
}
use card_fraud_ops_analyst_a.Service.Stored.{AllWritten, persist_results-AllWritten}
use card_fraud_ops_analyst_a.Service.StaysFailed.{
  KeepStatus, is_failure, resume_investigation-StaysFailed,
}
use card_fraud_ops_analyst_a.Tools.PatternTool.{pattern_tool}
use card_fraud_ops_analyst_a.Tools.PatternTool.Effect.{execute-status}
use card_fraud_ops_analyst_a.Samples.{
  hundredths, loads, registry, env, ready, no_time, scoring, describe, thresholds, the_tool,
  found_tool,
}

abbrev row : String → String → String → Row ℕ
row id txn status = record {
  id = id;
  transaction_id = txn;
  mode = "FULL";
  status = status;
  severity = "LOW";
  final_confidence = 0;
  step_count = 0;
  max_steps = 5;
}

abbrev failed : InvestigationState ℕ
failed = record ready { status = "FAILED" }

-- an investigation that failed, an abandoned one, and one whose state was never stored
abbrev tables : Tables ℕ
tables = record {
  investigations =
      row "i1" "t1" "FAILED" ∷ row "i2" "t2" "PENDING" ∷ row "i3" "t3" "IN_PROGRESS" ∷ [];
  states = ("i1", failed) ∷ [];
  audit = [];
  results = [];
}

abbrev session : Session ℕ
session = record { working = tables; committed = tables }

abbrev settings : Settings
settings = record { max_steps = 5; feature_flags = []; safeguards = [] }

abbrev around : Surroundings ℕ
around = record {
  new_id = "i4";
  trace_id = none;
  now = "t";
  graph_env = env;
  supersteps = 12;
  times_out = true;
  exception = "down";
  storable = λ s. true;
  first_fails = true;
  second_fails = false;
}

abbrev persist : InvestigationState ℕ → List (Write ℕ)
persist = persist_results hundredths (λ s. s) (λ s. s) (λ n. "pieces") (λ s. s) (λ w. false)

-- a request for the transaction `txn`
abbrev asked : String → Response ℕ × Session ℕ
asked txn =
    run_investigation hundredths loads registry persist settings around txn "FULL" none none session

abbrev answer : Response ℕ → InvestigationState ℕ
answer (investigated s) = s
answer _ = ready

asked-investigated : (asked "t3").0 ≡ investigated (answer (asked "t3").0)
unfolding run_investigation admit create some_row first_row state_of investigate finish update_rows
asked-investigated = refl

run_investigation-IsClosed_example :
    IsClosed around "i4" (answer (asked "t3").0) (committed_by (asked "t3"))
run_investigation-IsClosed_example =
    run_investigation-IsClosed hundredths loads registry persist settings around "t3" "FULL" none
      none session (answer (asked "t3").0) asked-investigated

abbrev resumed : Response ℕ × Session ℕ
resumed = resume_investigation hundredths loads registry persist around "i1" session

few : count_rows (is_active_for "t2") tables.investigations ≤ 1
unfolding count_rows
few = omega arith

unused : some_row (λ r. r.id == "i4") tables.investigations ≡ false
unfolding some_row
unused = refl

run_investigation-admission_example :
    is_investigated hundredths loads registry persist (asked "t2")
    ≡ not (some_row (hinders tables "t2") tables.investigations)
run_investigation-admission_example =
    run_investigation-admission hundredths loads registry persist settings around "t2" "FULL" none
      none session unused few

tables-IsExclusive : IsExclusive tables
unfolding IsExclusive count_rows
tables-IsExclusive txn = elim (Bool-cases ("t2" == txn)) [
  | inl e ↦ rw (← (eq_iff "t2" txn).0 e) (omega arith)
  | inr e ↦ rw (e, failed-quiet ("t1" == txn)) (at_most_one ("t3" == txn))
]
  where
    at_most_one : (b : Bool) → (if (b && true) then 1 else 0) ≤ 1
    at_most_one true = omega arith
    at_most_one false = omega arith

requests-IsGuarded_example :
    IsGuarded (session_of hundredths loads registry persist (asked "t3"))
    × IsGuarded (session_of hundredths loads registry persist resumed)
requests-IsGuarded_example =
    requests-IsGuarded hundredths loads registry persist settings around "t3" "FULL" "i1" none none
      session (record { here = tables-IsExclusive; durable = tables-IsExclusive })

the_tool-status :
    (call : ℕ) (s t : InvestigationState ℕ)
    → the_tool.execute call s ≡ returned t
    → t.status ≡ s.status
unfolding pattern_tool
the_tool-status call s t e =
    execute-status hundredths loads no_time no_time (λ c. scoring) describe thresholds s t e

registry-KeepStatus : KeepStatus registry
registry-KeepStatus = record {
  keeps =
      λ name tool call s t found e. the_tool-status call s t (rw (found_tool name tool found) at e);
}

failed-stored : load_state "i1" tables ≡ some failed
unfolding state_of
failed-stored = refl

resume_investigation-StaysFailed_example :
    (final : InvestigationState ℕ) × (resumed.0 ≡ investigated final)
    × (is_failure final.status ≡ true)
resume_investigation-StaysFailed_example =
    resume_investigation-StaysFailed hundredths loads registry persist around "i1" session failed
      registry-KeepStatus failed-stored refl

abbrev reported : InvestigationState ℕ
reported = record ready {
  recommendations = cons (obj (field "type" (str "CASE_ACTION") end)) (cons (str "odd") nil);
  tool_executions =
      record {
        tool_name = "pattern_tool";
        execution_time_ms = 5;
        status = "SUCCESS";
        error_message = none;
        timestamp = "t";
      }
      ∷ [];
}

persist_results-AllWritten_example : AllWritten "inv-1" 1 (persist reported)
persist_results-AllWritten_example =
    persist_results-AllWritten hundredths (λ s. s) (λ s. s) (λ n. "pieces") (λ s. s) (λ w. false)
      reported
