-- ===== src/Service/Exclusive.antt =====
-- At most one investigation of a transaction is active: what the index
-- `uq_investigations_active_transaction` asks for, through app/services/investigation_service.py.
use card_fraud_ops_analyst_a.Prelude.{
  ℕ, ◌≡◌, ◌≤◌, String, true, false, Option, none, some, List, [], ◌∷◌, ◌==◌, ◌||◌, refl, ap, arith,
  Bool-cases, Option-cases, inl, inr, some_inj, none_ne_some,
}
use card_fraud_ops_analyst_a.Value.{Value}
use card_fraud_ops_analyst_a.Floats.{Floats}
use card_fraud_ops_analyst_a.Agent.State.{InvestigationState, ToolRegistry}
use card_fraud_ops_analyst_a.Service.Store.{
  Row, Tables, Session, Write, some_row, update_rows, with_status, with_result, is_active,
  is_active_for, load_state, save_state, create, get_active_for_transaction, rollback, execute,
  emit, update_status,
}
use card_fraud_ops_analyst_a.Service.Hindering.{count_rows}
use card_fraud_ops_analyst_a.Service.Counts.{
  count-closed, count-started, count-created, created-lapsed, lapsed,
}
use card_fraud_ops_analyst_a.Service.Final.{is_final, run_result-final, resume_result-final}
use card_fraud_ops_analyst_a.Service.Closed.{final-inactive}
use card_fraud_ops_analyst_a.Service.Run.{
  Settings, Surroundings, Response, Admission, admitted, rejected, admit, on_existing, on_created,
  on_admitted, run_investigation, initial_state, investigate, finish, begin, store_all,
  save_failure, complete_investigation, graph_saves, ainvoke, run_result, resume_result, on_loaded,
  resume_investigation, with_trace,
}

le_one : {m n : ℕ} → m ≤ n → n ≤ 1 → m ≤ 1
le_one h k = omega arith

module _ {F : Type 0} where
  unfoldable pub IsExclusive : Tables F → Type 0
  IsExclusive t = (txn : String) → count_rows (is_active_for txn) t.investigations ≤ 1

  -- of a session: within the transaction and committed
  pub record IsGuarded (s : Session F) : Type 0 where
    pub here : IsExclusive s.working
    pub durable : IsExclusive s.committed

  closed-IsExclusive :
      (id : String) (f : Row F → Row F) (t : Tables F)
      → ((r : Row F) → is_active (f r).status ≡ false)
      → IsExclusive t
      → IsExclusive (record t { investigations = update_rows id f t.investigations })
  unfolding IsExclusive
  closed-IsExclusive id f t closed h txn =
      le_one (count-closed txn id f t.investigations closed) (h txn)

  failed-IsExclusive :
      (id : String) (t : Tables F) → IsExclusive t → IsExclusive (update_status id "FAILED" t)
  failed-IsExclusive id t h = closed-IsExclusive id (with_status "FAILED") t (λ r. refl) h

  result-IsExclusive :
      (id : String) (state : InvestigationState F) (t : Tables F)
      → is_final state.status ≡ true
      → IsExclusive t
      → IsExclusive
          (record t { investigations = update_rows id (with_result state) t.investigations })
  result-IsExclusive id state t final h =
      closed-IsExclusive id (with_result state) t (λ r. final-inactive state.status final) h

  store_all-IsGuarded :
      (w : Surroundings F) (id : String) (saves : List (InvestigationState F)) (s : Session F)
      → IsGuarded s
      → IsGuarded (store_all w id saves s)
  unfolding IsExclusive
  store_all-IsGuarded w id [] s h = h
  store_all-IsGuarded w id (x ∷ xs) s h = elim (Bool-cases (w.storable x)) [
    | inl e ↦ rw e (
        store_all-IsGuarded w id xs (execute (save_state id x) s)
          (record { here = h.here; durable = h.durable }))
    | inr e ↦ rw e (
        store_all-IsGuarded w id xs (rollback s) (record { here = h.durable; durable = h.durable }))
  ]

  save_failure-IsGuarded :
      (w : Surroundings F) (id : String) (state : InvestigationState F) (s : Session F)
      → IsGuarded s
      → IsGuarded (save_failure w id state s)
  unfolding IsExclusive
  save_failure-IsGuarded w id state s h =
      elim (Bool-cases (state.status == "FAILED" || state.status == "TIMED_OUT")) [
        | inl e ↦ elim (Bool-cases (w.storable state)) [
          | inl k ↦ rw (e, k) (record { here = h.here; durable = h.here })
          | inr k ↦ rw (e, k) h
        ]
        | inr e ↦ rw e h
      ]

  complete_investigation-IsGuarded :
      (w : Surroundings F) (id : String) (state : InvestigationState F) (s : Session F)
      → is_final state.status ≡ true
      → IsGuarded s
      → IsGuarded (complete_investigation w id state s)
  unfolding complete_investigation
  complete_investigation-IsGuarded w id state s final h = elim (Bool-cases w.first_fails) [
    | inl e ↦ elim (Bool-cases w.second_fails) [
      | inl k ↦
          let kept = failed-IsExclusive id s.committed h.durable in
          rw (e, k) (record { here = kept; durable = kept })
      | inr k ↦
          let kept = result-IsExclusive id state s.committed final h.durable in
          rw (e, k) (record { here = kept; durable = kept })
    ]
    | inr e ↦
        let kept = result-IsExclusive id state s.working final h.here in
        rw e (record { here = kept; durable = kept })
  ]

  -- a new investigation's tables, before the graph starts
  record IsFresh (id : String) (t : Tables F) : Type 0 where
    exclusive : IsExclusive t
    startable : some_row (lapsed id) t.investigations ≡ false

  create-IsFresh :
      (id txn mode : String) (zero_score : F) (max_steps : ℕ) (t after : Tables F)
      → create id txn mode zero_score max_steps t ≡ some after
      → IsExclusive t
      → IsFresh id after
  unfolding create IsExclusive
  create-IsFresh id txn mode zero_score max_steps t after h guarded =
      elim (Bool-cases (some_row (λ r. r.id == id || is_active_for txn r) t.investigations)) [
        | inl e ↦ absurd (none_ne_some (rw e at h))
        | inr e ↦
            let same = ap (λ (u : Tables F). u.investigations) (some_inj _ after (rw e at h)) in
            record {
              exclusive = λ other.
                  rw (← same) (count-created txn other _ t.investigations refl e (guarded other));
              startable = rw (← same) (created-lapsed txn _ t.investigations refl e);
            }
      ]

  started-IsExclusive :
      (id : String) (t : Tables F) → IsFresh id t → IsExclusive (update_status id "IN_PROGRESS" t)
  unfolding IsExclusive
  started-IsExclusive id t fresh txn =
      rw (count-started txn id t.investigations fresh.startable) (fresh.exclusive txn)

  begin-IsGuarded :
      (w : Surroundings F) (id : String) (initial : InvestigationState F) (s : Session F)
      → IsFresh id s.working
      → IsGuarded (begin w id initial s)
  unfolding begin IsExclusive
  begin-IsGuarded w id initial s fresh =
      let started = started-IsExclusive id s.working fresh in
      elim (Bool-cases (w.storable initial)) [
        | inl e ↦ rw e (record { here = started; durable = started })
        | inr e ↦ rw e (record { here = started; durable = started })
      ]

  admit-IsGuarded :
      (txn : String) (o : Option (Row F)) (s after : Session F)
      → on_existing txn o s ≡ admitted after
      → IsGuarded s
      → IsGuarded after
  admit-IsGuarded txn none s after h guarded = rw (← admitted_inj s after h) guarded
    where
      admitted_inj : (a b : Session F) → admitted a ≡ admitted b → a ≡ b
      admitted_inj a b h = cc
  admit-IsGuarded txn (some row) s after h guarded = elim (Bool-cases (row.id == "")) [
    | inl e ↦ absurd (rejected_ne (rw e at h))
    | inr e ↦ elim (Option-cases (load_state row.id s.working)) [
      | inl k ↦
          let kept = failed-IsExclusive row.id s.working guarded.here in
          rw (← admitted_inj _ after (rw (e, k) at h)) (record { here = kept; durable = kept })
      | inr (x, k) ↦ absurd (rejected_ne (rw (e, k) at h))
    ]
  ]
    where
      rejected_ne : {other : String} {a : Session F} → rejected other ≡ admitted a → ⊥
      rejected_ne h = cc

      admitted_inj : (a b : Session F) → admitted a ≡ admitted b → a ≡ b
      admitted_inj a b h = cc

module _ {F : Type 0} (fl : Floats F) (loads : String → Option (Value F))
    (registry : ToolRegistry F) (persist : InvestigationState F → List (Write F)) where
  -- the session that a request leaves
  abbrev pub session_of : Response F × Session F → Session F
  session_of (response, s) = s

  finish-IsGuarded :
      (id : String) (state : InvestigationState F) (s : Session F)
      → IsGuarded s
      → IsGuarded (finish persist id state s).1
  unfolding finish IsExclusive
  finish-IsGuarded id state s h = record { here = h.here; durable = h.here }

  investigate-IsGuarded :
      (w : Surroundings F) (initial : InvestigationState F) (s : Session F)
      → IsGuarded s
      → IsGuarded (investigate fl loads registry persist w initial s).1
  unfolding investigate
  investigate-IsGuarded w initial s h =
      let saves = graph_saves fl loads registry w initial in
      let s1 = store_all w w.new_id saves s in
      let state = run_result w initial s1 (ainvoke fl loads registry w initial) in
      finish-IsGuarded w.new_id state _ (
        complete_investigation-IsGuarded w w.new_id state (save_failure w w.new_id state s1)
          (run_result-final fl loads registry w initial initial s1)
          (save_failure-IsGuarded w w.new_id state s1 (store_all-IsGuarded w w.new_id saves s h)))

  on_created-IsGuarded :
      (w : Surroundings F) (txn mode : String) (max_steps : ℕ) (initial : InvestigationState F)
      (s : Session F) (o : Option (Tables F))
      → create w.new_id txn mode (fl.pct 0) max_steps s.working ≡ o
      → IsGuarded s
      → IsGuarded (on_created fl loads registry persist w initial s o).1
  on_created-IsGuarded w txn mode max_steps initial s none made h = record {
    here = h.durable;
    durable = h.durable;
  }
  on_created-IsGuarded w txn mode max_steps initial s (some after) made h =
      investigate-IsGuarded w initial (begin w w.new_id initial (execute (λ t. after) s)) (
        begin-IsGuarded w w.new_id initial (execute (λ t. after) s)
          (create-IsFresh w.new_id txn mode (fl.pct 0) max_steps s.working after made h.here))

  on_admitted-IsGuarded :
      (settings : Settings) (w : Surroundings F) (txn mode : String)
      (initial : InvestigationState F) (s : Session F) (a : Admission F)
      → on_existing txn (get_active_for_transaction txn s.working) s ≡ a
      → IsGuarded s
      → IsGuarded (on_admitted fl loads registry persist settings w txn mode initial s a).1
  on_admitted-IsGuarded settings w txn mode initial s (rejected other) e h = h
  on_admitted-IsGuarded settings w txn mode initial s (admitted s1) e h =
      on_created-IsGuarded w txn mode settings.max_steps initial s1 _ refl
        (admit-IsGuarded txn (get_active_for_transaction txn s.working) s s1 e h)

  -- A request for an investigation, whatever becomes of it, and a resumption of one keep at most
  -- one investigation of every transaction active, in what the transaction sees and in what is
  -- committed.
  pub requests-IsGuarded :
      (settings : Settings) (w : Surroundings F) (txn mode id : String)
      (case_id scenario : Option String) (s : Session F)
      → IsGuarded s
      → IsGuarded (
          session_of
            (run_investigation fl loads registry persist settings w txn mode case_id scenario s))
        × IsGuarded (session_of (resume_investigation fl loads registry persist w id s))
  unfolding run_investigation admit resume_investigation IsExclusive
  requests-IsGuarded settings w txn mode id case_id scenario s h = (
    on_admitted-IsGuarded settings w txn mode
        (initial_state fl loads registry persist settings w txn case_id scenario) s _ refl h,
    on_loaded-IsGuarded (load_state id s.working),
  )
    where
      on_loaded-IsGuarded :
          (o : Option (InvestigationState F))
          → IsGuarded (on_loaded fl loads registry persist w id s o).1
      on_loaded-IsGuarded none = h
      on_loaded-IsGuarded (some state) =
          let traced = with_trace w.trace_id state in
          let saves = graph_saves fl loads registry w traced in
          let s1 = execute (emit id "RESUMED" "IN_PROGRESS") s in
          let reached = resume_result w traced (ainvoke fl loads registry w traced) in
          finish-IsGuarded id reached _ (
            complete_investigation-IsGuarded w id reached (store_all w id saves s1)
              (resume_result-final fl loads registry w traced)
              (store_all-IsGuarded w id saves s1 (record { here = h.here; durable = h.durable })))
