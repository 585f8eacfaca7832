-- ===== src/Service/Closed.antt =====
-- How app/services/investigation_service.py begins and closes the row of an investigation.
use mathlib.Core.Option
use card_fraud_ops_analyst_a.Prelude.{
  ℕ, ◌≡◌, String, Bool, true, false, Option, none, some, List, [], ◌∷◌, ◌==◌, ◌||◌, ◌&&◌, refl, sym,
  ap, ◌∙◌, Bool-cases, inl, inr, is_some, eq_iff, some_inj, none_ne_some,
}
use card_fraud_ops_analyst_a.Agent.State.{InvestigationState}
use card_fraud_ops_analyst_a.Service.Store.{
  Row, Tables, Session, create, some_row, update_rows, with_status, with_result, get_row, is_active,
  is_active_for, commit, rollback, execute, save_state, emit,
}
use card_fraud_ops_analyst_a.Service.Rows.{get-update, get-append}
use card_fraud_ops_analyst_a.Service.Run.{
  Surroundings, Response, store_all, try_save, save_failure, complete_investigation, begin,
}
use card_fraud_ops_analyst_a.Service.Final.{is_final}

is_some-map : {A B : Type 0} (f : A → B) (o : Option A) → is_some (Option.map f o) ≡ is_some o
is_some-map f none = refl
is_some-map f (some a) = refl

some_of : {A : Type 0} (o : Option A) → is_some o ≡ true → (a : A) × (o ≡ some a)
some_of none h = cc
some_of (some a) h = (a, refl)

pub final-inactive : (status : String) → is_final status ≡ true → is_active status ≡ false
final-inactive status h = elim (Bool-cases (status == "COMPLETED")) [
  | inl e ↦ rw ((eq_iff status "COMPLETED").0 e) refl
  | inr e ↦ elim (Bool-cases (status == "FAILED")) [
    | inl k ↦ rw ((eq_iff status "FAILED").0 k) refl
    | inr k ↦ rw ((eq_iff status "TIMED_OUT").0 (rw (e, k) at h)) refl
  ]
]

module _ {F : Type 0} where
  abbrev pub has_row : String → Tables F → Bool
  has_row id t = is_some (get_row id t)

  -- the tables that a request leaves
  abbrev pub committed_by : Response F × Session F → Tables F
  committed_by (response, s) = s.committed

  -- the investigation is there, committed and within the transaction
  pub record IsStored (id : String) (s : Session F) : Type 0 where
    pub here : has_row id s.working ≡ true
    pub durable : has_row id s.committed ≡ true

  -- The result is in the row; FAILED is, where `complete` has raised twice.
  abbrev pub HasOutcome : Bool → InvestigationState F → Row F → Type 0
  HasOutcome true state row = row.status ≡ "FAILED"
  HasOutcome false state row =
      (row.status ≡ state.status)
      × (row.severity ≡ state.severity)
      × (row.final_confidence ≡ state.confidence_score)
      × (row.step_count ≡ state.step_count)

  abbrev pub is_lost : Surroundings F → Bool
  is_lost w = w.first_fails && w.second_fails

  abbrev IsStoredAs : Bool → String → InvestigationState F → Tables F → Type 0
  IsStoredAs lost id state t =
      (row : Row F) × (get_row id t ≡ some row)
      × HasOutcome lost state row
      × (is_active row.status ≡ false)

  -- how the investigation is stored in the end
  abbrev pub IsClosed : Surroundings F → String → InvestigationState F → Tables F → Type 0
  IsClosed w = IsStoredAs (is_lost w)

  status-has_row :
      (id status : String) (t : Tables F)
      → has_row id t ≡ true
      → is_some (
          get_row id
            (record t { investigations = update_rows id (with_status status) t.investigations }))
        ≡ true
  status-has_row id status t h =
      rw (get-update id (with_status status) t.investigations (λ r. refl))
        (is_some-map (with_status status) (get_row id t) ∙ h)

  pub created-has_row :
      (id txn mode : String) (zero_score : F) (max_steps : ℕ) (t after : Tables F)
      → create id txn mode zero_score max_steps t ≡ some after
      → has_row id after ≡ true
  unfolding create
  created-has_row id txn mode zero_score max_steps t after h =
      elim (Bool-cases (some_row (λ r. r.id == id || is_active_for txn r) t.investigations)) [
        | inl e ↦ absurd (none_ne_some (rw e at h))
        | inr e ↦
            ap (has_row id) (sym (some_inj _ after (rw e at h)))
            ∙ get-append id _ t.investigations ((eq_iff id id).1 refl)
      ]

  pub store_all-IsStored :
      (w : Surroundings F) (id own : String) (saves : List (InvestigationState F)) (s : Session F)
      → IsStored own s
      → IsStored own (store_all w id saves s)
  store_all-IsStored w id own [] s h = h
  store_all-IsStored w id own (x ∷ xs) s h = elim (Bool-cases (w.storable x)) [
    | inl e ↦ rw e (
        store_all-IsStored w id own xs (execute (save_state id x) s)
          (record { here = h.here; durable = h.durable }))
    | inr e ↦ rw e (
        store_all-IsStored w id own xs (rollback s)
          (record { here = h.durable; durable = h.durable }))
  ]

  try_save-IsStored :
      (w : Surroundings F) (id own : String) (state : InvestigationState F) (s : Session F)
      → IsStored own s
      → IsStored own (try_save w id state s)
  try_save-IsStored w id own state s h = elim (Bool-cases (w.storable state)) [
    | inl e ↦ rw e (record { here = h.here; durable = h.here })
    | inr e ↦ rw e h
  ]

  pub save_failure-IsStored :
      (w : Surroundings F) (id own : String) (state : InvestigationState F) (s : Session F)
      → IsStored own s
      → IsStored own (save_failure w id state s)
  save_failure-IsStored w id own state s h =
      elim (Bool-cases (state.status == "FAILED" || state.status == "TIMED_OUT")) [
        | inl e ↦ rw e (try_save-IsStored w id own state s h)
        | inr e ↦ rw e h
      ]

  pub begin-IsStored :
      (w : Surroundings F) (id : String) (initial : InvestigationState F) (s : Session F)
      → has_row id s.working ≡ true
      → IsStored id (begin w id initial s)
  unfolding begin
  begin-IsStored w id initial s h =
      let created = execute (emit id "CREATED" "") (commit s) in
      let saved = try_save-IsStored w id id initial created (record { here = h; durable = h }) in
      let marked =
        status-has_row id "IN_PROGRESS" (try_save w id initial created).working saved.here in
      record { here = marked; durable = marked }

  complete-IsStoredAs :
      (id : String) (state : InvestigationState F) (t : Tables F)
      → has_row id t ≡ true
      → is_final state.status ≡ true
      → IsStoredAs false id state
          (record t { investigations = update_rows id (with_result state) t.investigations })
  complete-IsStoredAs id state t h final =
      let (row, found) = some_of (get_row id t) h in
      (
        with_result state row,
        get-update id (with_result state) t.investigations (λ r. refl)
            ∙ ap (Option.map (with_result state)) found,
        (refl, refl, refl, refl),
        final-inactive state.status final,
      )

  failed-IsStoredAs :
      (id : String) (state : InvestigationState F) (t : Tables F)
      → has_row id t ≡ true
      → IsStoredAs true id state
          (record t { investigations = update_rows id (with_status "FAILED") t.investigations })
  failed-IsStoredAs id state t h =
      let (row, found) = some_of (get_row id t) h in
      (
        with_status "FAILED" row,
        get-update id (with_status "FAILED") t.investigations (λ r. refl)
            ∙ ap (Option.map (with_status "FAILED")) found,
        refl,
        refl,
      )

  pub complete_investigation-IsClosed :
      (w : Surroundings F) (id : String) (state : InvestigationState F) (s : Session F)
      → IsStored id s
      → is_final state.status ≡ true
      → IsClosed w id state (complete_investigation w id state s).working
  unfolding complete_investigation
  complete_investigation-IsClosed w id state s h final = elim (Bool-cases w.first_fails) [
    | inl e ↦ elim (Bool-cases w.second_fails) [
      | inl k ↦ rw (e, k) (failed-IsStoredAs id state s.committed h.durable)
      | inr k ↦ rw (e, k) (complete-IsStoredAs id state s.committed h.durable final)
    ]
    | inr e ↦ rw e (complete-IsStoredAs id state s.working h.here final)
  ]
