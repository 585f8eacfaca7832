-- ===== src/Service/Stored.antt =====
-- What the writes of `_persist_results` of app/services/investigation_service.py have in common.
use card_fraud_ops_analyst_a.Prelude.{
  ℕ, suc, ◌+◌, ◌≤◌, ◌≡◌, String, Bool, true, false, Option, none, some, List, [], ◌∷◌, ◌++◌, refl,
  arith, Bool-cases, inl, inr, contains, length, if◌then◌else◌,
}
use card_fraud_ops_analyst_a.Value.{
  Value, null, bool, num, str, arr, obj, items, Fields, end, field,
}
use card_fraud_ops_analyst_a.Floats.{Floats}
use card_fraud_ops_analyst_a.Agent.State.{InvestigationState, ToolExecution}
use card_fraud_ops_analyst_a.Service.Store.{
  Write, log_execution, upsert_insight, add_evidence, upsert_recommendation, create_draft,
}
use card_fraud_ops_analyst_a.Service.Results.{
  stored_types, stored_type, legacy_type, normalize_evidence_item, attempt, tool_writes,
  evidence_write, evidence_writes, insight_writes, has_insight, build_insight_summary,
  compute_insight_key, recommendation_write, recommendation_writes, draft_writes, persist_results,
}

pub stored_type-valid : (t : String) → contains (stored_type t) stored_types ≡ true
unfolding stored_type contains
stored_type-valid t = elim (Bool-cases (contains (legacy_type t) stored_types)) [
  | inl e ↦ rw (e, e) refl
  | inr e ↦ rw e refl
]

module _ {F : Type 0} where
  -- A write for the investigation `inv` with `n` tool executions: a log entry is for it and is
  -- numbered from 1 to `n`, a recommendation is for it and of one of the three types.
  abbrev pub IsWritten : String → ℕ → Write F → Type 0
  IsWritten inv n (log_execution i k x) = (i ≡ inv) × (1 ≤ k) × (k ≤ n)
  IsWritten inv n (upsert_insight _ _ _ _) = Unit
  IsWritten inv n (add_evidence _ _ _) = Unit
  IsWritten inv n (upsert_recommendation _ t _ _ _ _ i) =
      (i ≡ inv) × (contains t stored_types ≡ true)
  IsWritten inv n (create_draft i _) = i ≡ inv

  unfoldable pub AllWritten : String → ℕ → List (Write F) → Type 0
  AllWritten inv n [] = Unit
  AllWritten inv n (w ∷ ws) = IsWritten inv n w × AllWritten inv n ws

  abbrev writes_in : String × List (Write F) → List (Write F)
  writes_in p = p.1

  AllWritten-append :
      (inv : String) (n : ℕ) (xs ys : List (Write F))
      → AllWritten inv n xs
      → AllWritten inv n ys
      → AllWritten inv n (xs ++ ys)
  unfolding AllWritten
  AllWritten-append inv n [] ys h k = k
  AllWritten-append inv n (x ∷ xs) ys h k = (h.0, AllWritten-append inv n xs ys h.1 k)

module _ {F : Type 0} (fl : Floats F) (digest today : String → String) (found_pieces : ℕ → String)
    (insight_id_of : String → String) (raises : Write F → Bool) where
  attempt-AllWritten :
      (inv : String) (n : ℕ) (w : Write F)
      → IsWritten inv n w
      → AllWritten inv n (attempt fl digest today found_pieces insight_id_of raises w)
  unfolding AllWritten
  attempt-AllWritten inv n w h = elim (Bool-cases (raises w)) [
    | inl e ↦ rw e tt
    | inr e ↦ rw e (h, tt)
  ]

  tool_writes-AllWritten :
      (inv : String) (k n : ℕ) (xs : List ToolExecution)
      → k + length xs ≤ n
      → AllWritten inv n (tool_writes fl digest today found_pieces insight_id_of raises inv k xs)
  unfolding AllWritten
  tool_writes-AllWritten inv k n [] h = tt
  tool_writes-AllWritten inv k n (x ∷ xs) h =
      AllWritten-append inv n _ _
        (attempt-AllWritten inv n (log_execution inv (suc k) x)
          (refl, omega arith, fits (length xs) h))
        (tool_writes-AllWritten inv (suc k) n xs (next (length xs) h))
    where
      fits : (m : ℕ) → k + suc m ≤ n → suc k ≤ n
      fits m h = omega arith

      next : (m : ℕ) → k + suc m ≤ n → suc k + m ≤ n
      next m h = omega arith

  evidence_writes-AllWritten :
      (inv insight_id : String) (n : ℕ) (vs : List (Value F))
      → AllWritten inv n
          (evidence_writes fl digest today found_pieces insight_id_of raises insight_id vs)
  unfolding AllWritten
  evidence_writes-AllWritten inv insight_id n [] = tt
  evidence_writes-AllWritten inv insight_id n (v ∷ vs) =
      AllWritten-append inv n _ _
        (attempt-AllWritten inv n
          (evidence_write fl digest today found_pieces insight_id_of raises insight_id
            (normalize_evidence_item fl v))
          tt)
        (evidence_writes-AllWritten inv insight_id n vs)

  insight_writes-AllWritten :
      (inv : String) (n : ℕ) (state : InvestigationState F)
      → AllWritten inv n
          (if has_insight fl digest today found_pieces insight_id_of raises state
            then insight_writes fl digest today found_pieces insight_id_of raises state
            else ("", [])).1
  unfolding AllWritten
  insight_writes-AllWritten inv n state =
      written _ (has_insight fl digest today found_pieces insight_id_of raises state)
        (raises (insight_write state))
    where
      insight_write : InvestigationState F → Write F
      insight_write state =
          upsert_insight state.transaction_id state.severity
            (build_insight_summary fl digest today found_pieces insight_id_of raises state.reasoning
              (items state.evidence))
            (compute_insight_key fl digest today found_pieces insight_id_of raises
              state.transaction_id "agentic_investigation" "agentic")

      written :
          (id : String) (b c : Bool)
          → AllWritten inv n (
              writes_in (
                if b
                then if c then ("", []) else (
                  id,
                  insight_write state
                      ∷ evidence_writes fl digest today found_pieces insight_id_of raises id
                          (items state.evidence),
                )
                else ("", [])))
      written id false c = tt
      written id true true = tt
      written id true false = (tt, evidence_writes-AllWritten inv id n (items state.evidence))

  recommendation_writes-AllWritten :
      (inv insight_id : String) (n : ℕ) (vs : List (Value F))
      → AllWritten inv n (
          recommendation_writes fl digest today found_pieces insight_id_of raises inv insight_id vs)
  unfolding AllWritten
  recommendation_writes-AllWritten inv insight_id n [] = tt
  recommendation_writes-AllWritten inv insight_id n (obj rec ∷ vs) =
      AllWritten-append inv n _ _
        (attempt-AllWritten inv n
          (recommendation_write fl digest today found_pieces insight_id_of raises inv insight_id
            rec)
          (refl, stored_type-valid _))
        (recommendation_writes-AllWritten inv insight_id n vs)
  recommendation_writes-AllWritten inv insight_id n (null ∷ vs) =
      recommendation_writes-AllWritten inv insight_id n vs
  recommendation_writes-AllWritten inv insight_id n (bool _ ∷ vs) =
      recommendation_writes-AllWritten inv insight_id n vs
  recommendation_writes-AllWritten inv insight_id n (num _ ∷ vs) =
      recommendation_writes-AllWritten inv insight_id n vs
  recommendation_writes-AllWritten inv insight_id n (str _ ∷ vs) =
      recommendation_writes-AllWritten inv insight_id n vs
  recommendation_writes-AllWritten inv insight_id n (arr _ ∷ vs) =
      recommendation_writes-AllWritten inv insight_id n vs

  draft_writes-AllWritten :
      (inv : String) (n : ℕ) (o : Option (Fields F))
      → AllWritten inv n (draft_writes fl digest today found_pieces insight_id_of raises inv o)
  unfolding AllWritten
  draft_writes-AllWritten inv n none = tt
  draft_writes-AllWritten inv n (some end) = tt
  draft_writes-AllWritten inv n (some (field k v fs)) =
      attempt-AllWritten inv n (create_draft inv _) refl

  -- Whatever the state and however the repositories fail, every tool log that is written is for the
  -- investigation and numbered within its tool executions, and every recommendation and draft is
  -- for the investigation, a recommendation with one of the three types of the worklist.
  pub persist_results-AllWritten :
      (state : InvestigationState F)
      → AllWritten state.investigation_id
          (length state.tool_executions)
          (persist_results fl digest today found_pieces insight_id_of raises state)
  unfolding persist_results
  persist_results-AllWritten state =
      let inv = state.investigation_id in
      let n = length state.tool_executions in
      AllWritten-append inv n _ _
        (AllWritten-append inv n _ _
          (AllWritten-append inv n _ _
            (tool_writes-AllWritten inv 0 n state.tool_executions (omega arith))
            (insight_writes-AllWritten inv n state))
          (recommendation_writes-AllWritten inv _ n (items state.recommendations)))
        (draft_writes-AllWritten inv n state.rule_draft)
