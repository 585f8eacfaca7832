-- ===== src/Agent/Planner/Repair.antt =====
-- The LLM calls of `_llm_planning` (app/agent/planner.py): what an accepted decision satisfies, and
-- how many replies are read.
use card_fraud_ops_analyst_a.Prelude.{
  ℕ, zero, suc, ◌+◌, ◌≤◌, ◌<◌, ◌≡◌, ◌≢◌, inl, inr, String, true, false, Option, none, some, List,
  ◌==◌, arith, refl, Bool-cases, leb,
}
use card_fraud_ops_analyst_a.Value.{Value, Fields, get}
use card_fraud_ops_analyst_a.Floats.{Floats, max_f, min_f}
use card_fraud_ops_analyst_a.Agent.State.{InvestigationState, ToolRegistry, tool_names}
use card_fraud_ops_analyst_a.Agent.Planner.Rules.{validate_planner_decision}
use card_fraud_ops_analyst_a.Agent.Planner.Payload.{parse_planner_payload}
use card_fraud_ops_analyst_a.Agent.Planner.Llm.{
  LlmReply, timed_out, failed, content, repair_loop_exhausted, Result, ok, err, LlmDecision,
  decision_parts, decision_fields, float_or_half, after_parse, clamp, parse_decision, attempt_once,
  repair_loop, llm_planning,
}

module _ {F : Type 0} (fl : Floats F) where
  open fl use {pct, le, lt, le_of_lt, pct_le, le_trans}

  -- A confidence between 0.0 and 1.0.
  abbrev pub InUnit : F → Type 0
  InUnit x = (le (pct 0) x ≡ true) × (le x (pct 100) ≡ true)

  pub min_one-le : (x : F) → le (min_f fl (pct 100) x) (pct 100) ≡ true
  unfolding min_f
  min_one-le x = elim (Bool-cases (lt x (pct 100))) [
    | inl h ↦ rw h (le_of_lt x (pct 100) h)
    | inr h ↦ rw h (pct_le 100 100 refl)
  ]

  pub max_zero-InUnit : (y : F) → le y (pct 100) ≡ true → InUnit (max_f fl (pct 0) y)
  unfolding max_f
  max_zero-InUnit y below = elim (Bool-cases (lt (pct 0) y)) [
    | inl h ↦ rw h (le_of_lt (pct 0) y h, below)
    | inr h ↦ rw h (pct_le 0 0 refl, pct_le 0 100 refl)
  ]

module _ {F : Type 0} (fl : Floats F) (loads : String → Option (Value F)) where
  clamp-InUnit : (x : F) → InUnit fl (clamp fl loads x)
  unfolding clamp
  clamp-InUnit x = max_zero-InUnit fl (min_f fl (fl.pct 100) x) (min_one-le fl x)

  decision_parts-bounds :
      (parsed : Fields F) (o : Option F) (d : String × String × F)
      → decision_parts fl loads parsed o ≡ some d
      → ((d.0 == "") ≡ false) × InUnit fl d.2
  decision_parts-bounds parsed none d h = cc
  decision_parts-bounds parsed (some x) d h = ground (arith, clamp-InUnit x)

  decision_fields-bounds :
      (o : Option (Fields F)) (d : String × String × F)
      → decision_fields fl loads o ≡ some d
      → ((d.0 == "") ≡ false) × InUnit fl d.2
  decision_fields-bounds none d h = cc
  decision_fields-bounds (some parsed) d h =
      decision_parts-bounds parsed (float_or_half fl loads (get "confidence" parsed)) d h

  module _ (state : InvestigationState F) (available : List String) (user_prompt : String) where
    -- What a decision that the loop returns satisfies.
    abbrev IsSound : LlmDecision F → Type 0
    IsSound d =
        (validate_planner_decision state d.tool available ≡ none)
        × ((d.tool == "") ≡ false)
        × InUnit fl d.confidence

    after_parse-IsSound :
        (attempt : ℕ) (raw : Value F) (o : Option (String × String × F)) (d : LlmDecision F)
        (retry : Result (LlmDecision F))
        → ((e : String × String × F) → o ≡ some e → ((e.0 == "") ≡ false) × InUnit fl e.2)
        → (retry ≡ ok d → IsSound d)
        → after_parse fl loads state available user_prompt attempt raw o retry ≡ ok d
        → IsSound d
    after_parse-IsSound attempt raw none d retry bounds later h = cc
    after_parse-IsSound attempt raw (some e) d retry bounds later h = ground (arith, bounds e refl)

    attempt_once-IsSound :
        (attempt : ℕ) (r : LlmReply F) (d : LlmDecision F) (retry : Result (LlmDecision F))
        → (retry ≡ ok d → IsSound d)
        → attempt_once fl loads state available user_prompt attempt r retry ≡ ok d
        → IsSound d
    unfolding attempt_once
    attempt_once-IsSound attempt timed_out d retry later h = cc
    attempt_once-IsSound attempt (failed m) d retry later h = cc
    attempt_once-IsSound attempt (content raw) d retry later h =
        after_parse-IsSound attempt raw (parse_decision fl loads raw) d retry
          (unfold parse_decision in decision_fields-bounds (parse_planner_payload fl loads raw))
          later h

    repair_loop-IsSound :
        (llm : ℕ → LlmReply F) (rounds attempt : ℕ) (d : LlmDecision F)
        → repair_loop fl loads state available user_prompt llm rounds attempt ≡ ok d
        → IsSound d
    unfolding repair_loop
    repair_loop-IsSound llm zero attempt d h = cc
    repair_loop-IsSound llm (suc rounds) attempt d h =
        attempt_once-IsSound attempt (llm attempt) d
          (repair_loop fl loads state available user_prompt llm rounds (attempt + 1))
          (repair_loop-IsSound llm rounds (attempt + 1) d) h

    -- the last round does not ask again
    attempt_once-last :
        (attempt : ℕ) (r : LlmReply F) (retry retry' : Result (LlmDecision F))
        → leb 2 attempt ≡ true
        → attempt_once fl loads state available user_prompt attempt r retry
          ≡ attempt_once fl loads state available user_prompt attempt r retry'
    unfolding attempt_once
    attempt_once-last attempt timed_out retry retry' h = refl
    attempt_once-last attempt (failed m) retry retry' h = refl
    attempt_once-last attempt (content raw) retry retry' h = ground arith

    attempt_once-ne-exhausted :
        (attempt : ℕ) (r : LlmReply F) (retry : Result (LlmDecision F))
        → (leb 2 attempt ≡ false → retry ≢ err repair_loop_exhausted)
        → attempt_once fl loads state available user_prompt attempt r retry
          ≢ err repair_loop_exhausted
    unfolding attempt_once
    attempt_once-ne-exhausted attempt timed_out retry more h = cc
    attempt_once-ne-exhausted attempt (failed m) retry more h = cc
    attempt_once-ne-exhausted attempt (content raw) retry more h = ground arith

    repair_loop-ne-exhausted :
        (llm : ℕ → LlmReply F) (rounds attempt : ℕ)
        → 2 < rounds + attempt
        → attempt ≤ 2
        → repair_loop fl loads state available user_prompt llm rounds attempt
          ≢ err repair_loop_exhausted
    unfolding repair_loop
    repair_loop-ne-exhausted llm zero attempt enough few = absurd (omega arith)
    repair_loop-ne-exhausted llm (suc rounds) attempt enough few =
        attempt_once-ne-exhausted attempt (llm attempt)
          (repair_loop fl loads state available user_prompt llm rounds (attempt + 1))
          (λ more. repair_loop-ne-exhausted llm rounds (attempt + 1) (omega arith) (ground arith))

    repair_loop-cong :
        (llm llm' : ℕ → LlmReply F) (rounds attempt : ℕ)
        → ((n : ℕ) → n < attempt + rounds → llm n ≡ llm' n)
        → repair_loop fl loads state available user_prompt llm rounds attempt
          ≡ repair_loop fl loads state available user_prompt llm' rounds attempt
    unfolding repair_loop
    repair_loop-cong llm llm' zero attempt same = refl
    repair_loop-cong llm llm' (suc rounds) attempt same = rw (
      same attempt (omega arith),
      repair_loop-cong llm llm' rounds (attempt + 1) (λ n h. same n (omega arith)),
    )

  module _ (state : InvestigationState F) (registry : ToolRegistry F)
      (user_prompt : InvestigationState F → String) where
    -- A decision that `_llm_planning` returns passes the sequencing check, names a tool, and has a
    -- confidence between 0.0 and 1.0.
    pub llm_planning_sound :
        (llm : ℕ → LlmReply F) (d : LlmDecision F)
        → llm_planning fl loads state registry user_prompt llm ≡ ok d
        → (validate_planner_decision state d.tool (tool_names registry) ≡ none)
          × ((d.tool == "") ≡ false)
          × InUnit fl d.confidence
    unfolding llm_planning
    llm_planning_sound llm d h =
        repair_loop-IsSound state (tool_names registry) (user_prompt state) llm 3 0 d h

    -- `_llm_planning` depends on the first three replies of the LLM only, and its loop never runs
    -- out: the error behind the loop is not reached.
    pub llm_planning-three_calls :
        (llm llm' : ℕ → LlmReply F)
        → ((n : ℕ) → n < 3 → llm n ≡ llm' n)
        → (llm_planning fl loads state registry user_prompt llm
            ≡ llm_planning fl loads state registry user_prompt llm')
          × (llm_planning fl loads state registry user_prompt llm ≢ err repair_loop_exhausted)
    unfolding llm_planning
    llm_planning-three_calls llm llm' same = (
      repair_loop-cong state (tool_names registry) (user_prompt state) llm llm' 3 0 same,
      repair_loop-ne-exhausted state (tool_names registry) (user_prompt state) llm 3 0 (omega arith)
          (omega arith),
    )
