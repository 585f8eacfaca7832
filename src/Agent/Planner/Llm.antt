-- ===== src/Agent/Planner/Llm.antt =====
-- `_llm_planning` of app/agent/planner.py: the calls of the LLM, with repairs.
use card_fraud_ops_analyst_a.Prelude.{
  ℕ, zero, suc, ◌+◌, ◌≡◌, String, Bool, true, false, Option, none, some, List, ◌==◌, if◌then◌else◌,
  strip, first_chars, leb, refl,
}
use card_fraud_ops_analyst_a.Value.{Value, Fields, get}
use card_fraud_ops_analyst_a.Floats.{Floats, max_f, min_f, to_float}
use card_fraud_ops_analyst_a.Agent.State.{InvestigationState, ToolRegistry, tool_names}
use card_fraud_ops_analyst_a.Agent.Planner.Rules.{Violation, validate_planner_decision}
use card_fraud_ops_analyst_a.Agent.Planner.Payload.{parse_planner_payload}

-- What one `await llm.ainvoke(...)` under the timeout comes to.
pub data LlmReply (F : Type 0) : Type 0 where
  timed_out : LlmReply F
  failed : String → LlmReply F
  content : Value F → LlmReply F

-- The `PlannerError`s that the planner raises, by their message.
pub data PlannerError : Type 0 where
  llm_timeout : PlannerError
  llm_failed : String → PlannerError
  unparsable : String → PlannerError
  invalid_decision : String → Violation → PlannerError
  repair_loop_exhausted : PlannerError
  invalid_tool : String → PlannerError

pub data Result {ℓ} (A : Type ℓ) : Type ℓ where
  ok : A → Result A
  err : PlannerError → Result A

pub if-eq-ok {ℓ} :
    {A : Type ℓ} (b : Bool) (x y : A) (e : PlannerError)
    → (if b then ok x else err e) ≡ ok y
    → (b ≡ true) × (x ≡ y)
if-eq-ok true x y e h = (refl, cc)
if-eq-ok false x y e h = cc

-- tool, reason, confidence, prompt and response
pub record LlmDecision (F : Type 0) : Type 0 where
  pub tool : String
  pub reason : String
  pub confidence : F
  pub prompt : String
  pub response : String

abbrev pub max_decision_repairs : ℕ
max_decision_repairs = 2

module _ {F : Type 0} (fl : Floats F) (loads : String → Option (Value F)) where
  open fl use {pct, text_of}

  abbrev pub text_or_empty : Option (Value F) → String
  text_or_empty none = ""
  text_or_empty (some v) = text_of v

  abbrev pub float_or_half : Option (Value F) → Option F
  float_or_half none = some (pct 50)
  float_or_half (some v) = to_float fl v

  -- `max(0.0, min(1.0, x))`
  unfoldable pub clamp : F → F
  unfolding max_f min_f
  clamp x = max_f fl (pct 0) (min_f fl (pct 100) x)

  abbrev pub decision_parts : Fields F → Option F → Option (String × String × F)
  decision_parts parsed none = none
  decision_parts parsed (some x) =
      let tool = strip (text_or_empty (get "tool" parsed)) in
      if tool == "" then none else some (tool, text_or_empty (get "reason" parsed), clamp x)

  abbrev pub decision_fields : Option (Fields F) → Option (String × String × F)
  decision_fields none = none
  decision_fields (some parsed) = decision_parts parsed (float_or_half (get "confidence" parsed))

  -- The body of the `try` that parses a response: tool, reason and confidence; `none` where it
  -- raises.
  unfoldable pub parse_decision : Value F → Option (String × String × F)
  parse_decision raw = decision_fields (parse_planner_payload fl loads raw)

  module _ (state : InvestigationState F) (available : List String) (user_prompt : String) where
    abbrev pub accepted : Value F → String × String × F → LlmDecision F
    accepted raw (tool, reason, confidence) = record {
      tool = tool;
      reason = reason;
      confidence = confidence;
      prompt = user_prompt;
      response = text_of raw;
    }

    -- What is done with a checked decision: `retry` is the next round of the loop.
    abbrev pub judge :
        ℕ
        → Value F
        → String × String × F
        → Option Violation
        → Result (LlmDecision F)
        → Result (LlmDecision F)
    judge attempt raw d none retry = ok (accepted raw d)
    judge attempt raw d (some v) retry =
        if leb max_decision_repairs attempt then err (invalid_decision d.0 v) else retry

    abbrev pub after_parse :
        ℕ → Value F → Option (String × String × F) → Result (LlmDecision F) → Result (LlmDecision F)
    after_parse attempt raw none retry = err (unparsable (first_chars 200 (text_of raw)))
    after_parse attempt raw (some d) retry =
        judge attempt raw d (validate_planner_decision state d.0 available) retry

    -- One round of the loop.
    unfoldable pub attempt_once : ℕ → LlmReply F → Result (LlmDecision F) → Result (LlmDecision F)
    attempt_once attempt timed_out retry = err llm_timeout
    attempt_once attempt (failed message) retry = err (llm_failed message)
    attempt_once attempt (content raw) retry = after_parse attempt raw (parse_decision raw) retry

    -- The loop, with the rounds that `range` has left. `llm n` is the reply to call n.
    unfoldable pub repair_loop : (ℕ → LlmReply F) → ℕ → ℕ → Result (LlmDecision F)
    repair_loop llm zero attempt = err repair_loop_exhausted
    repair_loop llm (suc rounds) attempt =
        let retry = repair_loop llm rounds (attempt + 1) in attempt_once attempt (llm attempt) retry

  -- `_llm_planning`
  unfoldable pub llm_planning :
      InvestigationState F
      → ToolRegistry F
      → (InvestigationState F → String)
      → (ℕ → LlmReply F)
      → Result (LlmDecision F)
  unfolding repair_loop
  llm_planning state registry user_prompt llm =
      repair_loop state (tool_names registry) (user_prompt state) llm (max_decision_repairs + 1) 0
