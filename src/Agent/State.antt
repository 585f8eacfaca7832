-- ===== src/Agent/State.antt =====
-- app/agent/state.py and app/agent/registry.py: the state object and the tools.
use card_fraud_ops_analyst_a.Prelude.{
  ℕ, ◌≡◌, String, Bool, Option, none, some, List, [], ◌∷◌, ◌++◌, if◌then◌else◌, ◌==◌, contains,
  sort_texts, contains-sort_texts,
}
use card_fraud_ops_analyst_a.Value.{Items, nil, Fields, end}

-- `ToolExecution`; its two display summaries are left out.
pub record ToolExecution : Type 0 where
  pub tool_name : String
  pub execution_time_ms : ℕ
  pub status : String
  pub error_message : Option String
  pub timestamp : String

pub record PlannerDecision (F : Type 0) : Type 0 where
  pub step : ℕ
  pub selected_tool : String
  pub reason : String
  pub confidence : F
  pub timestamp : String
  pub llm_prompt_preview : Option String
  pub llm_response_preview : Option String

pub record InvestigationState (F : Type 0) : Type 0 where
  pub investigation_id : String
  pub transaction_id : String
  pub case_id : Option String
  pub scenario_name : Option String
  pub trace_id : Option String
  pub model_mode : String
  pub context : Fields F
  pub pattern_results : Fields F
  pub similarity_results : Fields F
  pub link_analysis_results : Fields F
  pub hypotheses : Items F
  pub evidence : Items F
  pub reasoning : Fields F
  pub recommendations : Items F
  pub rule_draft : Option (Fields F)
  pub confidence_score : F
  pub severity : String
  pub status : String
  pub completed_steps : List String
  pub next_action : String
  pub step_count : ℕ
  pub max_steps : ℕ
  pub started_at : String
  pub completed_at : Option String
  pub planner_decisions : List (PlannerDecision F)
  pub tool_executions : List ToolExecution
  pub error : Option String
  pub feature_flags : List (String × Bool)
  pub safeguards : List (String × ℕ)

-- `create_initial_state`; `zero_score` is the float 0.0, `now` the clock.
unfoldable pub create_initial_state :
    {F : Type 0} (zero_score : F) (now investigation_id transaction_id : String) (max_steps : ℕ)
    (case_id scenario_name trace_id : Option String) (feature_flags : List (String × Bool))
    (safeguards : List (String × ℕ))
    → InvestigationState F
create_initial_state zero_score now inv txn steps case_id scenario trace flags guards = record {
  investigation_id = inv;
  transaction_id = txn;
  case_id = case_id;
  scenario_name = scenario;
  trace_id = trace;
  model_mode = "agentic";
  context = end;
  pattern_results = end;
  similarity_results = end;
  link_analysis_results = end;
  hypotheses = nil;
  evidence = nil;
  reasoning = end;
  recommendations = nil;
  rule_draft = none;
  confidence_score = zero_score;
  severity = "LOW";
  status = "PENDING";
  completed_steps = [];
  next_action = "";
  step_count = 0;
  max_steps = steps;
  started_at = now;
  completed_at = none;
  planner_decisions = [];
  tool_executions = [];
  error = none;
  feature_flags = flags;
  safeguards = guards;
}

-- What `await tool.execute(state)` under the timeout comes to.
pub data ToolOutcome (F : Type 0) : Type 0 where
  returned : InvestigationState F → ToolOutcome F
  timed_out : ToolOutcome F
  raised : String → ToolOutcome F

-- `BaseTool`. The number is that of the call: what a tool's services answer may differ by call.
pub record BaseTool (F : Type 0) : Type 0 where
  pub name : String
  pub description : String
  pub execute : ℕ → InvestigationState F → ToolOutcome F

-- `ToolRegistry._tools`, in insertion order.
abbrev pub ToolRegistry : Type 0 → Type 0
ToolRegistry F = List (BaseTool F)

module _ {F : Type 0} where
  -- `registry.get`, `none` for the KeyError.
  unfoldable pub get_tool : String → ToolRegistry F → Option (BaseTool F)
  get_tool n [] = none
  get_tool n (t ∷ ts) = if t.name == n then some t else get_tool n ts

  abbrev pub keys : ToolRegistry F → List String
  keys [] = []
  keys (t ∷ ts) = t.name ∷ keys ts

  -- `registry.tool_names`
  unfoldable pub tool_names : ToolRegistry F → List String
  tool_names r = sort_texts (keys r)

  -- `registry.has`
  unfoldable pub has_tool : String → ToolRegistry F → Bool
  has_tool n r = contains n (keys r)

  pub contains-tool_names :
      (n : String) (r : ToolRegistry F) → contains n (tool_names r) ≡ has_tool n r
  unfolding tool_names has_tool
  contains-tool_names n r = contains-sort_texts n (keys r)

  -- `registry.register`, `none` for the ValueError on a name that is taken.
  unfoldable pub register : BaseTool F → ToolRegistry F → Option (ToolRegistry F)
  unfolding has_tool
  register t r = if has_tool t.name r then none else some (r ++ t ∷ [])

  pub returned_inj : (s t : InvestigationState F) → returned s ≡ returned t → s ≡ t
  returned_inj s t h = cc

  pub raised_ne_returned : {m : String} {t : InvestigationState F} → raised m ≡ returned t → ⊥
  raised_ne_returned h = cc
