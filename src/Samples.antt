-- ===== src/Samples.antt =====
-- Concrete values at which the theorems are applied: numbers in hundredths for the floats, a
-- registry, an environment and states.
pub mod Agent
pub mod Planner
pub mod Drafts
pub mod Guards
pub mod Scores
pub mod Service
pub mod Privacy
pub mod Tools
pub mod Windows
use card_fraud_ops_analyst_a.Prelude.{
  ℕ, ◌+◌, ◌-◌, ◌*◌, ◌/◌, ◌≡◌, String, Bool, true, false, Option, none, some, List, [], ◌∷◌, refl,
  arith, leb, ltb, some_inj, ◌==◌, if◌then◌else◌,
}
use card_fraud_ops_analyst_a.Value.{Value, str, num, obj, nil, Fields, end, field}
use card_fraud_ops_analyst_a.Floats.{Floats}
use card_fraud_ops_analyst_a.Agent.State.{
  InvestigationState, BaseTool, ToolRegistry, create_initial_state, get_tool, returned,
}
use card_fraud_ops_analyst_a.Agent.Executor.Effect.{KeepControl, SameControl}
use card_fraud_ops_analyst_a.Agent.Planner.Llm.{LlmReply, timed_out, content, PlannerError}
use card_fraud_ops_analyst_a.Agent.Planner.Node.{PlannerEnv}
use card_fraud_ops_analyst_a.Agent.Executor.{ExecutorEnv}
use card_fraud_ops_analyst_a.Agent.Graph.{GraphEnv}
use card_fraud_ops_analyst_a.Scoring.Amount.{AmountThresholds}
use card_fraud_ops_analyst_a.Scoring.Severity.{Thresholds, ScoringContext}
use card_fraud_ops_analyst_a.Tools.PatternTool.{execute, pattern_tool}
use card_fraud_ops_analyst_a.Tools.PatternTool.Effect.{execute-IsScored}

abbrev pub sum_all : List ℕ → ℕ
sum_all [] = 0
sum_all (x ∷ xs) = x + sum_all xs

abbrev pub text_or_none : Value ℕ → String
text_or_none (str s) = s
text_or_none _ = ""

pub ltb-leb : (a b : ℕ) → ltb a b ≡ true → leb a b ≡ true
ltb-leb a b h = ground arith

pub leb-ltb : (a b : ℕ) → leb a b ≡ true → leb b a ≡ false → ltb a b ≡ true
leb-ltb a b h k = ground arith

pub hundreds : (n : ℕ) → n * 100 ≡ 100 * n
hundreds n = omega arith

pub leb_trans : (a b c : ℕ) → leb a b ≡ true → leb b c ≡ true → leb a c ≡ true
leb_trans a b c h k = ground arith

abbrev pub hundredths : Floats ℕ
hundredths = record {
  pct = λ n. n;
  le = leb;
  lt = ltb;
  add = λ a b. a + b;
  sub = λ a b. a - b;
  mul = λ a b. a * b / 100;
  div = λ a b. a * 100 / b;
  sqrt = λ a. a;
  sum = sum_all;
  round = λ a n. a;
  floor = λ a. a / 100;
  from_nat = λ n. n * 100;
  of_text = λ s. none;
  text_of = text_or_none;
  le_of_lt = ltb-leb;
  le_trans = leb_trans;
  lt_of_le = leb-ltb;
  pct_le = λ m n h. refl;
  pct_lt = λ m n h. refl;
  round_le = λ a b n h. h;
  round_pct = λ m n h k. refl;
  from_nat_pct = λ n h. hundreds n;
  text_of-str = λ s. refl;
}

abbrev pub loads : String → Option (Value ℕ)
loads s = none

abbrev pub no_time : String → Option ℕ
no_time s = none

abbrev pub thresholds : Thresholds ℕ
thresholds = record {
  amount = record {
    round_numbers = 500 ∷ 1000 ∷ [];
    high = 100000;
    elevated = 50000;
    zscore_outlier = 300;
    zscore_warning = 200;
  };
  velocity_burst_1h = 10;
  velocity_burst_6h = 20;
  decline_ratio_high = 50;
  decline_ratio_medium = 30;
  cross_merchant_high = 10;
  cross_merchant_medium = 5;
  time_unusual_hours = 0 ∷ 1 ∷ 2 ∷ [];
}

abbrev pub scoring : ScoringContext ℕ
scoring = record {
  windows = λ n. none;
  signals = "burst_1h" ∷ [];
  transaction = some (field "amount" (num 50000) end);
  card_history = [];
  ip_country = some "US";
  card_country = some "FR";
}

abbrev pub describe : ℕ → String
describe n = "Detected fraud patterns"

abbrev pub registry : ToolRegistry ℕ
registry = pattern_tool hundredths no_time no_time (λ c. scoring) describe thresholds ∷ []

abbrev pub env : GraphEnv ℕ
env = record {
  planning = λ n. record {
    llm_enabled = true;
    now = "t";
    llm = λ k. timed_out;
    user_prompt = λ s. "prompt";
  };
  executing =
      λ n. record { call = n; now = "t"; elapsed_ms = 5; timeout_message = "Tool timed out" };
  now = λ n. "t";
  message = λ e. "planner error";
}

-- an investigation whose context is there already
abbrev pub ready : InvestigationState ℕ
ready = record {
  investigation_id = "inv-1";
  transaction_id = "txn-1";
  case_id = none;
  scenario_name = none;
  trace_id = none;
  model_mode = "agentic";
  context = field "transaction" (obj end) end;
  pattern_results = end;
  similarity_results = end;
  link_analysis_results = end;
  hypotheses = nil;
  evidence = nil;
  reasoning = end;
  recommendations = nil;
  rule_draft = none;
  confidence_score = 0;
  severity = "low";
  status = "PENDING";
  completed_steps = [];
  next_action = "";
  step_count = 0;
  max_steps = 5;
  started_at = "t";
  completed_at = none;
  planner_decisions = [];
  tool_executions = [];
  error = none;
  feature_flags = [];
  safeguards = [];
}

abbrev pub the_tool : BaseTool ℕ
the_tool = pattern_tool hundredths no_time no_time (λ c. scoring) describe thresholds

pub found_tool :
    (name : String) (tool : BaseTool ℕ) → get_tool name registry ≡ some tool → tool ≡ the_tool
unfolding get_tool
found_tool name tool found = ground arith

the_tool-control :
    (call : ℕ) (s t : InvestigationState ℕ) → the_tool.execute call s ≡ returned t → SameControl s t
unfolding pattern_tool
the_tool-control call s t e =
    (execute-IsScored hundredths loads no_time no_time (λ c. scoring) describe thresholds s t
      e).control

-- The registry of the pattern tool keeps the control fields.
pub registry-KeepControl : KeepControl registry
registry-KeepControl = record {
  keeps = λ name tool call s t found e.
      the_tool-control call s t (rw (found_tool name tool found) at e);
}
