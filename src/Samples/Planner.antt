-- ===== src/Samples/Planner.antt =====
-- The theorems on the planner (app/agent/planner.py) at concrete states and replies.
use card_fraud_ops_analyst_a.Prelude.{
  ◌⊎◌, String, ℕ, ◌+◌, ◌≡◌, ◌≢◌, ◌↔◌, true, false, none, some, [], ◌∷◌, ◌++◌, ◌==◌, refl, contains,
  sort_texts, strip, is_some, is_infix, lower, is_infix, lower,
}
use card_fraud_ops_analyst_a.Value.{Value, num, str, obj, field, end, get}
use card_fraud_ops_analyst_a.Floats.{to_float}
use card_fraud_ops_analyst_a.Agent.State.{InvestigationState, PlannerDecision, tool_names}
use card_fraud_ops_analyst_a.Agent.Planner.Rules.{
  validate_planner_decision, check_later, rule_sequence_next_tool, any_opens, first_open,
  tool_sequence, planner_llm_circuit_open,
}
use card_fraud_ops_analyst_a.Agent.Planner.Payload.{parse_planner_payload, extract_balanced_json}
use card_fraud_ops_analyst_a.Agent.Planner.Llm.{
  invalid_tool, LlmReply, timed_out, content, llm_timeout, repair_loop_exhausted, ok, err,
  LlmDecision, repair_loop, attempt_once, parse_decision, clamp, llm_planning,
}
use card_fraud_ops_analyst_a.Agent.Planner.Node.{
  PlannerEnv, record_choice, flag_or_true, choose, planner_node, is_valid_tool,
}
use card_fraud_ops_analyst_a.Agent.Planner.Sequencing.{InOrder, AllReady, validate-InOrder_iff}
use card_fraud_ops_analyst_a.Agent.Planner.Fallback.{
  DraftDue, rule_sequence-complete_iff, validate-rule_sequence,
}
use card_fraud_ops_analyst_a.Agent.Planner.Repair.{
  InUnit, llm_planning_sound, llm_planning-three_calls,
}
use card_fraud_ops_analyst_a.Agent.Planner.Circuit.{
  AsksLlm, circuit_opens_iff, circuit_open-ignores_llm,
}
use card_fraud_ops_analyst_a.Agent.Planner.Choosing.{planner_node-selects}
use card_fraud_ops_analyst_a.Agent.Planner.Refusals.{needs_context, planner_node-refuses_iff}
use card_fraud_ops_analyst_a.Agent.Planner.Reading.{
  parse-whole_text, IsBraced, extract-IsBraced_iff,
}
use card_fraud_ops_analyst_a.Tools.PatternTool.{pattern_tool}
use card_fraud_ops_analyst_a.Samples.{hundredths, loads, registry, env, ready}

-- the LLM is switched off
abbrev rules_only : PlannerEnv ℕ
rules_only = record {
  llm_enabled = false;
  now = "t";
  llm = λ k. timed_out;
  user_prompt = λ s. "prompt";
}

abbrev fallback_decision : PlannerDecision ℕ
fallback_decision = record {
  step = 1;
  selected_tool = "pattern_tool";
  reason = "rule-sequence fallback: LLM planner unavailable";
  confidence = 50;
  timestamp = "t";
  llm_prompt_preview = none;
  llm_response_preview = none;
}

abbrev planned : InvestigationState ℕ
planned = record ready {
  next_action = "pattern_tool";
  step_count = 1;
  planner_decisions = fallback_decision ∷ [];
}

ready-planned : planner_node hundredths loads (env.planning 0) registry ready ≡ ok planned
unfolding planner_node record_choice contains tool_names choose rule_sequence_next_tool first_open
    llm_planning repair_loop attempt_once planner_llm_circuit_open any_opens flag_or_true sort_texts
    pattern_tool
ready-planned = refl

planner_node-selects_example :
    (is_valid_tool hundredths loads registry planned.next_action ≡ true)
    × (contains planned.next_action ready.completed_steps ≡ false)
    × InOrder (tool_names registry) ready.completed_steps planned.next_action
    × ((d : PlannerDecision ℕ) × (d.selected_tool ≡ planned.next_action)
        × (planned ≡ record ready {
          next_action = d.selected_tool;
          step_count = ready.step_count + 1;
          planner_decisions = ready.planner_decisions ++ d ∷ [];
        }))
unfolding contains
planner_node-selects_example =
    planner_node-selects hundredths loads (env.planning 0) registry ready planned refl ready-planned

validate-InOrder_iff_example :
    (validate_planner_decision ready "reasoning_tool" ("pattern_tool" ∷ "reasoning_tool" ∷ [])
      ≡ none)
    ↔ ((contains "reasoning_tool" ready.completed_steps ≡ false)
        × InOrder ("pattern_tool" ∷ "reasoning_tool" ∷ []) ready.completed_steps "reasoning_tool")
validate-InOrder_iff_example =
    validate-InOrder_iff ready "reasoning_tool" ("pattern_tool" ∷ "reasoning_tool" ∷ [])

rule_sequence-complete_iff_example :
    ((rule_sequence_next_tool hundredths ready registry).0 ≡ "COMPLETE") ↔ (
      AllReady (tool_names registry) ready.completed_steps tool_sequence
      × (¬ DraftDue hundredths ready registry))
rule_sequence-complete_iff_example = rule_sequence-complete_iff hundredths ready registry

validate-rule_sequence_example :
    validate_planner_decision ready
      (rule_sequence_next_tool hundredths ready registry).0
      (tool_names registry)
    ≡ none
unfolding contains
validate-rule_sequence_example = validate-rule_sequence hundredths ready registry refl

-- a reply with a decision
abbrev answer : Value ℕ
answer = obj (field "tool" (str "pattern_tool") (field "confidence" (num 90) end))

abbrev answers : ℕ → LlmReply ℕ
answers n = content answer

abbrev answered : LlmDecision ℕ
answered = record {
  tool = "pattern_tool";
  reason = "";
  confidence = 90;
  prompt = "prompt";
  response = "";
}

answers-planned : llm_planning hundredths loads ready registry (λ s. "prompt") answers ≡ ok answered
unfolding llm_planning repair_loop attempt_once parse_decision parse_planner_payload clamp to_float
    validate_planner_decision check_later contains get strip
answers-planned = refl

llm_planning_sound_example :
    (validate_planner_decision ready answered.tool (tool_names registry) ≡ none)
    × ((answered.tool == "") ≡ false)
    × InUnit hundredths answered.confidence
llm_planning_sound_example =
    llm_planning_sound hundredths loads ready registry (λ s. "prompt") answers answered
      answers-planned

llm_planning-three_calls_example :
    (llm_planning hundredths loads ready registry (λ s. "prompt") answers
      ≡ llm_planning hundredths loads ready registry (λ s. "prompt") answers)
    × (llm_planning hundredths loads ready registry (λ s. "prompt") answers
        ≢ err repair_loop_exhausted)
llm_planning-three_calls_example =
    llm_planning-three_calls hundredths loads ready registry (λ s. "prompt") answers answers
      (λ n lt. refl)

ready-AsksLlm : AsksLlm hundredths loads (env.planning 0) registry ready
unfolding flag_or_true planner_llm_circuit_open any_opens contains
ready-AsksLlm = record { has_context = refl; allowed = refl; closed = refl }

ready-times_out :
    llm_planning hundredths loads ready registry (λ s. "prompt") (λ k. timed_out) ≡ err llm_timeout
unfolding llm_planning repair_loop attempt_once
ready-times_out = refl

circuit_opens_iff_example :
    planner_llm_circuit_open planned
    ≡ is_some (first_open ready.completed_steps (tool_names registry) tool_sequence)
circuit_opens_iff_example =
    circuit_opens_iff hundredths loads (env.planning 0) registry ready llm_timeout planned
      ready-AsksLlm ready-times_out ready-planned

planned-open : planner_llm_circuit_open planned ≡ true
unfolding planner_llm_circuit_open any_opens is_infix lower
planned-open = refl

circuit_open-ignores_llm_example :
    planner_node hundredths loads (env.planning 0) registry planned
    ≡ planner_node hundredths loads (record (env.planning 0) { llm = answers }) registry planned
circuit_open-ignores_llm_example =
    circuit_open-ignores_llm hundredths loads (env.planning 0) registry planned answers planned-open

-- no context yet, and no context tool
abbrev bare : InvestigationState ℕ
bare = record ready { context = end }

planner_node-refuses_iff_example :
    (planner_node hundredths loads (env.planning 0) registry bare
      ≡ err (invalid_tool "context_tool"))
    ↔ (((needs_context hundredths loads (env.planning 0) registry bare ≡ true)
          × (contains "context_tool" (tool_names registry) ≡ false)
          × (invalid_tool "context_tool" ≡ invalid_tool "context_tool"))
        ⊎ ((d : LlmDecision ℕ) × AsksLlm hundredths loads (env.planning 0) registry bare
            × (llm_planning hundredths loads bare registry (λ s. "prompt") (λ k. timed_out) ≡ ok d)
            × (is_valid_tool hundredths loads registry d.tool ≡ false)
            × (invalid_tool "context_tool" ≡ invalid_tool d.tool)))
planner_node-refuses_iff_example =
    planner_node-refuses_iff hundredths loads (env.planning 0) registry bare
      (invalid_tool "context_tool")

fenced-not_empty : (strip (strip "```{}```") == "") ≡ false
unfolding strip
fenced-not_empty = refl

parse-whole_text_example : parse_planner_payload hundredths loads (str "```{}```") ≡ none
parse-whole_text_example = parse-whole_text hundredths loads "```{}```" fenced-not_empty refl

-- a brace within quotes and a nested object
abbrev noisy : String
noisy = "ok {\"a}\":{}} }."

abbrev noisy_object : String
noisy_object = "{\"a}\":{}}"

noisy-extracted : extract_balanced_json noisy ≡ some noisy_object
unfolding extract_balanced_json
noisy-extracted = refl

extract-IsBraced_iff_example :
    (extract_balanced_json noisy ≡ some noisy_object) ↔ IsBraced noisy noisy_object
extract-IsBraced_iff_example = extract-IsBraced_iff noisy noisy_object
