-- ===== src/Tools/Recommendation.antt =====
-- app/tools/recommendation_tool.py
pub mod Effect
use mathlib.Core.Option
use card_fraud_ops_analyst_a.Prelude.{
  ℕ, String, Bool, true, false, Option, none, some, List, [], ◌∷◌, ◌&&◌, if◌then◌else◌, ◌==◌,
  contains, ltb,
}
use card_fraud_ops_analyst_a.Value.{
  Value, null, bool, num, str, arr, obj, Items, nil, cons, items, Fields, end, field, get, get_or,
  as_dict,
}
use card_fraud_ops_analyst_a.Floats.{Floats, to_float, truthy}
use card_fraud_ops_analyst_a.Agent.State.{
  InvestigationState, BaseTool, ToolOutcome, returned, raised,
}
use card_fraud_ops_analyst_a.Agent.Completion.{valid_severities}
use card_fraud_ops_analyst_a.Tools.Candidates.{Candidate, NamedScore, generate_recommendations}

-- `SEVERITY_RANK.get(s, 0)`
unfoldable pub severity_rank : String → ℕ
severity_rank s =
    if s == "LOW"
    then 1
    else if s == "MEDIUM"
    then 2
    else if s == "HIGH"
    then 3
    else if s == "CRITICAL"
    then 4
    else 0

-- `impact_of` renders the impact of a candidate from the context.
module _ {F : Type 0} (fl : Floats F) (impact_of : Candidate → Fields F → String) where
  open fl use {pct, from_nat}

  -- the text of a value that is one of the levels
  abbrev pub level_of : Option (Value F) → Option String
  level_of (some (str s)) = if contains s valid_severities then some s else none
  level_of _ = none

  abbrev pub is_success : Option (Value F) → Bool
  is_success (some (str s)) = s == "success"
  is_success _ = false

  abbrev pub upgraded : String → Option String → String
  upgraded severity none = severity
  upgraded severity (some s) =
      if ltb (severity_rank severity) (severity_rank s) then s else severity

  abbrev pub trusted : Bool → Option String → String → String
  trusted true (some risk) rest = risk
  trusted _ _ rest = rest

  -- the severity that the recommendations go by
  unfoldable pub effective_severity : InvestigationState F → String
  unfolding severity_rank
  effective_severity state =
      trusted (is_success (get "llm_status" state.reasoning))
        (level_of (get "risk_level" state.reasoning))
        (upgraded state.severity (level_of (get "severity" state.reasoning)))

  -- `PatternScore(...)` of one entry, `none` where it raises
  abbrev pub read_score : Value F → Option (NamedScore F)
  read_score (obj s) = Option.bind (to_float fl (get_or (num (pct 0)) (get "score" s))) (λ x.
      Option.map
        (λ _. record { pattern_name = get_or (str "unknown") (get "pattern_name" s); score = x })
        (to_float fl (get_or (num (pct 100)) (get "weight" s))))
  read_score _ = none

  abbrev pub read_all : List (Value F) → Option (List (NamedScore F))
  read_all [] = some []
  read_all (v ∷ vs) = Option.bind (read_score v) (λ p. Option.map (λ ps. p ∷ ps) (read_all vs))

  -- the list comprehension; a text or dict is iterated too, and its elements are no dicts
  unfoldable pub read_scores : Option (Value F) → Option (List (NamedScore F))
  read_scores none = some []
  read_scores (some (arr vs)) = read_all (items vs)
  read_scores (some (str s)) = if s == "" then some [] else none
  read_scores (some (obj end)) = some []
  read_scores (some _) = none

  -- `get_attr(m, "similarity_score") or get_attr(m, "score", 0.0)`
  abbrev pub match_score : Fields F → Option (Value F) → Value F
  match_score m (some v) = if truthy fl v then v else get_or (num (pct 0)) (get "score" m)
  match_score m none = get_or (num (pct 0)) (get "score" m)

  abbrev pub check_matches : List (Value F) → Option Bool
  check_matches [] = some true
  check_matches (m ∷ ms) =
      let d = as_dict (some m) in
      Option.bind (to_float fl (match_score d (get "similarity_score" d))) (λ _. check_matches ms)

  -- whether building the matches raises
  unfoldable pub read_matches : Option (Value F) → Option Bool
  read_matches none = some true
  read_matches (some (arr ms)) = check_matches (items ms)
  read_matches (some (str _)) = some true
  read_matches (some (obj _)) = some true
  read_matches (some _) = none

  -- `transaction.amount`, 0 where there is none
  abbrev pub amount_of : Fields F → Value F
  amount_of context = get_or (num (from_nat 0)) (get "amount" (as_dict (get "transaction" context)))

  -- the candidates of a state, `none` where the tool raises
  unfoldable pub candidates_of : InvestigationState F → Option (List Candidate)
  candidates_of state = Option.bind (read_scores (get "scores" state.pattern_results)) (λ scores.
      Option.bind (read_matches (get "matches" state.similarity_results)) (λ _.
        Option.bind
          (to_float fl (get_or (num (pct 0)) (get "overall_score" state.similarity_results)))
          (λ similarity.
            generate_recommendations fl scores similarity (effective_severity state)
              (amount_of state.context))))

  abbrev pub recommendation : Fields F → Candidate → Value F
  recommendation context c =
      let impact : Value F = str (impact_of c context) in
      obj (
        field "type" (str c.recommendation_type) (
          field "priority" (num (from_nat c.priority)) (
            field "title" (str c.title) (
              field "impact" impact (
                field "payload" (obj (field "title" (str c.title) (field "impact" impact end)))
                  (field "signature_hash" (str c.signature_hash) end))))))

  unfoldable pub recommendations : Fields F → List Candidate → Items F
  recommendations context [] = nil
  recommendations context (c ∷ cs) = cons (recommendation context c) (recommendations context cs)

  abbrev pub with_candidates : InvestigationState F → Option (List Candidate) → ToolOutcome F
  with_candidates state none = raised "could not convert to float"
  with_candidates state (some cs) =
      returned (record state { recommendations = recommendations state.context cs })

  -- `RecommendationTool.execute`
  unfoldable pub execute : InvestigationState F → ToolOutcome F
  execute state = with_candidates state (candidates_of state)

  unfoldable pub recommendation_tool : BaseTool F
  unfolding execute
  recommendation_tool = record {
    name = "recommendation_tool";
    description =
        "Generate fraud investigation recommendations based on evidence and reasoning results";
    execute = λ call state. execute state;
  }
