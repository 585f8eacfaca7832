-- ===== src/Tools/PatternTool.antt =====
-- app/tools/pattern_tool.py, with `append_evidence` of app/tools/evidence.py and `to_dict_list` of
-- app/utils/dataclass_utils.py.
pub mod Effect
use card_fraud_ops_analyst_a.Prelude.{
  ℕ, ◌≡◌, String, Bool, true, false, Option, none, some, List, [], ◌∷◌, if◌then◌else◌, map,
}
use card_fraud_ops_analyst_a.Value.{
  Value, num, str, arr, obj, Items, nil, cons, Fields, end, field, has_fields, append_item,
}
use card_fraud_ops_analyst_a.Floats.{Floats, max_f}
use card_fraud_ops_analyst_a.Agent.State.{
  InvestigationState, BaseTool, ToolOutcome, returned, raised,
}
use card_fraud_ops_analyst_a.Scoring.Tally.{PatternScore}
use card_fraud_ops_analyst_a.Scoring.Severity.{
  Thresholds, ScoringContext, run_pattern_scoring, compute_severity, severity_text, weighted,
}

-- `scoring_of` reads the context dict with its window objects; `description` is the text of the
-- evidence entry.
module _ {F : Type 0} (fl : Floats F) (iso_hour instant : String → Option ℕ)
    (scoring_of : Fields F → ScoringContext F) (description : ℕ → String) where
  open fl use {pct, lt, div, sum}

  -- `to_dict`
  abbrev pub score_dict : PatternScore F → Value F
  score_dict s = obj (
      field "pattern_name" (str s.pattern_name) (
        field "score" (num s.score)
          (field "weight" (num s.weight) (field "details" (obj s.details) end))))

  abbrev pub score_dicts : List (PatternScore F) → Items F
  score_dicts [] = nil
  score_dicts (s ∷ ss) = cons (score_dict s) (score_dicts ss)

  -- `patterns_detected`
  unfoldable pub detected : List (PatternScore F) → Items F
  detected [] = nil
  detected (s ∷ ss) =
      let rest = detected ss in if lt (pct 50) s.score then cons (str s.pattern_name) rest else rest

  abbrev pub count_items : Items F → ℕ
  count_items nil = 0
  count_items (cons _ vs) = Prim.Native.Nat.suc (count_items vs)

  -- `overall_score`
  abbrev pub overall_score : List (PatternScore F) → F
  overall_score ss =
      div (sum (map (weighted fl) ss))
        (max_f fl (sum (map (λ (s : PatternScore F). s.weight) ss)) (pct 100))

  abbrev pub results_of : List (PatternScore F) → Fields F
  results_of ss = field "scores" (arr (score_dicts ss)) (
      field "overall_score" (num (overall_score ss))
        (field "patterns_detected" (arr (detected ss)) end))

  -- `EvidenceEntry.to_dict`
  abbrev pub evidence_of : List (PatternScore F) → Value F
  evidence_of ss = obj (
      field "category" (str "pattern_analysis") (
        field "tool" (str "pattern_tool") (
          field "description" (str (description (count_items (detected ss))))
            (field "data" (obj (results_of ss)) end))))

  abbrev pub with_scores : InvestigationState F → Option (List (PatternScore F)) → ToolOutcome F
  with_scores state none = raised "could not convert to float"
  with_scores state (some ss) = returned (record state {
    evidence = append_item state.evidence (evidence_of ss);
    pattern_results = results_of ss;
    severity = severity_text (compute_severity fl ss);
  })

  -- `PatternTool.execute`
  unfoldable pub execute : Thresholds F → InvestigationState F → ToolOutcome F
  execute th state =
      if has_fields state.context
      then with_scores state (run_pattern_scoring fl iso_hour instant (scoring_of state.context) th)
      else raised "Context must be populated before pattern analysis"

  unfoldable pub pattern_tool : Thresholds F → BaseTool F
  unfolding execute
  pattern_tool th = record {
    name = "pattern_tool";
    description = "Analyze transaction for fraud patterns";
    execute = λ call state. execute th state;
  }
