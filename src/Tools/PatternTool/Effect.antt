-- ===== src/Tools/PatternTool/Effect.antt =====
-- What the pattern tool (app/tools/pattern_tool.py) does to the state.
use card_fraud_ops_analyst_a.Prelude.{
  ℕ, ◌≡◌, String, true, Option, none, some, List, refl, Bool-cases, inl, inr, contains,
}
use card_fraud_ops_analyst_a.Value.{Value, Fields, end, get, has_fields}
use card_fraud_ops_analyst_a.Floats.{Floats}
use card_fraud_ops_analyst_a.Agent.State.{
  InvestigationState, returned, returned_inj, raised_ne_returned,
}
use card_fraud_ops_analyst_a.Agent.Executor.Effect.{SameControl}
use card_fraud_ops_analyst_a.Agent.Completion.{
  final_scores, compute_final_confidence, valid_severities,
}
use card_fraud_ops_analyst_a.Scoring.Tally.{PatternScore}
use card_fraud_ops_analyst_a.Scoring.Severity.{
  Severity, low, medium, high, critical, severity_text, Thresholds, ScoringContext,
  run_pattern_scoring, compute_severity,
}
use card_fraud_ops_analyst_a.Tools.PatternTool.{with_scores, execute}

severity_text-valid : (v : Severity) → contains (severity_text v) valid_severities ≡ true
unfolding contains
severity_text-valid low = refl
severity_text-valid medium = refl
severity_text-valid high = refl
severity_text-valid critical = refl

module _ {F : Type 0} (fl : Floats F) (loads : String → Option (Value F))
    (iso_hour instant : String → Option ℕ) (scoring_of : Fields F → ScoringContext F)
    (description : ℕ → String) where
  -- What a successful run of the pattern tool leaves.
  pub record IsScored (s t : InvestigationState F) : Type 0 where
    pub control : SameControl s t
    pub level : contains t.severity valid_severities ≡ true
    pub unread :
        compute_final_confidence fl loads t
        ≡ compute_final_confidence fl loads (record t { pattern_results = end })

  with_scores-IsScored :
      (s : InvestigationState F) (o : Option (List (PatternScore F))) (t : InvestigationState F)
      → with_scores fl iso_hour instant scoring_of description s o ≡ returned t
      → IsScored s t
  unfolding compute_final_confidence final_scores get
  with_scores-IsScored s none t h = cc
  with_scores-IsScored s (some ss) t h = rw (← returned_inj _ t h) (record {
    control = record {
      completed = refl;
      executions = refl;
      decisions = refl;
      steps = refl;
      limit = refl;
    };
    level = severity_text-valid (compute_severity fl ss);
    unread = refl;
  })

  -- If the pattern tool returns, it has touched no control field, the severity is one of the four
  -- levels, and its results are not read by the final confidence: `_compute_final_confidence` of
  -- the new state is what it is without any pattern results.
  pub execute-IsScored :
      (th : Thresholds F) (s t : InvestigationState F)
      → execute fl iso_hour instant scoring_of description th s ≡ returned t
      → IsScored s t
  unfolding execute
  execute-IsScored th s t h = elim (Bool-cases (has_fields s.context)) [
    | inl e ↦
        with_scores-IsScored s (run_pattern_scoring fl iso_hour instant (scoring_of s.context) th) t
          (rw e at h)
    | inr e ↦ absurd (raised_ne_returned (rw e at h))
  ]

  with_scores-status :
      (s : InvestigationState F) (o : Option (List (PatternScore F))) (t : InvestigationState F)
      → with_scores fl iso_hour instant scoring_of description s o ≡ returned t
      → t.status ≡ s.status
  with_scores-status s none t h = cc
  with_scores-status s (some ss) t h = rw (← returned_inj _ t h) refl

  -- The tool leaves the status alone.
  pub execute-status :
      (th : Thresholds F) (s t : InvestigationState F)
      → execute fl iso_hour instant scoring_of description th s ≡ returned t
      → t.status ≡ s.status
  unfolding execute
  execute-status th s t h = elim (Bool-cases (has_fields s.context)) [
    | inl e ↦ with_scores-status s _ t (rw e at h)
    | inr e ↦ absurd (raised_ne_returned (rw e at h))
  ]
