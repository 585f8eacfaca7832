-- ===== src/Tools/Recommendation/Effect.antt =====
-- What the recommendation tool (app/tools/recommendation_tool.py) leaves, and what the planner
-- makes of it.
use card_fraud_ops_analyst_a.Prelude.{
  ◌≤◌, ◌≡◌, String, Bool, true, false, Option, none, some, List, [], ◌∷◌, ◌||◌, ◌==◌, contains,
  upper, lower, is_infix, arith, refl, inl, inr, sym, ap, ◌∙◌, Bool-cases, Option-cases,
  bind-eq-some, some_inj, map-eq-some,
}
use card_fraud_ops_analyst_a.Value.{Value, num, get_or, Fields, items, get}
use card_fraud_ops_analyst_a.Floats.{Floats, to_float}
use card_fraud_ops_analyst_a.Agent.State.{
  InvestigationState, returned, returned_inj, raised_ne_returned,
}
use card_fraud_ops_analyst_a.Agent.Executor.Effect.{SameControl}
use card_fraud_ops_analyst_a.Agent.Planner.Rules.{any_rule, should_attempt_rule_draft}
use card_fraud_ops_analyst_a.Tools.Candidates.{
  Candidate, NamedScore, add_if, candidates_for, or_standard, is_empty, fires, fired,
  generate_recommendations,
}
use card_fraud_ops_analyst_a.Tools.Recommendation.{
  severity_rank, level_of, is_success, upgraded, effective_severity, read_scores, amount_of,
  candidates_of, recommendations, execute,
}

-- a candidate whose type speaks of a rule
abbrev pub is_rule : Candidate → Bool
is_rule c = is_infix "rule" (lower c.recommendation_type)

abbrev pub any_rule_in : List Candidate → Bool
any_rule_in [] = false
any_rule_in (c ∷ cs) = is_rule c || any_rule_in cs

add_rule :
    (b : Bool) (c : Candidate) (cs : List Candidate)
    → is_rule c ≡ true
    → any_rule_in (add_if b c cs) ≡ (b || any_rule_in cs)
add_rule true c cs h = ground (arith, h)
add_rule false c cs h = refl

add_other :
    (b : Bool) (c : Candidate) (cs : List Candidate)
    → is_rule c ≡ false
    → any_rule_in (add_if b c cs) ≡ any_rule_in cs
add_other true c cs h = ground (arith, h)
add_other false c cs h = refl

or_false : (b : Bool) → (b || false) ≡ b
or_false true = refl
or_false false = refl

candidates-any_rule :
    (severe testing velocity decline sustained cross amount time similar : Bool)
    → any_rule_in
        (candidates_for severe testing velocity decline sustained cross amount time similar)
      ≡ (decline || (cross || similar))
unfolding candidates_for is_infix lower
candidates-any_rule severe testing velocity decline sustained cross amount time similar =
    add_other severe _ _ refl
    ∙ (add_other testing _ _ refl
        ∙ (add_other velocity _ _ refl
            ∙ (add_rule decline _ _ refl
                ∙ ap (λ x. decline || x)
                    (add_other sustained _ _ refl
                      ∙ (add_rule cross _ _ refl
                          ∙ ap (λ x. cross || x)
                              (add_other amount _ _ refl
                                ∙ (add_other time _ _ refl
                                    ∙ (add_rule similar _ [] refl ∙ or_false similar))))))))

any_rule_in-or_standard : (cs : List Candidate) → any_rule_in (or_standard cs) ≡ any_rule_in cs
unfolding or_standard is_infix lower
any_rule_in-or_standard [] = refl
any_rule_in-or_standard (c ∷ cs) = refl

module _ {F : Type 0} (fl : Floats F) (impact_of : Candidate → Fields F → String) where
  open fl use {pct, le, text_of-str}

  -- the planner's test on the tool's dicts
  any_rule-recommendations :
      (context : Fields F) (cs : List Candidate)
      → any_rule fl (items (recommendations fl impact_of context cs)) ≡ any_rule_in cs
  unfolding any_rule recommendations get
  any_rule-recommendations context [] = refl
  any_rule-recommendations context (c ∷ cs) =
      rw (text_of-str c.recommendation_type, any_rule-recommendations context cs) refl

  generate-any_rule :
      (scores : List (NamedScore F)) (similarity : F) (severity : String) (amount : Value F)
      (cs : List Candidate)
      → generate_recommendations fl scores similarity severity amount ≡ some cs
      → any_rule_in cs ≡ any_rule_in (fired fl scores similarity severity)
  unfolding generate_recommendations
  generate-any_rule scores similarity severity amount cs h =
      let found = fired fl scores similarity severity in
      elim (Bool-cases (contains severity ("CRITICAL" ∷ "HIGH" ∷ []) || is_empty found)) [
        | inl e ↦
            let (_, _, same) =
              map-eq-some (λ _. or_standard found) (to_float fl amount) cs (rw e at h) in
            ap any_rule_in (sym same) ∙ any_rule_in-or_standard found
        | inr e ↦ ap any_rule_in (sym (some_inj found cs (rw e at h)))
      ]

  -- the scores at which a rule is recommended
  abbrev pub wants_rule : List (NamedScore F) → F → Bool
  wants_rule scores similarity =
      fires fl 50 scores "decline_anomaly"
      || (fires fl 50 scores "cross_merchant" || le (pct 50) similarity)

  -- What a successful run of the tool leaves, from the scores that it read.
  pub record IsRecommended (s t : InvestigationState F) : Type 0 where
    pub control : SameControl s t
    pub scores : List (NamedScore F)
    pub similarity : F
    pub read : read_scores fl impact_of (get "scores" s.pattern_results) ≡ some scores
    pub similar :
        to_float fl (get_or (num (pct 0)) (get "overall_score" s.similarity_results))
        ≡ some similarity
    pub due : should_attempt_rule_draft fl t ≡ (
        (upper s.severity == "HIGH" || upper s.severity == "CRITICAL")
        || wants_rule scores similarity)

  candidates-IsRecommended :
      (s : InvestigationState F) (cs : List Candidate)
      → candidates_of fl impact_of s ≡ some cs
      → IsRecommended s (record s { recommendations = recommendations fl impact_of s.context cs })
  unfolding candidates_of should_attempt_rule_draft fired
  candidates-IsRecommended s cs h =
      let (scores, read, rest) = bind-eq-some _ _ cs h in
      let (_, _, rest') = bind-eq-some _ _ cs rest in
      let (similarity, similar, generated) = bind-eq-some _ _ cs rest' in
      let rules =
        generate-any_rule scores similarity (effective_severity fl impact_of s)
          (amount_of fl impact_of s.context) cs generated in
      record {
        control = record {
          completed = refl;
          executions = refl;
          decisions = refl;
          steps = refl;
          limit = refl;
        };
        scores = scores;
        similarity = similarity;
        read = read;
        similar = similar;
        due =
            ap (λ x. (upper s.severity == "HIGH" || upper s.severity == "CRITICAL") || x)
              (any_rule-recommendations s.context cs
                ∙ (rules ∙ candidates-any_rule _ _ _ _ _ _ _ _ _));
      }

  -- If the recommendation tool returns, it has touched no control field, and the rule sequence then
  -- wants a rule draft exactly if the severity of the state is HIGH or CRITICAL, or the decline or
  -- cross-merchant score that the tool read or the similarity score is at least 0.5.
  pub execute-IsRecommended :
      (s t : InvestigationState F) → execute fl impact_of s ≡ returned t → IsRecommended s t
  unfolding execute
  execute-IsRecommended s t h = elim (Option-cases (candidates_of fl impact_of s)) [
    | inl e ↦ absurd (raised_ne_returned (rw e at h))
    | inr (cs, e) ↦ rw (← returned_inj _ t (rw e at h)) (candidates-IsRecommended s cs e)
  ]

  upgraded-not_lower :
      (severity : String) (level : Option String)
      → severity_rank severity ≤ severity_rank (upgraded fl impact_of severity level)
  upgraded-not_lower severity none = ground arith
  upgraded-not_lower severity (some s) = ground arith

  -- Unless the reasoning succeeded, the recommendations go by a severity that is not below that of
  -- the state.
  pub effective_severity-not_lower :
      (state : InvestigationState F)
      → is_success fl impact_of (get "llm_status" state.reasoning) ≡ false
      → severity_rank state.severity ≤ severity_rank (effective_severity fl impact_of state)
  unfolding effective_severity
  effective_severity-not_lower state h =
      rw h
        (upgraded-not_lower state.severity (level_of fl impact_of (get "severity" state.reasoning)))
