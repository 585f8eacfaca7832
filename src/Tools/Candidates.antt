-- ===== src/Tools/Candidates.antt =====
-- app/tools/_core/recommendation_logic.py: the recommendations that the scores call for. The
-- impact texts are rendered by the tool (Tools/Recommendation).
use mathlib.Core.Option
use card_fraud_ops_analyst_a.Prelude.{
  ℕ, String, Bool, true, false, Option, some, List, [], ◌∷◌, ◌&&◌, ◌||◌, if◌then◌else◌, ◌==◌,
  contains,
}
use card_fraud_ops_analyst_a.Value.{Value, str}
use card_fraud_ops_analyst_a.Floats.{Floats, to_float}

-- `RecommendationCandidate`, without the impact
pub record Candidate : Type 0 where
  pub recommendation_type : String
  pub priority : ℕ
  pub title : String
  pub signature_hash : String

abbrev pub candidate : String → ℕ → String → String → Candidate
candidate kind priority title signature = record {
  recommendation_type = kind;
  priority = priority;
  title = title;
  signature_hash = signature;
}

-- A pattern score as the tool reads it back: its name, which need not be a text, and its score.
pub record NamedScore (F : Type 0) : Type 0 where
  pub pattern_name : Value F
  pub score : F

abbrev pub add_if : Bool → Candidate → List Candidate → List Candidate
add_if true c cs = c ∷ cs
add_if false c cs = cs

-- the candidates, from the conditions of the `if`s in their order
unfoldable pub candidates_for :
    (severe testing velocity decline sustained cross amount time similar : Bool) → List Candidate
candidates_for severe testing velocity decline sustained cross amount time similar =
    add_if severe
      (candidate "review_priority" 1 "High-priority manual review required" "review_priority_1")
      (add_if testing
        (candidate "case_action" 1 "Escalate card-testing sequence investigation"
          "case_card_testing_1")
        (add_if velocity
          (candidate "case_action" 2 "Create velocity investigation case" "case_velocity_1")
          (add_if decline
            (candidate "rule_candidate" 3 "Refine velocity threshold for merchant cluster"
              "rule_decline_1")
            (add_if sustained
              (candidate "case_action" 2 "Escalate sustained decline anomaly case"
                "case_decline_escalation_1")
              (add_if cross
                (candidate "rule_candidate" 3 "Review cross-merchant spread controls"
                  "rule_cross_merchant_1")
                (add_if amount
                  (candidate "case_action" 2 "Validate amount anomaly against card baseline"
                    "case_amount_anomaly_1")
                  (add_if time
                    (candidate "case_action" 3 "Review temporal risk indicators"
                      "case_time_anomaly_1")
                    (add_if similar
                      (candidate "rule_candidate" 4 "Add cross-merchant pattern detection rule"
                        "rule_similarity_1")
                      []))))))))

-- `if not candidates`
unfoldable pub or_standard : List Candidate → List Candidate
or_standard [] =
    candidate "review_priority" 5 "Standard review — no significant anomalies" "standard_review_1"
    ∷ []
or_standard (c ∷ cs) = c ∷ cs

abbrev pub is_empty : List Candidate → Bool
is_empty [] = true
is_empty (_ ∷ _) = false

module _ {F : Type 0} (fl : Floats F) where
  open fl use {pct, le}

  abbrev pub is_named : String → Value F → Bool
  is_named name (str s) = s == name
  is_named name _ = false

  -- `_pattern_scores`
  unfoldable pub pattern_score : List (NamedScore F) → String → F
  pattern_score [] name = pct 0
  pattern_score (p ∷ ps) name =
      let rest = pattern_score ps name in
      if is_named name p.pattern_name && le (pct 0) p.score then p.score else rest

  abbrev pub fires : ℕ → List (NamedScore F) → String → Bool
  fires n scores name = le (pct n) (pattern_score scores name)

  -- the candidates before the standard review
  unfoldable pub fired : List (NamedScore F) → F → String → List Candidate
  fired scores similarity severity =
      candidates_for (contains severity ("CRITICAL" ∷ "HIGH" ∷ [])) (fires 60 scores "card_testing")
        (fires 60 scores "velocity") (fires 50 scores "decline_anomaly")
        (fires 80 scores "decline_anomaly") (fires 50 scores "cross_merchant")
        (fires 50 scores "amount_anomaly") (fires 50 scores "time_anomaly") (le (pct 50) similarity)

  -- `generate_recommendations`; `none` where the amount is no number in a text that shows it, which
  -- is that of the high-priority and of the standard review
  unfoldable pub generate_recommendations :
      List (NamedScore F) → F → String → Value F → Option (List Candidate)
  generate_recommendations scores similarity severity amount =
      let found = fired scores similarity severity in
      if contains severity ("CRITICAL" ∷ "HIGH" ∷ []) || is_empty found
      then Option.map (λ _. or_standard found) (to_float fl amount)
      else some found
