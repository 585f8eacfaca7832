-- ===== src/Tools/Reasoning/Evidence.antt =====
-- The evidence that `_calibrate_llm_severity` of app/tools/reasoning_tool.py reads of the state.
use card_fraud_ops_analyst_a.Prelude.{
  ℕ, ◌+◌, String, Bool, true, false, Option, none, some, List, [], ◌∷◌, ◌||◌, not, if◌then◌else◌,
  ◌==◌, contains, strip, upper, lower, length,
}
use card_fraud_ops_analyst_a.Value.{
  Value, bool, num, str, arr, obj, cons, items, Fields, get, as_dict, as_list, has_fields,
}
use card_fraud_ops_analyst_a.Floats.{Floats, max_f, eq_f, to_float, truthy}
use card_fraud_ops_analyst_a.Agent.State.{InvestigationState}

module _ {F : Type 0} (fl : Floats F) where
  open fl use {pct}

  -- `float(x or 0.0)`, and 0.0 where it raises
  abbrev pub float_or_zero : Option (Value F) → F
  float_or_zero none = pct 0
  float_or_zero (some v) =
      if truthy fl v then elim (to_float fl v) [ none ↦ pct 0 | some x ↦ x ] else pct 0

  abbrev pub dicts_of : List (Value F) → List (Fields F)
  dicts_of [] = []
  dicts_of (obj d ∷ vs) = d ∷ dicts_of vs
  dicts_of (_ ∷ vs) = dicts_of vs

  -- `_pattern_rows`
  abbrev pub pattern_rows : InvestigationState F → List (Fields F)
  pattern_rows state = dicts_of (items (as_list (get "scores" state.pattern_results)))

  -- the loop of `_max_pattern_score`
  abbrev pub max_row : F → List (Fields F) → F
  max_row best [] = best
  max_row best (row ∷ rows) = max_row (max_f fl best (float_or_zero (get "score" row))) rows

  -- `_max_pattern_score`
  unfoldable pub max_pattern_score : InvestigationState F → F
  max_pattern_score state = max_row (pct 0) (pattern_rows state)

  -- `score_by_name[name] = x`, in insertion order
  abbrev pub set_score : String → F → List (String × F) → List (String × F)
  set_score name x [] = (name, x) ∷ []
  set_score name x ((n, y) ∷ rest) =
      if n == name then (n, x) ∷ rest else (n, y) ∷ set_score name x rest

  abbrev pub add_row : Fields F → Option (Value F) → List (String × F) → List (String × F)
  add_row row (some (str name)) scores = set_score name (float_or_zero (get "score" row)) scores
  add_row row _ scores = scores

  abbrev pub add_rows : List (Fields F) → List (String × F) → List (String × F)
  add_rows [] scores = scores
  add_rows (row ∷ rows) scores = add_rows rows (add_row row (get "pattern_name" row) scores)

  -- `score_by_name`
  unfoldable pub score_by_name : InvestigationState F → List (String × F)
  score_by_name state = add_rows (pattern_rows state) []

  -- `score_by_name.get(name, 0.0)`
  unfoldable pub score_of : String → List (String × F) → F
  score_of name [] = pct 0
  score_of name ((n, x) ∷ rest) = if n == name then x else score_of name rest

  abbrev pub others : String → List (String × F) → List F
  others name [] = []
  others name ((n, x) ∷ rest) = if n == name then others name rest else x ∷ others name rest

  -- `max(xs, default=0.0)`
  abbrev pub max_of : List F → F
  max_of [] = pct 0
  max_of (x ∷ xs) = max_from x xs
    where
      max_from : F → List F → F
      max_from best [] = best
      max_from best (y ∷ ys) = max_from (max_f fl best y) ys

  -- `non_amount_pattern_max`
  unfoldable pub non_amount_pattern_max : List (String × F) → F
  non_amount_pattern_max scores = max_of (others "amount_anomaly" scores)

  -- `get_attr` on a value of the state: what is no dict has no such attribute.
  abbrev pub get_attr : Option (Value F) → String → Option (Value F)
  get_attr value key = get key (as_dict value)

  -- `_truthy`
  unfoldable pub is_true : Option (Value F) → Bool
  is_true (some (bool b)) = b
  is_true (some (num x)) = not (eq_f fl x (pct 0))
  is_true (some (str s)) = contains (lower (strip s)) ("true" ∷ "t" ∷ "1" ∷ "yes" ∷ "y" ∷ [])
  is_true _ = false

  abbrev pub count_if : Bool → ℕ
  count_if b = if b then 1 else 0

  -- `_counter_evidence_count`
  unfoldable pub counter_evidence_count : InvestigationState F → ℕ
  counter_evidence_count state =
      let seen =
        λ (key : String). is_true (get key (as_dict (get "transaction_context" state.context))) in
      let has = λ (key : String). is_true (get_attr (get "transaction" state.context) key) in
      count_if (seen "3ds_verified" || has "three_ds_authenticated")
      + (count_if (seen "trusted_device" || (has "device_trusted" || has "is_trusted_device"))
          + (count_if (seen "cardholder_present" || has "cardholder_present")
              + (count_if (seen "is_recurring_customer" || has "is_recurring_customer")
                  + (count_if (seen "known_merchant" || has "is_known_merchant")
                      + (count_if (seen "avs_match" || has "avs_match")
                          + (count_if (seen "cvv_match" || has "cvv_match")
                              + count_if (
                                  seen "tokenized"
                                  || (seen "payment_token_present"
                                      || (has "is_tokenized" || has "payment_token_present")))))))))

  -- `_similarity_summary`: the score and the number of matches
  unfoldable pub similarity_score : InvestigationState F → F
  similarity_score state = float_or_zero (get "overall_score" state.similarity_results)

  unfoldable pub similarity_match_count : InvestigationState F → ℕ
  similarity_match_count state = length (items (as_list (get "matches" state.similarity_results)))

  -- a list or a dict with something in it
  abbrev pub is_filled : Option (Value F) → Bool
  is_filled (some (arr (cons _ _))) = true
  is_filled (some (obj d)) = has_fields d
  is_filled _ = false

  abbrev pub any_counter : List (Value F) → Bool
  any_counter [] = false
  any_counter (m ∷ ms) = is_filled (get_attr (some m) "counter_evidence") || any_counter ms

  -- `_similarity_has_counter_evidence`
  unfoldable pub similarity_has_counter_evidence : InvestigationState F → Bool
  similarity_has_counter_evidence state =
      is_filled (get "counter_evidence" state.similarity_results)
      || any_counter (items (as_list (get "matches" state.similarity_results)))

  abbrev pub or_value : Option (Value F) → Option (Value F) → Option (Value F)
  or_value none other = other
  or_value (some v) other = if truthy fl v then some v else other

  abbrev pub decision_text : Option (Value F) → String
  decision_text (some (str s)) = upper (strip s)
  decision_text _ = ""

  -- `_decision`
  unfoldable pub decision : InvestigationState F → String
  decision state =
      let transaction = get "transaction" state.context in
      decision_text (or_value (get_attr transaction "decision") (get_attr transaction "status"))
