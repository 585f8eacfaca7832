-- ===== src/Tools/Reasoning/Sanitized.antt =====
-- What holds of the answers that `validate_llm_output` of app/tools/_core/reasoning_logic.py lets
-- through.
use card_fraud_ops_analyst_a.Prelude.{
  ℕ, suc, ◌≡◌, ◌≤◌, String, Bool, true, false, Option, none, some, List, [], ◌∷◌, ◌==◌, ◌&&◌,
  if◌then◌else◌, refl, arith, Bool-cases, inl, inr, contains, length, take, length-take-le,
  first_chars, true≢false_of, upper, strip, ◌∙◌, eq_iff,
}
use card_fraud_ops_analyst_a.Value.{
  Value, null, bool, num, str, arr, obj, items, items_of, Fields, get, get_or, remove, get-put,
  get-remove,
}
use card_fraud_ops_analyst_a.Floats.{Floats, to_float, min_f}
use card_fraud_ops_analyst_a.Agent.Planner.Repair.{InUnit, min_one-le, max_zero-InUnit}
use card_fraud_ops_analyst_a.Tools.Reasoning.Output.{
  Warning, Patterns, is_injected, valid_risk_levels, sensitive_keys, risk_change, confidence_change,
  confidence_of, clean_text, clean_findings, findings_change, clean_hypotheses, hypotheses_change,
  list_at, rebuilt, drop_keys, with_warnings, all_warnings, validate_llm_output,
}

module _ {F : Type 0} (fl : Floats F) (patterns : Patterns) where
  open fl use {pct, le}

  risk_change-valid :
      (v : Value F) → contains (risk_change fl patterns v).0 valid_risk_levels ≡ true
  unfolding risk_change contains
  risk_change-valid (str r) = elim (Bool-cases (contains (strip (upper r)) valid_risk_levels)) [
    | inl e ↦ rw (e, e) refl
    | inr e ↦ rw e refl
  ]
  risk_change-valid null = refl
  risk_change-valid (bool _) = refl
  risk_change-valid (num _) = refl
  risk_change-valid (arr _) = refl
  risk_change-valid (obj _) = refl

  -- a text that shows no injection
  abbrev pub IsClean : Value F → Type 0
  IsClean (str s) = is_injected patterns s ≡ false
  IsClean _ = ⊥

  unfoldable pub AllClean : List (Value F) → Type 0
  AllClean [] = Unit
  AllClean (v ∷ vs) = IsClean v × AllClean vs

  clean_text-IsClean :
      (limit : ℕ) (replacement : String) (w : Warning F) (s : String)
      → is_injected patterns replacement ≡ false
      → IsClean (clean_text fl patterns limit replacement w s).0
  clean_text-IsClean limit replacement w s h =
      elim (Bool-cases (is_injected patterns (first_chars limit s))) [
        | inl e ↦ rw e h
        | inr e ↦ rw e e
      ]

  clean_findings-AllClean :
      (i : ℕ) (vs : List (Value F))
      → is_injected patterns "[finding sanitized]" ≡ false
      → AllClean (clean_findings fl patterns i vs).0
  unfolding clean_findings AllClean
  clean_findings-AllClean i [] h = tt
  clean_findings-AllClean i (str s ∷ vs) h =
      (clean_text-IsClean 500 "[finding sanitized]" _ s h, clean_findings-AllClean (suc i) vs h)
  clean_findings-AllClean i (null ∷ vs) h = clean_findings-AllClean (suc i) vs h
  clean_findings-AllClean i (bool _ ∷ vs) h = clean_findings-AllClean (suc i) vs h
  clean_findings-AllClean i (num _ ∷ vs) h = clean_findings-AllClean (suc i) vs h
  clean_findings-AllClean i (arr _ ∷ vs) h = clean_findings-AllClean (suc i) vs h
  clean_findings-AllClean i (obj _ ∷ vs) h = clean_findings-AllClean (suc i) vs h

  clean_findings-length :
      (i : ℕ) (vs : List (Value F)) → length (clean_findings fl patterns i vs).0 ≤ length vs
  unfolding clean_findings
  clean_findings-length i [] = omega arith
  clean_findings-length i (str s ∷ vs) = omega (arith, clean_findings-length (suc i) vs)
  clean_findings-length i (null ∷ vs) = omega (arith, clean_findings-length (suc i) vs)
  clean_findings-length i (bool _ ∷ vs) = omega (arith, clean_findings-length (suc i) vs)
  clean_findings-length i (num _ ∷ vs) = omega (arith, clean_findings-length (suc i) vs)
  clean_findings-length i (arr _ ∷ vs) = omega (arith, clean_findings-length (suc i) vs)
  clean_findings-length i (obj _ ∷ vs) = omega (arith, clean_findings-length (suc i) vs)

  clean_hypotheses-length :
      (i : ℕ) (vs : List (Value F)) → length (clean_hypotheses fl patterns i vs).0 ≤ length vs
  unfolding clean_hypotheses
  clean_hypotheses-length i [] = omega arith
  clean_hypotheses-length i (str s ∷ vs) = omega (arith, clean_hypotheses-length (suc i) vs)
  clean_hypotheses-length i (null ∷ vs) = omega (arith, clean_hypotheses-length (suc i) vs)
  clean_hypotheses-length i (bool _ ∷ vs) = omega (arith, clean_hypotheses-length (suc i) vs)
  clean_hypotheses-length i (num _ ∷ vs) = omega (arith, clean_hypotheses-length (suc i) vs)
  clean_hypotheses-length i (arr _ ∷ vs) = omega (arith, clean_hypotheses-length (suc i) vs)
  clean_hypotheses-length i (obj _ ∷ vs) = omega (arith, clean_hypotheses-length (suc i) vs)

  findings-kept :
      (v : Value F)
      → is_injected patterns "[finding sanitized]" ≡ false
      → AllClean (findings_change fl patterns v).0 × (length (findings_change fl patterns v).0 ≤ 20)
  unfolding findings_change AllClean
  findings-kept (arr vs) h = (
    clean_findings-AllClean 0 (take 20 (items vs)) h,
    omega (arith, clean_findings-length 0 (take 20 (items vs)), length-take-le 20 (items vs)),
  )
  findings-kept null h = (tt, omega arith)
  findings-kept (bool _) h = (tt, omega arith)
  findings-kept (num _) h = (tt, omega arith)
  findings-kept (str _) h = (tt, omega arith)
  findings-kept (obj _) h = (tt, omega arith)

  hypotheses-length : (v : Value F) → length (hypotheses_change fl patterns v).0 ≤ 10
  unfolding hypotheses_change
  hypotheses-length (arr vs) =
      omega (arith, clean_hypotheses-length 0 (take 10 (items vs)), length-take-le 10 (items vs))
  hypotheses-length null = omega arith
  hypotheses-length (bool _) = omega arith
  hypotheses-length (num _) = omega arith
  hypotheses-length (str _) = omega arith
  hypotheses-length (obj _) = omega arith

  confidence_of-InUnit : (o : Option F) → InUnit fl (confidence_of fl patterns o).0
  confidence_of-InUnit none = (fl.pct_le 0 50 refl, fl.pct_le 50 100 refl)
  confidence_of-InUnit (some x) = elim (Bool-cases (le (pct 0) x && le x (pct 100))) [
    | inl e ↦ rw e (both (le (pct 0) x) (le x (pct 100)) e)
    | inr e ↦ rw e (max_zero-InUnit fl (min_f fl (pct 100) x) (min_one-le fl x))
  ]
    where
      both : (a b : Bool) → (a && b) ≡ true → (a ≡ true) × (b ≡ true)
      both a b h = ground arith

  confidence_change-InUnit : (o : Option (Value F)) → InUnit fl (confidence_change fl patterns o).0
  unfolding confidence_change
  confidence_change-InUnit none = confidence_of-InUnit none
  confidence_change-InUnit (some null) = confidence_of-InUnit none
  confidence_change-InUnit (some (bool b)) = confidence_of-InUnit (to_float fl (bool b))
  confidence_change-InUnit (some (num x)) = confidence_of-InUnit (to_float fl (num x))
  confidence_change-InUnit (some (str s)) = confidence_of-InUnit (to_float fl (str s))
  confidence_change-InUnit (some (arr vs)) = confidence_of-InUnit (to_float fl (arr vs))
  confidence_change-InUnit (some (obj fs)) = confidence_of-InUnit (to_float fl (obj fs))

  get-drop_keys :
      (k : String) (ks : List String) (d : Fields F)
      → get k (drop_keys fl patterns ks d) ≡ (if contains k ks then none else get k d)
  unfolding drop_keys contains
  get-drop_keys k [] d = refl
  get-drop_keys k (j ∷ ks) d = elim (Bool-cases (j == k)) [
    | inl e ↦
        rw e (get-drop_keys k ks (remove j d) ∙ gone (contains k ks) (get-remove k j d ∙ rw e refl))
    | inr e ↦ rw e (get-drop_keys k ks (remove j d) ∙ rw (get-remove k j d, e) refl)
  ]
    where
      gone : (b : Bool) {o : Option (Value F)} → o ≡ none → (if b then none else o) ≡ none
      gone true h = refl
      gone false h = h

  get-with_warnings :
      (k : String) (warning_text : Warning F → String) (ws : List (Warning F)) (d : Fields F)
      → ("_validation_warnings" == k) ≡ false
      → get k (with_warnings fl patterns warning_text ws d) ≡ get k d
  get-with_warnings k warning_text [] d h = refl
  get-with_warnings k warning_text (w ∷ ws) d h = get-put k "_validation_warnings" _ d ∙ rw h refl

  module _ (warning_text : Warning F → String) (parsed : Fields F) where
    abbrev answer : Fields F
    answer = (validate_llm_output fl patterns warning_text parsed).0

    get-answer :
        (k : String)
        → ("_validation_warnings" == k) ≡ false
        → get k answer
          ≡ (if contains k sensitive_keys then none else get k (rebuilt fl patterns parsed))
    unfolding validate_llm_output
    get-answer k h =
        get-with_warnings k warning_text (all_warnings fl patterns parsed) _ h
        ∙ get-drop_keys k sensitive_keys (rebuilt fl patterns parsed)

    get-confidence :
        get "confidence" (rebuilt fl patterns parsed)
        ≡ some (num (confidence_change fl patterns (get "confidence" parsed)).0)
    unfolding rebuilt
    get-confidence = simp get-put

    get-risk_level :
        get "risk_level" (rebuilt fl patterns parsed)
        ≡ some (str (risk_change fl patterns (get_or (str "MEDIUM") (get "risk_level" parsed))).0)
    unfolding rebuilt
    get-risk_level = simp get-put

    get-findings :
        get "key_findings" (rebuilt fl patterns parsed)
        ≡ some (
            arr (
              items_of (findings_change fl patterns (list_at fl patterns "key_findings" parsed)).0))
    unfolding rebuilt
    get-findings = simp get-put

    get-hypotheses :
        get "hypotheses" (rebuilt fl patterns parsed)
        ≡ some (
            arr (
              items_of (hypotheses_change fl patterns (list_at fl patterns "hypotheses" parsed)).0))
    unfolding rebuilt
    get-hypotheses = simp get-put

  -- an answer whose confidence is a number between 0 and 1, whose risk level is one of the five,
  -- with at most 20 findings, all clean texts, at most 10 hypotheses, and no sensitive key
  pub record IsSane (out : Fields F) : Type 0 where
    pub confidence : (x : F) × (get "confidence" out ≡ some (num x)) × InUnit fl x
    pub risk :
        (r : String) × (get "risk_level" out ≡ some (str r)) × (contains r valid_risk_levels ≡ true)
    pub findings :
        (vs : List (Value F)) × (get "key_findings" out ≡ some (arr (items_of vs)))
        × AllClean vs
        × (length vs ≤ 20)
    pub hypotheses :
        (vs : List (Value F)) × (get "hypotheses" out ≡ some (arr (items_of vs))) × (length vs ≤ 10)
    pub no_secret : (k : String) → contains k sensitive_keys ≡ true → get k out ≡ none

  not_warnings :
      (k : String) → contains k sensitive_keys ≡ true → ("_validation_warnings" == k) ≡ false
  unfolding contains
  not_warnings k h = elim (Bool-cases ("_validation_warnings" == k)) [
    | inl e ↦ absurd (true≢false_of (rw (← (eq_iff "_validation_warnings" k).0 e) at h) refl)
    | inr e ↦ e
  ]

  -- Whatever the LLM answers, if the text that replaces a suspicious finding matches no pattern,
  -- the validated answer has a confidence between 0 and 1 (for NaN and infinities too), one of the
  -- five risk levels, at most 20 key findings, each a text that matches no injection pattern, at
  -- most 10 hypotheses, and none of the six sensitive keys.
  pub validate_llm_output-IsSane :
      (warning_text : Warning F → String) (parsed : Fields F)
      → is_injected patterns "[finding sanitized]" ≡ false
      → IsSane (validate_llm_output fl patterns warning_text parsed).0
  unfolding contains
  validate_llm_output-IsSane warning_text parsed h =
      let kept = findings-kept (list_at fl patterns "key_findings" parsed) h in
      record {
        confidence = (
          _,
          get-answer warning_text parsed "confidence" refl ∙ get-confidence warning_text parsed,
          confidence_change-InUnit (get "confidence" parsed),
        );
        risk = (
          _,
          get-answer warning_text parsed "risk_level" refl ∙ get-risk_level warning_text parsed,
          risk_change-valid (get_or (str "MEDIUM") (get "risk_level" parsed)),
        );
        findings = (
          _,
          get-answer warning_text parsed "key_findings" refl ∙ get-findings warning_text parsed,
          kept.0,
          kept.1,
        );
        hypotheses = (
          _,
          get-answer warning_text parsed "hypotheses" refl ∙ get-hypotheses warning_text parsed,
          hypotheses-length (list_at fl patterns "hypotheses" parsed),
        );
        no_secret =
            λ k secret. get-answer warning_text parsed k (not_warnings k secret) ∙ rw secret refl;
      }
