-- ===== src/Tools/Reasoning/Output.antt =====
-- `scan_for_injection` and `validate_llm_output` of app/tools/_core/reasoning_logic.py. The
-- searches of the regular expressions are `patterns`; a warning is its data, which `warning_text`
-- renders.
use Prim.Native.String.{◌++◌ as append}
use card_fraud_ops_analyst_a.Prelude.{
  ℕ, suc, String, Bool, true, false, Option, none, some, List, [], ◌∷◌, ◌++◌, ◌==◌, ◌&&◌,
  if◌then◌else◌, contains, strip, upper, take, length, leb, first_chars, text_length, is_some,
}
use card_fraud_ops_analyst_a.Value.{
  Value, null, num, str, arr, obj, nil, items, items_of, Fields, end, get, get_or, put, remove,
}
use card_fraud_ops_analyst_a.Floats.{Floats, truthy, to_float, max_f, min_f}

pub data Warning (F : Type 0) : Type 0 where
  narrative_truncated : ℕ → Warning F
  narrative_injection : Warning F
  risk_normalized : String → Warning F
  risk_invalid : Warning F
  confidence_clamped : F → F → Warning F
  confidence_invalid : Warning F
  finding_injection : ℕ → Warning F
  findings_truncated : ℕ → Warning F
  findings_invalid : Warning F
  hypothesis_injection : ℕ → Warning F
  hypotheses_truncated : ℕ → Warning F
  removed_key : String → Warning F

abbrev pub valid_risk_levels : List String
valid_risk_levels = "CRITICAL" ∷ "HIGH" ∷ "MEDIUM" ∷ "LOW" ∷ "UNKNOWN" ∷ []

abbrev pub max_narrative_length : ℕ
max_narrative_length = 2000

abbrev pub max_findings_count : ℕ
max_findings_count = 20

abbrev pub max_hypotheses_count : ℕ
max_hypotheses_count = 10

abbrev pub sensitive_keys : List String
sensitive_keys = "system" ∷ "instruction" ∷ "override" ∷ "password" ∷ "secret" ∷ "token" ∷ []

-- `PROMPT_INJECTION_PATTERNS`: the source of each pattern, and its search
abbrev pub Patterns : Type 0
Patterns = List (String × (String → Bool))

abbrev pub detected : Patterns → String → List String
detected [] text = []
detected ((source, search) ∷ rest) text =
    let later = detected rest text in
    if search text then append "matched pattern: " (first_chars 50 source) ∷ later else later

-- `scan_for_injection`, of a text
unfoldable pub scan_for_injection : Patterns → String → List String
scan_for_injection patterns text = if text == "" then [] else detected patterns text

abbrev pub any_found : List String → Bool
any_found [] = false
any_found (_ ∷ _) = true

unfoldable pub is_injected : Patterns → String → Bool
unfolding scan_for_injection
is_injected patterns text = any_found (scan_for_injection patterns text)

module _ {F : Type 0} (fl : Floats F) (patterns : Patterns) where
  open fl use {pct, le, text_of}

  -- the narrative: what to put in its place, and the warnings
  abbrev pub narrative_change : Value F → Option (Value F) × List (Warning F)
  narrative_change (str s) =
      let long = leb (suc max_narrative_length) (text_length s) in
      let cut = if long then narrative_truncated (text_length s) ∷ [] else [] in
      if is_injected patterns s
      then (
        some (str "[content sanitized due to detected pattern]"),
        cut ++ narrative_injection ∷ [],
      )
      else (
        if long
            then some (str (append (first_chars max_narrative_length s) "...[truncated]"))
            else none,
        cut,
      )
  narrative_change _ = (none, [])

  unfoldable pub risk_change : Value F → String × List (Warning F)
  risk_change (str r) =
      let level = strip (upper r) in
      if contains level valid_risk_levels then (level, []) else ("MEDIUM", risk_normalized r ∷ [])
  risk_change _ = ("MEDIUM", risk_invalid ∷ [])

  -- `max(0.0, min(1.0, x))`
  abbrev pub clamped : F → F
  clamped x = max_f fl (pct 0) (min_f fl (pct 100) x)

  abbrev pub confidence_of : Option F → F × List (Warning F)
  confidence_of none = (pct 50, confidence_invalid ∷ [])
  confidence_of (some x) =
      if le (pct 0) x && le x (pct 100)
      then (x, [])
      else (clamped x, confidence_clamped x (clamped x) ∷ [])

  unfoldable pub confidence_change : Option (Value F) → F × List (Warning F)
  confidence_change none = (pct 50, [])
  confidence_change (some null) = (pct 50, [])
  confidence_change (some v) = confidence_of (to_float fl v)

  -- `text[:limit]`, replaced where it is suspicious
  abbrev pub clean_text : ℕ → String → Warning F → String → Value F × List (Warning F)
  clean_text limit replacement warning s =
      let cut = first_chars limit s in
      if is_injected patterns cut then (str replacement, warning ∷ []) else (str cut, [])

  abbrev pub with_item :
      Value F × List (Warning F)
      → List (Value F) × List (Warning F)
      → List (Value F) × List (Warning F)
  with_item (v, ws) (vs, later) = (v ∷ vs, ws ++ later)

  -- the loop over the findings, from the index
  unfoldable pub clean_findings : ℕ → List (Value F) → List (Value F) × List (Warning F)
  clean_findings i [] = ([], [])
  clean_findings i (str s ∷ vs) =
      with_item (clean_text 500 "[finding sanitized]" (finding_injection i) s)
        (clean_findings (suc i) vs)
  clean_findings i (_ ∷ vs) = clean_findings (suc i) vs

  abbrev pub if_longer : ℕ → List (Value F) → Warning F → List (Warning F)
  if_longer limit vs w = if leb (suc limit) (length vs) then w ∷ [] else []

  unfoldable pub findings_change : Value F → List (Value F) × List (Warning F)
  findings_change (arr vs) =
      let all = items vs in
      let (found, ws) = clean_findings 0 (take max_findings_count all) in
      (found, ws ++ if_longer max_findings_count all (findings_truncated (length all)))
  findings_change _ = ([], findings_invalid ∷ [])

  -- `if x := hyp.get(key): …`
  abbrev pub put_truthy : String → (Value F → Value F) → Option (Value F) → Fields F → Fields F
  put_truthy key f none done = done
  put_truthy key f (some v) done = if truthy fl v then put key (f v) done else done

  abbrev pub clamped_or_half : Option F → Value F
  clamped_or_half none = num (pct 50)
  clamped_or_half (some x) = num (clamped x)

  abbrev pub list_or_empty : Value F → Value F
  list_or_empty (arr vs) = arr vs
  list_or_empty _ = arr nil

  abbrev pub clean_hypothesis : Fields F → Fields F
  clean_hypothesis hyp =
      put_truthy "contradicting_evidence" list_or_empty (get "contradicting_evidence" hyp) (
        put_truthy "supporting_evidence" list_or_empty (get "supporting_evidence" hyp) (
          put_truthy "confidence" (λ c. clamped_or_half (to_float fl c)) (get "confidence" hyp)
            (put_truthy "hypothesis" (λ h. str (first_chars 300 (text_of h))) (get "hypothesis" hyp)
              end)))

  unfoldable pub clean_hypotheses : ℕ → List (Value F) → List (Value F) × List (Warning F)
  clean_hypotheses i [] = ([], [])
  clean_hypotheses i (obj hyp ∷ vs) =
      with_item (obj (clean_hypothesis hyp), []) (clean_hypotheses (suc i) vs)
  clean_hypotheses i (str s ∷ vs) =
      with_item (clean_text 300 "[hypothesis sanitized]" (hypothesis_injection i) s)
        (clean_hypotheses (suc i) vs)
  clean_hypotheses i (_ ∷ vs) = clean_hypotheses (suc i) vs

  unfoldable pub hypotheses_change : Value F → List (Value F) × List (Warning F)
  hypotheses_change (arr vs) =
      let all = items vs in
      let (kept, ws) = clean_hypotheses 0 (take max_hypotheses_count all) in
      (kept, ws ++ if_longer max_hypotheses_count all (hypotheses_truncated (length all)))
  hypotheses_change _ = ([], [])

  -- `[str(x)[:200] for x in xs if isinstance(x, str)]`
  abbrev pub short_texts : List (Value F) → List (Value F)
  short_texts [] = []
  short_texts (str s ∷ vs) = str (first_chars 200 s) ∷ short_texts vs
  short_texts (_ ∷ vs) = short_texts vs

  unfoldable pub texts_of : ℕ → Value F → List (Value F)
  texts_of limit (arr vs) = take limit (short_texts (items vs))
  texts_of limit _ = []

  -- the list of a key, `[]` where it is missing
  abbrev pub list_at : String → Fields F → Value F
  list_at key parsed = get_or (arr nil) (get key parsed)

  abbrev pub put_some : String → Option (Value F) → Fields F → Fields F
  put_some key none done = done
  put_some key (some v) done = put key v done

  abbrev pub put_list : String → List (Value F) → Fields F → Fields F
  put_list key vs done = put key (arr (items_of vs)) done

  -- the dict before the sensitive keys are removed
  unfoldable pub rebuilt : Fields F → Fields F
  rebuilt parsed =
      put_list "evidence_citations" (texts_of 20 (list_at "evidence_citations" parsed)) (
        put_list "what_would_change_mind" (texts_of 10 (list_at "what_would_change_mind" parsed)) (
          put_list "unknowns" (texts_of 10 (list_at "unknowns" parsed)) (
            put_list "known_facts" (texts_of 10 (list_at "known_facts" parsed)) (
              put_list "hypotheses" (hypotheses_change (list_at "hypotheses" parsed)).0 (
                put_list "key_findings" (findings_change (list_at "key_findings" parsed)).0 (
                  put "confidence" (num (confidence_change (get "confidence" parsed)).0) (
                    put "risk_level"
                      (str (risk_change (get_or (str "MEDIUM") (get "risk_level" parsed))).0)
                      (put_some "narrative"
                        (narrative_change (get_or (str "") (get "narrative" parsed))).0
                        parsed))))))))

  abbrev pub warnings_of : Fields F → List (Warning F)
  warnings_of parsed =
      (narrative_change (get_or (str "") (get "narrative" parsed))).1
      ++ (risk_change (get_or (str "MEDIUM") (get "risk_level" parsed))).1
      ++ (confidence_change (get "confidence" parsed)).1
      ++ (findings_change (list_at "key_findings" parsed)).1
      ++ (hypotheses_change (list_at "hypotheses" parsed)).1

  -- `for sensitive_key in …: if sensitive_key in sanitized: del sanitized[sensitive_key]`
  unfoldable pub drop_keys : List String → Fields F → Fields F
  drop_keys [] done = done
  drop_keys (k ∷ ks) done = drop_keys ks (remove k done)

  abbrev pub dropped : List String → Fields F → List (Warning F)
  dropped [] done = []
  dropped (k ∷ ks) done =
      let later = dropped ks (remove k done) in
      if is_some (get k done) then removed_key k ∷ later else later

  abbrev pub all_warnings : Fields F → List (Warning F)
  all_warnings parsed = warnings_of parsed ++ dropped sensitive_keys (rebuilt parsed)

  abbrev pub rendered : (Warning F → String) → List (Warning F) → List (Value F)
  rendered warning_text [] = []
  rendered warning_text (w ∷ ws) = str (warning_text w) ∷ rendered warning_text ws

  abbrev pub with_warnings : (Warning F → String) → List (Warning F) → Fields F → Fields F
  with_warnings warning_text [] done = done
  with_warnings warning_text (w ∷ ws) done =
      put_list "_validation_warnings" (rendered warning_text (w ∷ ws)) done

  -- `validate_llm_output`
  unfoldable pub validate_llm_output : (Warning F → String) → Fields F → Fields F × List (Warning F)
  unfolding rebuilt drop_keys
  validate_llm_output warning_text parsed = (
    with_warnings warning_text (all_warnings parsed) (drop_keys sensitive_keys (rebuilt parsed)),
    all_warnings parsed,
  )
