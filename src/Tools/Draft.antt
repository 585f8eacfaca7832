-- ===== src/Tools/Draft.antt =====
-- app/tools/_core/rule_draft_logic.py: the draft of a rule from a recommendation and evidence, and
-- its validation. Where the code raises, the result is `none`.
use Prim.Native.String.{◌++◌ as append}
use mathlib.Core.Option
use card_fraud_ops_analyst_a.Prelude.{
  String, Bool, true, false, Option, none, some, List, [], ◌∷◌, ◌++◌, ◌||◌, if◌then◌else◌, ◌==◌,
  leb, contains, lower, strip, is_infix, first_chars, take, text_length,
}
use card_fraud_ops_analyst_a.Value.{
  Value, null, bool, num, str, arr, obj, items, items_of, Fields, end, field, get, get_or,
}
use card_fraud_ops_analyst_a.Floats.{Floats, truthy}

pub record RuleCondition (F : Type 0) : Type 0 where
  pub field_name : String
  pub operator : String
  pub value : Value F
  pub logical_op : String

pub record RuleDraftPayload (F : Type 0) : Type 0 where
  pub rule_name : String
  pub rule_description : String
  pub conditions : List (RuleCondition F)
  pub thresholds : List (String × F)
  pub metadata : Fields F

-- One evidence item: `evidence_kind` and `evidence_payload`.
pub record Evidence (F : Type 0) : Type 0 where
  pub evidence_kind : Value F
  pub evidence_payload : Value F

-- What an item is read as: the pattern's name and its score.
pub record Reading (F : Type 0) : Type 0 where
  pub pattern_name : Value F
  pub score : F

abbrev pub valid_operators : List String
valid_operators = "=" ∷ "!=" ∷ ">" ∷ "<" ∷ ">=" ∷ "<=" ∷ "IN" ∷ "NOT_IN" ∷ "BETWEEN" ∷ "LIKE" ∷ []

pub data DraftError : Type 0 where
  rule_name_required : DraftError
  rule_description_required : DraftError
  condition_required : DraftError
  invalid_operator : String → String → DraftError
  rule_name_too_long : DraftError

module _ {F : Type 0} (fl : Floats F) where
  open fl use {pct, lt, from_nat, round, text_of}

  -- a value that compares with a float
  abbrev pub number : Value F → Option F
  number (num x) = some x
  number (bool b) = some (if b then pct 100 else pct 0)
  number _ = none

  abbrev pub reading : Evidence F → Value F → Option (Reading F)
  reading ev (obj payload) =
      Option.map
        (λ x. record {
          pattern_name = get_or ev.evidence_kind (get "pattern_name" payload);
          score = x;
        })
        (number (get_or (num (from_nat 0)) (get "score" payload)))
  reading ev _ = none

  -- the items as they are read
  unfoldable pub readings : List (Evidence F) → Option (List (Reading F))
  readings [] = some []
  readings (ev ∷ evs) =
      Option.bind (reading ev ev.evidence_payload) (λ r. Option.map (λ rs. r ∷ rs) (readings evs))

  abbrev pub greater : String → Value F → RuleCondition F
  greater name v = record { field_name = name; operator = ">"; value = v; logical_op = "AND" }

  -- the `if` chain on the name
  unfoldable pub condition_for : String → List (RuleCondition F)
  condition_for name =
      if name == "velocity" || is_infix "velocity" (lower name)
      then greater "transaction_velocity_1h" (num (from_nat 5)) ∷ []
      else if name == "decline_anomaly" || is_infix "decline" (lower name)
      then greater "decline_rate_1h" (num (pct 30)) ∷ []
      else if name == "amount_anomaly" || is_infix "amount" (lower name)
      then greater "amount_vs_historical_avg" (num (pct 300)) ∷ []
      else if name == "geo_improbable" || is_infix "geo" (lower name)
      then greater "distance_from_cardholder_location_km" (num (from_nat 500)) ∷ []
      else []

  abbrev pub conditions_of : Value F → Option (List (RuleCondition F))
  conditions_of (str name) = some (condition_for name)
  conditions_of _ = none

  -- `_build_conditions_from_evidence`
  unfoldable pub build_conditions : List (Reading F) → Option (List (RuleCondition F))
  build_conditions [] = some []
  build_conditions (r ∷ rs) =
      let rest = build_conditions rs in
      if lt (pct 50) r.score
      then Option.bind (conditions_of r.pattern_name) (λ c. Option.map (λ cs. c ++ cs) rest)
      else rest

  -- `_build_thresholds_from_evidence`
  abbrev pub build_thresholds : List (Reading F) → List (String × F)
  build_thresholds [] = []
  build_thresholds (r ∷ rs) =
      (append (text_of r.pattern_name) "_threshold", round r.score 2) ∷ build_thresholds rs

  abbrev pub mentions : String → Value F → Bool
  mentions part (str name) = is_infix part (lower name)
  mentions part _ = false

  -- some pattern with a score above 0.5 is named so
  abbrev pub any_pattern : String → List (Reading F) → Bool
  any_pattern part [] = false
  any_pattern part (r ∷ rs) =
      let rest = any_pattern part rs in
      if lt (pct 50) r.score then mentions part r.pattern_name || rest else rest

  -- the `if` chain on the tests of the evidence
  abbrev pub candidate_name : Bool → Bool → Bool → Bool → String
  candidate_name velocity decline amount geo =
      if velocity
      then "Velocity Threshold Rule - Card Testing Detection"
      else if decline
      then "Decline Rate Anomaly Rule"
      else if amount
      then "Amount Deviation Rule"
      else if geo
      then "Geographic Implausibility Rule"
      else "Ops Agent Generated Rule"

  -- `_generate_rule_name`
  unfoldable pub generate_rule_name : Bool → List (Reading F) → String
  generate_rule_name is_candidate rs =
      if is_candidate
      then candidate_name (any_pattern "velocity" rs) (any_pattern "decline" rs)
          (any_pattern "amount" rs) (any_pattern "geo" rs)
      else "Custom Rule"

  -- `f"{insight_summary[:200]}"`
  abbrev pub first_200 : Value F → Option String
  first_200 (str s) = some (first_chars 200 s)
  first_200 (arr vs) = some (text_of (arr (items_of (take 200 (items vs)))))
  first_200 _ = none

  -- `_generate_rule_description`
  unfoldable pub generate_rule_description : Value F → String → String → String
  generate_rule_description impact summary severity = append "Auto-generated rule based on: " (
      append summary (
        append (if truthy fl impact then append " | Expected impact: " (text_of impact) else "")
          (append " | Severity: " severity)))

  abbrev pub payload_impact : Option (Value F) → Value F
  payload_impact (some (obj payload)) = get_or (str "") (get "impact" payload)
  payload_impact _ = str ""

  abbrev pub is_rule_candidate : Option (Value F) → Bool
  is_rule_candidate (some (str s)) = s == "rule_candidate"
  is_rule_candidate _ = false

  abbrev pub draft_of :
      Fields F → String → List (Reading F) → String → List (RuleCondition F) → RuleDraftPayload F
  draft_of recommendation severity rs summary conditions = record {
    rule_name = generate_rule_name (is_rule_candidate (get "type" recommendation)) rs;
    rule_description =
        generate_rule_description (payload_impact (get "payload" recommendation)) summary severity;
    conditions = conditions;
    thresholds = build_thresholds rs;
    metadata = field "recommendation_id" (get_or null (get "recommendation_id" recommendation)) (
        field "insight_id" null
          (field "source" (str "ops-agent") (field "severity" (str severity) end)));
  }

  -- `assemble_draft_payload`, for an insight with the keys `summary` and `severity`
  unfoldable pub assemble_draft_payload :
      Fields F → Value F → String → List (Evidence F) → Option (RuleDraftPayload F)
  assemble_draft_payload recommendation summary severity evidence =
      Option.bind (readings evidence) (λ rs. Option.bind (build_conditions rs) (λ cs.
        Option.map (λ text. draft_of recommendation severity rs text cs) (first_200 summary)))

abbrev pub error_if : Bool → DraftError → List DraftError → List DraftError
error_if true e es = e ∷ es
error_if false e es = es

module _ {F : Type 0} where
  abbrev pub operator_errors : List (RuleCondition F) → List DraftError
  operator_errors [] = []
  operator_errors (c ∷ cs) =
      let rest = operator_errors cs in
      if contains c.operator valid_operators
      then rest
      else invalid_operator c.operator c.field_name ∷ rest

  abbrev pub no_conditions : List (RuleCondition F) → Bool
  no_conditions [] = true
  no_conditions (_ ∷ _) = false

  -- `validate_draft_payload`
  unfoldable pub validate_draft_payload : RuleDraftPayload F → List DraftError
  validate_draft_payload p = error_if (strip p.rule_name == "") rule_name_required (
      error_if (strip p.rule_description == "") rule_description_required (
        error_if (no_conditions p.conditions) condition_required (
          operator_errors p.conditions
          ++ error_if (leb 256 (text_length p.rule_name)) rule_name_too_long [])))
