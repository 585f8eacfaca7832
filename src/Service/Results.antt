-- ===== src/Service/Results.antt =====
-- What `_persist_results` of app/services/investigation_service.py writes once an investigation is
-- over. A dictionary's `str` is `text_of`, the hash of a text is `digest`.
use Prim.Native.String.{◌++◌ as append}
use card_fraud_ops_analyst_a.Prelude.{
  ℕ, suc, String, Bool, Option, none, some, List, [], ◌∷◌, ◌++◌, ◌==◌, ◌||◌, if◌then◌else◌,
  contains, strip, lower, take, is_some, length, first_chars,
}
use card_fraud_ops_analyst_a.Value.{
  Value, null, str, arr, obj, nil, items, Fields, end, field, has_fields, get, get_or, put,
}
use card_fraud_ops_analyst_a.Floats.{Floats, truthy}
use card_fraud_ops_analyst_a.Agent.State.{InvestigationState, ToolExecution}
use card_fraud_ops_analyst_a.Service.Store.{
  Write, log_execution, upsert_insight, add_evidence, upsert_recommendation, create_draft,
}

-- `sep.join(parts)`
unfoldable pub joined : String → List String → String
joined sep [] = ""
joined sep (p ∷ ps) = elim ps [ [] ↦ p | _ ↦ append p (append sep (joined sep ps)) ]

abbrev pub stored_types : List String
stored_types = "review_priority" ∷ "case_action" ∷ "rule_candidate" ∷ []

-- `legacy_map`
abbrev pub legacy_type : String → String
legacy_type t =
    if t == "REVIEW" || t == "review" || t == "REVIEW_PRIORITY"
    then "review_priority"
    else if t == "CASE_ACTION"
    then "case_action"
    else if t == "RULE_CANDIDATE"
    then "rule_candidate"
    else lower t

-- the type that a recommendation is stored with
unfoldable pub stored_type : String → String
stored_type t =
    let known = legacy_type t in if contains known stored_types then known else "review_priority"

module _ {F : Type 0} (fl : Floats F) where
  open fl use {text_of}

  -- `a or b`
  abbrev pub or_else : Option (Value F) → Value F → Value F
  or_else none w = w
  or_else (some v) w = if truthy fl v then v else w

  abbrev pub type_text : Fields F → String
  type_text rec = strip (
      text_of (
        or_else
          (some (
            or_else (get "type" rec)
              (get_or (str "review_priority") (get "recommendation_type" rec))))
          (str "review_priority")))

  abbrev pub evidence_kind : Fields F → String
  evidence_kind ev = text_of (
      or_else (get "kind" ev) (
        or_else (get "evidence_kind" ev)
          (or_else (get "category" ev) (or_else (get "tool" ev) (str "unknown")))))

  abbrev pub dict_or_empty : Option (Value F) → Fields F
  dict_or_empty (some (obj fs)) = fs
  dict_or_empty _ = end

  abbrev pub add_supporting : Fields F → Option (Value F) → Fields F
  add_supporting payload (some (obj (field k v fs))) =
      put "supporting_data" (obj (field k v fs)) payload
  add_supporting payload _ = payload

  -- `if value is not None and key not in payload: payload[key] = value`
  abbrev pub add_missing : String → Option (Value F) → Fields F → Fields F
  add_missing key none payload = payload
  add_missing key (some null) payload = payload
  add_missing key (some v) payload =
      if is_some (get key payload) then payload else put key v payload

  -- `_normalize_evidence_item`
  unfoldable pub normalize_evidence_item : Value F → String × Fields F
  normalize_evidence_item (obj ev) = (
    evidence_kind ev,
    add_missing "tool" (get "tool" ev) (
        add_missing "description" (get "description" ev) (
          add_missing "category" (get "category" ev)
            (add_supporting (dict_or_empty (get "payload" ev)) (get "data" ev)))),
  )
  normalize_evidence_item _ = ("unknown", end)

  -- the text of a key, where it holds one that is not blank
  abbrev pub visible_text : Option (Value F) → Option String
  visible_text (some (str s)) = let t = strip s in if t == "" then none else some t
  visible_text _ = none

  abbrev pub rendered : List (Value F) → List String
  rendered [] = []
  rendered (v ∷ vs) =
      let t = strip (text_of v) in let rest = rendered vs in if t == "" then rest else t ∷ rest

  abbrev pub findings_text : Option (Value F) → Option String
  findings_text (some (arr vs)) = elim (rendered (items vs)) [
    | [] ↦ none
    | t ∷ ts ↦ some (joined "; " (take 3 (t ∷ ts)))
  ]
  findings_text _ = none

  abbrev pub first_some : List (Option String) → String → String
  first_some [] d = d
  first_some (none ∷ os) d = first_some os d
  first_some (some s ∷ os) d = s

module _ {F : Type 0} (fl : Floats F) (digest today : String → String) (found_pieces : ℕ → String)
    (insight_id_of : String → String) (raises : Write F → Bool) where
  open fl use {text_of}

  abbrev pub without_reasoning : List (Value F) → String
  without_reasoning [] = "Investigation completed"
  without_reasoning (v ∷ vs) = found_pieces (length (v ∷ vs))

  -- `_build_insight_summary`
  unfoldable pub build_insight_summary : Fields F → List (Value F) → String
  build_insight_summary reasoning evidence =
      first_some fl
        (visible_text fl (get "summary" reasoning)
          ∷ visible_text fl (get "narrative" reasoning)
          ∷ findings_text fl (get "key_findings" reasoning)
          ∷ [])
        (without_reasoning evidence)

  -- `_compute_insight_key`, at the date of the clock
  abbrev pub compute_insight_key : String → String → String → String
  compute_insight_key txn insight_type model_mode =
      digest (joined "|" (txn ∷ insight_type ∷ model_mode ∷ today "%Y-%m-%d" ∷ []))

  -- `_compute_recommendation_key`
  abbrev pub compute_recommendation_key : String → String → String → String
  compute_recommendation_key inv rec_type payload_hash =
      digest (joined "|" (inv ∷ rec_type ∷ payload_hash ∷ []))

  -- a call in a `try` of its own: nothing is written where it raises
  abbrev pub attempt : Write F → List (Write F)
  attempt w = if raises w then [] else w ∷ []

  abbrev pub tool_writes : String → ℕ → List ToolExecution → List (Write F)
  tool_writes inv n [] = []
  tool_writes inv n (x ∷ xs) = attempt (log_execution inv (suc n) x) ++ tool_writes inv (suc n) xs

  abbrev pub evidence_write : String → String × Fields F → Write F
  evidence_write insight_id (kind, payload) = add_evidence insight_id kind payload

  abbrev pub evidence_writes : String → List (Value F) → List (Write F)
  evidence_writes insight_id [] = []
  evidence_writes insight_id (v ∷ vs) =
      attempt (evidence_write insight_id (normalize_evidence_item fl v))
      ++ evidence_writes insight_id vs

  -- the insight with its evidence, and its id
  abbrev pub insight_writes : InvestigationState F → String × List (Write F)
  insight_writes state =
      let key = compute_insight_key state.transaction_id "agentic_investigation" "agentic" in
      let summary = build_insight_summary state.reasoning (items state.evidence) in
      let w = upsert_insight state.transaction_id state.severity summary key in
      let id = insight_id_of key in
      if raises w then ("", []) else (id, w ∷ evidence_writes id (items state.evidence))

  abbrev pub has_insight : InvestigationState F → Bool
  has_insight state = has_fields state.reasoning || truthy fl (arr state.evidence)

  abbrev pub recommendation_write : String → String → Fields F → Write F
  recommendation_write inv insight_id rec =
      let rec_type = stored_type (type_text fl rec) in
      let payload = get_or (obj end) (get "payload" rec) in
      upsert_recommendation insight_id rec_type payload
        (compute_recommendation_key inv rec_type (first_chars 16 (digest (text_of payload))))
        (get_or (str "Generated recommendation") (get "title" rec))
        (get_or (str "Review recommended") (get "impact" rec)) inv

  abbrev pub recommendation_writes : String → String → List (Value F) → List (Write F)
  recommendation_writes inv insight_id [] = []
  recommendation_writes inv insight_id (obj rec ∷ vs) =
      attempt (recommendation_write inv insight_id rec) ++ recommendation_writes inv insight_id vs
  recommendation_writes inv insight_id (_ ∷ vs) = recommendation_writes inv insight_id vs

  abbrev pub draft_writes : String → Option (Fields F) → List (Write F)
  draft_writes inv none = []
  draft_writes inv (some end) = []
  draft_writes inv (some (field k v fs)) =
      let d = field k v fs in
      attempt (
        create_draft inv (
          get_or (str "Draft Rule") (get "rule_name" d)
          ∷ get_or (str "") (get "rule_description" d)
          ∷ get_or (arr nil) (get "conditions" d)
          ∷ get_or (obj end) (get "thresholds" d)
          ∷ get_or null (get "metadata" d)
          ∷ get_or null (get "recommendation_id" d)
          ∷ []))

  -- `_persist_results`
  unfoldable pub persist_results : InvestigationState F → List (Write F)
  persist_results state =
      let inv = state.investigation_id in
      let (insight_id, insights) = if has_insight state then insight_writes state else ("", []) in
      tool_writes inv 0 state.tool_executions
      ++ insights
      ++ recommendation_writes inv insight_id (items state.recommendations)
      ++ draft_writes inv state.rule_draft
