-- ===== src/Tools/RuleDraft.antt =====
-- app/tools/rule_draft_tool.py
pub mod Validity
pub mod Scoreless
use mathlib.Core.Option
use card_fraud_ops_analyst_a.Prelude.{ℕ, String, Option, none, some, List, [], ◌∷◌}
use card_fraud_ops_analyst_a.Value.{
  Value, str, num, arr, obj, Items, nil, cons, items, items_of, Fields, end, field, get, get_or,
  put,
}
use card_fraud_ops_analyst_a.Floats.{Floats}
use card_fraud_ops_analyst_a.Agent.State.{
  InvestigationState, BaseTool, ToolOutcome, returned, raised,
}
use card_fraud_ops_analyst_a.Tools.Draft.{
  Evidence, RuleCondition, RuleDraftPayload, assemble_draft_payload,
}

module _ {F : Type 0} where
  abbrev pub evidence_item : Value F → Option (Evidence F)
  evidence_item (obj ev) = some (record {
    evidence_kind = get_or (str "unknown") (get "category" ev);
    evidence_payload = get_or (obj end) (get "data" ev);
  })
  evidence_item _ = none

  -- the list comprehension over `state["evidence"]`, `none` where an entry is no dict
  unfoldable pub read_evidence : List (Value F) → Option (List (Evidence F))
  read_evidence [] = some []
  read_evidence (v ∷ vs) =
      Option.bind (evidence_item v) (λ e. Option.map (λ es. e ∷ es) (read_evidence vs))

  abbrev pub condition_dict : RuleCondition F → Value F
  condition_dict c = obj (
      field "field_name" (str c.field_name) (
        field "operator" (str c.operator)
          (field "value" c.value (field "logical_op" (str c.logical_op) end))))

  abbrev pub condition_dicts : List (RuleCondition F) → Items F
  condition_dicts [] = nil
  condition_dicts (c ∷ cs) = cons (condition_dict c) (condition_dicts cs)

  -- `dict(thresholds)`
  abbrev pub threshold_dict : List (String × F) → Fields F → Fields F
  threshold_dict [] done = done
  threshold_dict ((name, x) ∷ rest) done = threshold_dict rest (put name (num x) done)

  unfoldable pub draft_dict : RuleDraftPayload F → Fields F
  draft_dict p = field "rule_name" (str p.rule_name) (
      field "rule_description" (str p.rule_description) (
        field "conditions" (arr (condition_dicts p.conditions)) (
          field "thresholds" (obj (threshold_dict p.thresholds end))
            (field "metadata" (obj p.metadata) end))))

module _ {F : Type 0} (fl : Floats F) where
  abbrev pub draft_for : InvestigationState F → List (Evidence F) → Value F → Option (Fields F)
  draft_for state evidence (obj recommendation) = Option.map draft_dict (
      assemble_draft_payload fl recommendation (get_or (str "") (get "narrative" state.reasoning))
        state.severity evidence)
  draft_for state evidence _ = none

  abbrev pub with_draft :
      InvestigationState F → Value F → Option (List (Evidence F)) → ToolOutcome F
  with_draft state first none = raised "'str' object has no attribute 'get'"
  with_draft state first (some evidence) =
      returned (record state { rule_draft = draft_for state evidence first })

  abbrev pub on_recommendations : InvestigationState F → Items F → ToolOutcome F
  on_recommendations state nil = returned (record state { rule_draft = none })
  on_recommendations state (cons first _) =
      with_draft state first (read_evidence (items state.evidence))

  -- `RuleDraftTool.execute`; an exception of the assembly leaves no draft
  unfoldable pub execute : InvestigationState F → ToolOutcome F
  unfolding draft_dict
  execute state = on_recommendations state state.recommendations

  unfoldable pub rule_draft_tool : BaseTool F
  unfolding execute
  rule_draft_tool = record {
    name = "rule_draft_tool";
    description =
        "Generate a fraud detection rule draft based on recommendations and investigation evidence";
    execute = λ call state. execute state;
  }
