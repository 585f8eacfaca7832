-- ===== src/Samples/Drafts.antt =====
-- The theorems on the rule drafts (app/tools/_core/rule_draft_logic.py and
-- app/tools/rule_draft_tool.py) at concrete evidence.
use mathlib.Core.Option
use card_fraud_ops_analyst_a.Prelude.{
  ℕ, ◌≡◌, true, Option, none, some, List, [], ◌∷◌, refl, lower, is_infix, first_chars,
}
use card_fraud_ops_analyst_a.Value.{
  str, num, arr, obj, nil, cons, items, Fields, field, end, get, append_item,
}
use card_fraud_ops_analyst_a.Agent.State.{InvestigationState, returned}
use card_fraud_ops_analyst_a.Scoring.Tally.{PatternScore}
use card_fraud_ops_analyst_a.Tools.Draft.{
  Evidence, RuleDraftPayload, condition_required, error_if, no_conditions, validate_draft_payload,
  assemble_draft_payload, readings, build_conditions, condition_for,
}
use card_fraud_ops_analyst_a.Tools.RuleDraft.{read_evidence, execute, draft_dict}
use card_fraud_ops_analyst_a.Tools.RuleDraft.Validity.{assemble-errors}
use card_fraud_ops_analyst_a.Tools.RuleDraft.Scoreless.{all_scoreless, execute-no_conditions}
use card_fraud_ops_analyst_a.Tools.PatternTool.{evidence_of}
use card_fraud_ops_analyst_a.Samples.{hundredths, no_time, scoring, describe, ready}

abbrev scored : List (Evidence ℕ)
scored =
    record {
      evidence_kind = str "pattern_velocity";
      evidence_payload = obj (field "pattern_name" (str "velocity") (field "score" (num 80) end));
    }
    ∷ []

abbrev candidate : Fields ℕ
candidate = field "type" (str "rule_candidate") (field "payload" (obj end) end)

abbrev assembled : Option (RuleDraftPayload ℕ)
assembled = assemble_draft_payload hundredths candidate (str "Card testing") "HIGH" scored

abbrev payload_of : Option (RuleDraftPayload ℕ) → RuleDraftPayload ℕ
payload_of (some p) = p
payload_of none = record {
  rule_name = "";
  rule_description = "";
  conditions = [];
  thresholds = [];
  metadata = end;
}

assembles : assembled ≡ some (payload_of assembled)
unfolding assemble_draft_payload readings build_conditions get condition_for lower is_infix
    first_chars Option.bind
assembles = refl

assemble-errors_example :
    validate_draft_payload (payload_of assembled)
    ≡ error_if (no_conditions (payload_of assembled).conditions) condition_required []
assemble-errors_example =
    assemble-errors hundredths candidate (str "Card testing") "HIGH" scored (payload_of assembled)
      assembles

abbrev velocity : PatternScore ℕ
velocity = record { pattern_name = "velocity"; score = 90; weight = 100; details = end }

-- what the pattern tool leaves of a strong velocity pattern, and a recommendation
abbrev analysed : InvestigationState ℕ
analysed = record ready {
  evidence =
      append_item nil
        (evidence_of hundredths no_time no_time (λ c. scoring) describe (velocity ∷ []));
  recommendations = cons (obj candidate) nil;
}

analysed-scoreless : all_scoreless (items analysed.evidence) ≡ true
unfolding get
analysed-scoreless = refl

abbrev after : InvestigationState ℕ
after = elim (execute hundredths analysed) [ returned s ↦ s | _ ↦ ready ]

abbrev draft : Fields ℕ
draft = elim after.rule_draft [ some d ↦ d | none ↦ end ]

runs : execute hundredths analysed ≡ returned after
unfolding execute read_evidence get Option.bind
runs = refl

drafts : after.rule_draft ≡ some draft
unfolding execute read_evidence get assemble_draft_payload readings build_conditions first_chars
    draft_dict Option.bind
drafts = refl

execute-no_conditions_example : get "conditions" draft ≡ some (arr nil)
execute-no_conditions_example =
    execute-no_conditions hundredths analysed after draft analysed-scoreless runs drafts
