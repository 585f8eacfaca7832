-- ===== src/Agent/Completion/Keeps.antt =====
-- The completion node (app/agent/completion.py) touches none of the control fields.
use card_fraud_ops_analyst_a.Prelude.{
  ◌≡◌, String, Option, none, some, refl, upper, Bool-cases, inl, inr, some_inj,
}
use card_fraud_ops_analyst_a.Value.{Value}
use card_fraud_ops_analyst_a.Floats.{Floats}
use card_fraud_ops_analyst_a.Agent.State.{InvestigationState}
use card_fraud_ops_analyst_a.Agent.Executor.Effect.{SameControl}
use card_fraud_ops_analyst_a.Agent.Completion.{
  completion_node, completed_state, is_terminal_failure, compute_final_confidence,
  determine_severity,
}

module _ {F : Type 0} (fl : Floats F) (loads : String → Option (Value F)) (now : String)
    (s : InvestigationState F) where
  same_of_path : (t u : InvestigationState F) → SameControl s t → t ≡ u → SameControl s u
  same_of_path t u same e = rw (← e) same

  completed_state-SameControl :
      (o : Option F) (t : InvestigationState F)
      → completed_state fl loads now s o ≡ some t
      → SameControl s t
  completed_state-SameControl none t h = cc
  completed_state-SameControl (some x) t h =
      same_of_path
        (record s {
          status = "COMPLETED";
          completed_at = some now;
          confidence_score = x;
          severity = determine_severity fl loads x s.severity;
        })
        t
        (record {
          completed = refl;
          executions = refl;
          decisions = refl;
          steps = refl;
          limit = refl;
        })
        (cc)

  pub completion_node-SameControl :
      (t : InvestigationState F) → completion_node fl loads now s ≡ some t → SameControl s t
  unfolding completion_node
  completion_node-SameControl t h =
      elim (Bool-cases (is_terminal_failure fl loads (upper s.status))) [
        | inl e ↦
            same_of_path (record s { status = upper s.status; completed_at = some now }) t
              (record {
                completed = refl;
                executions = refl;
                decisions = refl;
                steps = refl;
                limit = refl;
              })
              (some_inj _ _ (rw e at h))
        | inr e ↦ completed_state-SameControl (compute_final_confidence fl loads s) t (rw e at h)
      ]
