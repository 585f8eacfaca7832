-- ===== src/Agent/Completion/Severity.antt =====
-- What the completion node (app/agent/completion.py) leaves behind.
use card_fraud_ops_analyst_a.Prelude.{
  ◌≡◌, ◌⊎◌, String, Bool, true, false, Option, none, some, refl, upper, Bool-cases, if◌then◌else◌,
  inl, inr, some_inj, contains, true≢false_of, sym,
}
use card_fraud_ops_analyst_a.Value.{Value}
use card_fraud_ops_analyst_a.Floats.{Floats}
use card_fraud_ops_analyst_a.Agent.State.{InvestigationState}
use card_fraud_ops_analyst_a.Agent.Completion.{
  completion_node, completed_state, is_terminal_failure, compute_final_confidence,
  determine_severity, valid_severities,
}

ladder_valid :
    (critical high medium low : Bool)
    → contains
        (if critical
          then "CRITICAL"
          else if high
          then "HIGH"
          else if medium
          then "MEDIUM"
          else if low
          then "LOW"
          else "LOW")
        valid_severities
      ≡ true
unfolding contains
ladder_valid true _ _ _ = refl
ladder_valid false true _ _ = refl
ladder_valid false false true _ = refl
ladder_valid false false false true = refl
ladder_valid false false false false = refl

module _ {F : Type 0} (fl : Floats F) (loads : String → Option (Value F)) where
  open fl use {pct, le}

  -- The severity is one of the four levels, and the one that was set, in upper case, if that is a
  -- level.
  determine_severity-valid :
      (x : F) (current : String)
      → (contains (determine_severity fl loads x current) valid_severities ≡ true)
        × (contains (upper current) valid_severities ≡ true
            → determine_severity fl loads x current ≡ upper current)
  unfolding determine_severity
  determine_severity-valid x current =
      elim (Bool-cases (contains (upper current) valid_severities)) [
        | inl h ↦ (rw h h, λ _. rw h)
        | inr h ↦ (
          rw h (ladder_valid (le (pct 80) x) (le (pct 60) x) (le (pct 30) x) (le (pct 0) x)),
          λ k. absurd (true≢false_of k h),
        )
      ]

  -- How a completed investigation relates to the state before.
  pub record IsCompleted (now : String) (s t : InvestigationState F) : Type 0 where
    pub status : t.status ≡ "COMPLETED"
    pub time : t.completed_at ≡ some now
    pub level : contains t.severity valid_severities ≡ true
    pub kept : contains (upper s.severity) valid_severities ≡ true → t.severity ≡ upper s.severity
    pub confidence : compute_final_confidence fl loads s ≡ some t.confidence_score

  IsCompleted-path :
      (now : String) (s t u : InvestigationState F)
      → IsCompleted now s t
      → t ≡ u
      → IsCompleted now s u
  IsCompleted-path now s t u c e = rw (← e) c

  completed_state-IsCompleted :
      (now : String) (s t : InvestigationState F) (o : Option F)
      → compute_final_confidence fl loads s ≡ o
      → completed_state fl loads now s o ≡ some t
      → IsCompleted now s t
  completed_state-IsCompleted now s t none e h = cc
  completed_state-IsCompleted now s t (some x) e h =
      IsCompleted-path now s
        (record s {
          status = "COMPLETED";
          completed_at = some now;
          confidence_score = x;
          severity = determine_severity fl loads x s.severity;
        })
        t
        (record {
          status = refl;
          time = refl;
          level = (determine_severity-valid x s.severity).0;
          kept = (determine_severity-valid x s.severity).1;
          confidence = e;
        })
        (some_inj _ t h)

  -- An investigation that failed or timed out stays so, with nothing else changed but the time of
  -- its end; any other is COMPLETED, with the computed confidence and one of the four severities,
  -- which is the one that was set if that was valid.
  pub completion_node-ends :
      (now : String) (s t : InvestigationState F)
      → completion_node fl loads now s ≡ some t
      → ((is_terminal_failure fl loads (upper s.status) ≡ true)
          × (t ≡ record s { status = upper s.status; completed_at = some now }))
        ⊎ ((is_terminal_failure fl loads (upper s.status) ≡ false) × IsCompleted now s t)
  unfolding completion_node
  completion_node-ends now s t h =
      elim (Bool-cases (is_terminal_failure fl loads (upper s.status))) [
        | inl e ↦ inl (e, sym (some_inj _ t (rw e at h)))
        | inr e ↦ inr (
          e,
          completed_state-IsCompleted now s t (compute_final_confidence fl loads s) refl
              (rw e at h),
        )
      ]
