-- ===== src/Tools/Reasoning/Settling.antt =====
-- The three tests of `_calibrate_llm_severity` (app/tools/reasoning_tool.py) on their Booleans.
use card_fraud_ops_analyst_a.Prelude.{
  ◌≡◌, ◌≢◌, ◌⊎◌, ◌↔◌, inl, inr, String, Bool, true, false, contains, arith, refl, sym, eq_iff,
  if◌then◌else◌, Bool-cases,
}
use card_fraud_ops_analyst_a.Agent.Completion.{valid_severities}
use card_fraud_ops_analyst_a.Tools.Reasoning.Calibration.{settle}

-- What the three tests make of one of the four levels.
pub record IsSettled (strong : Bool) (given result : String) : Type 0 where
  pub valid : contains result valid_severities ≡ true
  pub critical : (result ≡ "CRITICAL") ↔ (given ≡ "CRITICAL")
  pub high : result ≡ "HIGH" → given ≡ "HIGH"
  pub raised : given ≡ "LOW" → result ≢ given → result ≡ "MEDIUM"
  pub lowered : (given ≢ "LOW") → result ≢ given → (result ≡ "LOW") × (strong ≡ true)

severity-cases :
    (g : String)
    → contains g valid_severities ≡ true
    → (g ≡ "LOW") ⊎ ((g ≡ "MEDIUM") ⊎ ((g ≡ "HIGH") ⊎ (g ≡ "CRITICAL")))
unfolding contains
severity-cases g h =
    ground (arith, eq_iff "LOW" g, eq_iff "MEDIUM" g, eq_iff "HIGH" g, eq_iff "CRITICAL" g)

IsSettled-same :
    (strong : Bool) (g : String) → contains g valid_severities ≡ true → IsSettled strong g g
IsSettled-same strong g h = record {
  valid = h;
  critical = (λ e. e, λ e. e);
  high = λ e. e;
  raised = λ _ changed. absurd (changed refl);
  lowered = λ _ changed. absurd (changed refl);
}

IsSettled-raised : (strong : Bool) → IsSettled strong "LOW" "MEDIUM"
unfolding contains
IsSettled-raised strong = record {
  valid = refl;
  critical = ground (arith, eq_iff "MEDIUM" "CRITICAL", eq_iff "LOW" "CRITICAL");
  high = ground (arith, eq_iff "MEDIUM" "HIGH");
  raised = λ _ _. refl;
  lowered = λ other _. absurd (other refl);
}

IsSettled-lowered : (g : String) → g ≢ "CRITICAL" → IsSettled true g "LOW"
unfolding contains
IsSettled-lowered g other = record {
  valid = refl;
  critical = (ground (arith, eq_iff "LOW" "CRITICAL"), λ e. absurd (other e));
  high = ground (arith, eq_iff "LOW" "HIGH");
  raised = λ low changed. absurd (changed (sym low));
  lowered = λ _ _. (refl, refl);
}

settle-low :
    (strong combo declined : Bool) → IsSettled strong "LOW" (settle strong combo declined "LOW")
unfolding settle contains
settle-low strong true declined = IsSettled-raised strong
settle-low strong false true = IsSettled-raised strong
settle-low strong false false = IsSettled-same strong "LOW" refl

settle-medium :
    (strong combo declined : Bool)
    → IsSettled strong "MEDIUM" (settle strong combo declined "MEDIUM")
unfolding settle contains
settle-medium true combo declined =
    IsSettled-lowered "MEDIUM" (ground (arith, eq_iff "MEDIUM" "CRITICAL"))
settle-medium false combo declined = IsSettled-same false "MEDIUM" refl

settle-high :
    (strong combo declined : Bool) → IsSettled strong "HIGH" (settle strong combo declined "HIGH")
unfolding settle contains
settle-high true combo declined =
    IsSettled-lowered "HIGH" (ground (arith, eq_iff "HIGH" "CRITICAL"))
settle-high false combo declined = IsSettled-same false "HIGH" refl

settle-critical :
    (strong combo declined : Bool)
    → IsSettled strong "CRITICAL" (settle strong combo declined "CRITICAL")
unfolding settle contains
settle-critical strong combo declined = IsSettled-same strong "CRITICAL" refl

pub settle-IsSettled :
    (strong combo declined : Bool) (g : String)
    → contains g valid_severities ≡ true
    → IsSettled strong g (settle strong combo declined g)
settle-IsSettled strong combo declined g h = elim (severity-cases g h) [
  | inl e ↦ rw e (settle-low strong combo declined)
  | inr (inl e) ↦ rw e (settle-medium strong combo declined)
  | inr (inr (inl e)) ↦ rw e (settle-high strong combo declined)
  | inr (inr (inr e)) ↦ rw e (settle-critical strong combo declined)
]

pub valid_or_low :
    (g : String)
    → contains (if contains g valid_severities then g else "LOW") valid_severities ≡ true
unfolding contains
valid_or_low g = elim (Bool-cases (contains g valid_severities)) [
  | inl e ↦ rw e e
  | inr e ↦ rw e refl
]

-- under the combination, and without strong counter-evidence, no level is settled as LOW
pub settle-not_low :
    (declined : Bool) (g : String)
    → contains g valid_severities ≡ true
    → settle false true declined g ≢ "LOW"
unfolding settle contains
settle-not_low declined g h low = elim (severity-cases g h) [
  | inl e ↦ ground (arith, eq_iff "MEDIUM" "LOW", rw e at low)
  | inr (inl e) ↦ ground (arith, eq_iff "MEDIUM" "LOW", rw e at low)
  | inr (inr (inl e)) ↦ ground (arith, eq_iff "HIGH" "LOW", rw e at low)
  | inr (inr (inr e)) ↦ ground (arith, eq_iff "CRITICAL" "LOW", rw e at low)
]
