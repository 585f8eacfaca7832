-- ===== src/Tools/RuleDraft/Validity.antt =====
-- Which drafts of app/tools/_core/rule_draft_logic.py pass the validation there.
use card_fraud_ops_analyst_a.Prelude.{
  ◌≡◌, String, Bool, true, false, some, List, [], ◌∷◌, ◌++◌, ◌==◌, contains, strip, refl, arith,
  leb, Bool-cases, some_inj, bind-eq-some, map-eq-some, text_length, inl, inr, strip-visible,
  starts_visibly,
}
use card_fraud_ops_analyst_a.Value.{Value, null, bool, num, str, arr, obj, Fields}
use card_fraud_ops_analyst_a.Floats.{Floats}
use card_fraud_ops_analyst_a.Tools.Draft.{
  RuleCondition, RuleDraftPayload, Evidence, Reading, valid_operators, condition_for, conditions_of,
  build_conditions, candidate_name, generate_rule_name, generate_rule_description, draft_of,
  assemble_draft_payload, operator_errors, no_conditions, error_if, validate_draft_payload,
  condition_required, first_200,
}

cons_ne_nil : {A : Type 0} {x : A} {xs : List A} → x ∷ xs ≡ [] → ⊥
cons_ne_nil h = cc

module _ {F : Type 0} (fl : Floats F) where
  open fl use {pct, lt}

  operator_errors-append :
      (xs ys : List (RuleCondition F))
      → operator_errors xs ≡ []
      → operator_errors ys ≡ []
      → operator_errors (xs ++ ys) ≡ []
  operator_errors-append [] ys h k = k
  operator_errors-append (x ∷ xs) ys h k = elim (Bool-cases (contains x.operator valid_operators)) [
    | inl e ↦ rw (e, operator_errors-append xs ys (rw e at h) k)
    | inr e ↦ absurd (cons_ne_nil (rw e at h))
  ]

  condition_for-valid : (name : String) → operator_errors (condition_for fl name) ≡ []
  unfolding condition_for contains
  condition_for-valid name = ground arith

  conditions_of-valid :
      (v : Value F) (cs : List (RuleCondition F))
      → conditions_of fl v ≡ some cs
      → operator_errors cs ≡ []
  conditions_of-valid (str name) cs h =
      rw (← some_inj (condition_for fl name) cs h) (condition_for-valid name)
  conditions_of-valid null cs h = cc
  conditions_of-valid (bool _) cs h = cc
  conditions_of-valid (num _) cs h = cc
  conditions_of-valid (arr _) cs h = cc
  conditions_of-valid (obj _) cs h = cc

  build_conditions-valid :
      (rs : List (Reading F)) (cs : List (RuleCondition F))
      → build_conditions fl rs ≡ some cs
      → operator_errors cs ≡ []
  unfolding build_conditions
  build_conditions-valid [] cs h = rw (← some_inj [] cs h) refl
  build_conditions-valid (r ∷ rs) cs h = elim (Bool-cases (lt (pct 50) r.score)) [
    | inl e ↦
        let (xs, found, rest) = bind-eq-some (conditions_of fl r.pattern_name) _ cs (rw e at h) in
        let (ys, built, joined) = map-eq-some (λ zs. xs ++ zs) (build_conditions fl rs) cs rest in
        rw (← joined) (
          operator_errors-append xs ys (conditions_of-valid r.pattern_name xs found)
            (build_conditions-valid rs ys built))
    | inr e ↦ build_conditions-valid rs cs (rw e at h)
  ]

  -- a name that passes
  abbrev IsGoodName : String → Type 0
  IsGoodName name = ((strip name == "") ≡ false) × (leb 256 (text_length name) ≡ false)

  candidate_name-IsGoodName : (v d a g : Bool) → IsGoodName (candidate_name fl v d a g)
  unfolding strip text_length
  candidate_name-IsGoodName true d a g = (refl, refl)
  candidate_name-IsGoodName false true a g = (refl, refl)
  candidate_name-IsGoodName false false true g = (refl, refl)
  candidate_name-IsGoodName false false false true = (refl, refl)
  candidate_name-IsGoodName false false false false = (refl, refl)

  generate_rule_name-IsGoodName :
      (b : Bool) (rs : List (Reading F)) → IsGoodName (generate_rule_name fl b rs)
  unfolding generate_rule_name strip text_length
  generate_rule_name-IsGoodName true rs = candidate_name-IsGoodName _ _ _ _
  generate_rule_name-IsGoodName false rs = (refl, refl)

  generate_rule_description-visible :
      (impact : Value F) (summary severity : String)
      → (strip (generate_rule_description fl impact summary severity) == "") ≡ false
  unfolding generate_rule_description starts_visibly
  generate_rule_description-visible impact summary severity =
      strip-visible "Auto-generated rule based on: " _ refl

  draft_of-errors :
      (recommendation : Fields F) (severity : String) (rs : List (Reading F)) (summary : String)
      (cs : List (RuleCondition F))
      → operator_errors cs ≡ []
      → validate_draft_payload (draft_of fl recommendation severity rs summary cs)
        ≡ error_if (no_conditions cs) condition_required []
  unfolding validate_draft_payload
  draft_of-errors recommendation severity rs summary cs h = rw (
    (generate_rule_name-IsGoodName _ rs).0,
    (generate_rule_name-IsGoodName _ rs).1,
    generate_rule_description-visible _ summary severity,
    h,
  )

  -- An assembled draft has at most one error, and it has none exactly if it has a condition: its
  -- name, its description and its operators always pass.
  pub assemble-errors :
      (recommendation : Fields F) (summary : Value F) (severity : String)
      (evidence : List (Evidence F)) (p : RuleDraftPayload F)
      → assemble_draft_payload fl recommendation summary severity evidence ≡ some p
      → validate_draft_payload p ≡ error_if (no_conditions p.conditions) condition_required []
  unfolding assemble_draft_payload
  assemble-errors recommendation summary severity evidence p h =
      let (rs, read, rest) = bind-eq-some _ _ p h in
      let (cs, built, rest') = bind-eq-some _ _ p rest in
      let (text, cut, made) = map-eq-some _ (first_200 fl summary) p rest' in
      rw (← made)
        (draft_of-errors recommendation severity rs text cs (build_conditions-valid rs cs built))
