-- ===== src/Tools/RuleDraft/Scoreless.antt =====
-- The rule draft (app/tools/rule_draft_tool.py) on evidence whose data has no score of its own,
-- such as the entries of app/tools/pattern_tool.py.
use card_fraud_ops_analyst_a.Prelude.{
  ◌≡◌, String, Bool, true, false, Option, none, some, List, [], ◌∷◌, ◌&&◌, refl, arith,
  bind-eq-some, map-eq-some, some_inj, ap, sym, ◌∙◌, inl, inr, is_some, not, none_ne_some,
  Option-cases,
}
use card_fraud_ops_analyst_a.Value.{
  Value, null, bool, num, str, arr, obj, Items, nil, cons, items, Fields, end, get, get_or,
}
use card_fraud_ops_analyst_a.Floats.{Floats}
use card_fraud_ops_analyst_a.Agent.State.{
  InvestigationState, returned, returned_inj, raised_ne_returned,
}
use card_fraud_ops_analyst_a.Tools.Draft.{
  Evidence, Reading, RuleDraftPayload, number, reading, readings, build_conditions, first_200,
  assemble_draft_payload,
}
use card_fraud_ops_analyst_a.Tools.RuleDraft.{
  read_evidence, evidence_item, draft_dict, draft_for, on_recommendations, execute,
}

and_true : (a b : Bool) → (a && b) ≡ true → (a ≡ true) × (b ≡ true)
and_true a b h = ground arith

module _ {F : Type 0} where
  -- no `score` in a payload
  abbrev pub scoreless : Value F → Bool
  scoreless (obj payload) = not (is_some (get "score" payload))
  scoreless _ = true

  -- no `score` in the `data` of an entry of the state's evidence
  abbrev pub scoreless_entry : Value F → Bool
  scoreless_entry (obj ev) = scoreless (get_or (obj end) (get "data" ev))
  scoreless_entry _ = true

  abbrev pub all_scoreless : List (Value F) → Bool
  all_scoreless [] = true
  all_scoreless (v ∷ vs) = scoreless_entry v && all_scoreless vs

  unfoldable AllScoreless : List (Evidence F) → Type 0
  AllScoreless [] = Unit
  AllScoreless (e ∷ es) = (scoreless e.evidence_payload ≡ true) × AllScoreless es

  evidence_item-scoreless :
      (v : Value F) (e : Evidence F)
      → evidence_item v ≡ some e
      → scoreless_entry v ≡ true
      → scoreless e.evidence_payload ≡ true
  evidence_item-scoreless (obj ev) e h k = rw (← some_inj _ e h) k
  evidence_item-scoreless null e h k = cc
  evidence_item-scoreless (bool _) e h k = cc
  evidence_item-scoreless (num _) e h k = cc
  evidence_item-scoreless (str _) e h k = cc
  evidence_item-scoreless (arr _) e h k = cc

  read_evidence-scoreless :
      (vs : List (Value F)) (es : List (Evidence F))
      → read_evidence vs ≡ some es
      → all_scoreless vs ≡ true
      → AllScoreless es
  unfolding read_evidence AllScoreless
  read_evidence-scoreless [] es h k = rw (← some_inj [] es h) tt
  read_evidence-scoreless (v ∷ vs) es h k =
      let (e, one, rest) = bind-eq-some _ _ es h in
      let (es', read, made) = map-eq-some (λ xs. e ∷ xs) _ es rest in
      let (first, others) = and_true (scoreless_entry v) (all_scoreless vs) k in
      rw (← made)
        (evidence_item-scoreless v e one first, read_evidence-scoreless vs es' read others)

module _ {F : Type 0} (fl : Floats F) where
  open fl use {pct, lt, from_nat, from_nat_pct, pct_lt}

  reading-scoreless :
      (e : Evidence F) (v : Value F) (r : Reading F)
      → reading fl e v ≡ some r
      → scoreless v ≡ true
      → lt (pct 50) r.score ≡ false
  reading-scoreless e (obj payload) r h k =
      let (x, read, made) = map-eq-some _ _ r h in
      rw (← made, ← zero_of (get "score" payload) x read k, from_nat_pct 0 refl, pct_lt 50 0 refl)
        refl
    where
      zero_of :
          (o : Option (Value F)) (x : F)
          → number fl (get_or (num (from_nat 0)) o) ≡ some x
          → not (is_some o) ≡ true
          → from_nat 0 ≡ x
      zero_of none x h k = some_inj (from_nat 0) x h
      zero_of (some v) x h k = cc
  reading-scoreless e null r h k = cc
  reading-scoreless e (bool _) r h k = cc
  reading-scoreless e (num _) r h k = cc
  reading-scoreless e (str _) r h k = cc
  reading-scoreless e (arr _) r h k = cc

  build_conditions-scoreless :
      (es : List (Evidence F)) (rs : List (Reading F))
      → readings fl es ≡ some rs
      → AllScoreless es
      → build_conditions fl rs ≡ some []
  unfolding readings AllScoreless build_conditions
  build_conditions-scoreless [] rs h k = rw (← some_inj [] rs h) refl
  build_conditions-scoreless (e ∷ es) rs h k =
      let (r, one, rest) = bind-eq-some _ _ rs h in
      let (rs', read, made) = map-eq-some (λ xs. r ∷ xs) _ rs rest in
      rw (← made, reading-scoreless e e.evidence_payload r one k.0)
        (build_conditions-scoreless es rs' read k.1)

  -- the conditions of a draft that was assembled from such evidence
  assemble-scoreless :
      (recommendation : Fields F) (summary : Value F) (severity : String) (es : List (Evidence F))
      (p : RuleDraftPayload F)
      → assemble_draft_payload fl recommendation summary severity es ≡ some p
      → AllScoreless es
      → p.conditions ≡ []
  unfolding assemble_draft_payload
  assemble-scoreless recommendation summary severity es p h k =
      let (rs, read, rest) = bind-eq-some _ _ p h in
      let (cs, built, rest') = bind-eq-some _ _ p rest in
      let (text, cut, made) = map-eq-some _ (first_200 fl summary) p rest' in
      rw (← made) (some_inj cs [] (sym built ∙ build_conditions-scoreless es rs read k))

  -- When no entry of the state's evidence has a `score` at the top of its data, the rule draft that
  -- the tool leaves in the state, if it leaves one, has an empty list of conditions.
  pub execute-no_conditions :
      (state after : InvestigationState F) (draft : Fields F)
      → all_scoreless (items state.evidence) ≡ true
      → execute fl state ≡ returned after
      → after.rule_draft ≡ some draft
      → get "conditions" draft ≡ some (arr nil)
  unfolding execute draft_dict get
  execute-no_conditions state after draft k h d = from_list state.recommendations h
    where
      of_draft :
          (es : List (Evidence F)) (first : Value F)
          → AllScoreless es
          → draft_for fl state es first ≡ some draft
          → get "conditions" draft ≡ some (arr nil)
      of_draft es (obj recommendation) all g =
          let (p, made, shown) = map-eq-some _ _ draft g in
          rw (← shown, assemble-scoreless recommendation _ state.severity es p made all) refl
      of_draft es null all g = cc
      of_draft es (bool _) all g = cc
      of_draft es (num _) all g = cc
      of_draft es (str _) all g = cc
      of_draft es (arr _) all g = cc

      from_list :
          (vs : Items F)
          → on_recommendations fl state vs ≡ returned after
          → get "conditions" draft ≡ some (arr nil)
      from_list nil g = absurd (none_ne_some (ap (λ s. s.rule_draft) (returned_inj _ after g) ∙ d))
      from_list (cons first _) g = elim (Option-cases (read_evidence (items state.evidence))) [
        | inl none_read ↦ absurd (raised_ne_returned (rw none_read at g))
        | inr (es, read) ↦
            of_draft es first (read_evidence-scoreless (items state.evidence) es read k)
              (ap (λ s. s.rule_draft) (returned_inj _ after (rw read at g)) ∙ d)
      ]
