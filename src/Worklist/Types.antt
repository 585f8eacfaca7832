-- ===== src/Worklist/Types.antt =====
-- The normalisation of recommendation types in app/services/recommendation_service.py.
use card_fraud_ops_analyst_a.Prelude.{
  ◌≡◌, ◌⊎◌, inl, inr, String, true, Option, none, some, ◌==◌, contains, lower, strip, arith, refl,
  eq_iff, if◌then◌else◌, Bool-cases,
}
use card_fraud_ops_analyst_a.Worklist.{
  recommendation_types, legacy_type, known_type, normalize_recommendation_type,
}

lower_or_default :
    (s : String)
    → contains
        (if contains s recommendation_types then s else "review_priority")
        recommendation_types
      ≡ true
unfolding contains
lower_or_default s = elim (Bool-cases (contains s recommendation_types)) [
  | inl e ↦ rw e e
  | inr e ↦ rw e refl
]

legacy_type-known : (s t : String) → legacy_type s ≡ some t → contains t recommendation_types ≡ true
unfolding contains
legacy_type-known s t h =
    ground (arith, eq_iff "review_priority" t, eq_iff "case_action" t, eq_iff "rule_candidate" t)

known_type-known :
    (s : String) (o : Option String)
    → legacy_type s ≡ o
    → contains (known_type s o) recommendation_types ≡ true
known_type-known s (some t) h = legacy_type-known s t h
known_type-known s none h = lower_or_default (lower s)

normalize-known :
    (s : String) → contains (normalize_recommendation_type s) recommendation_types ≡ true
unfolding normalize_recommendation_type contains
normalize-known s = elim (Bool-cases (s == "")) [
  | inl e ↦ rw e refl
  | inr e ↦ rw e (known_type-known (strip s) (legacy_type (strip s)) refl)
]

known-cases :
    (t : String)
    → contains t recommendation_types ≡ true
    → (t ≡ "review_priority") ⊎ ((t ≡ "case_action") ⊎ (t ≡ "rule_candidate"))
unfolding contains
known-cases t h =
    ground (arith, eq_iff "review_priority" t, eq_iff "case_action" t, eq_iff "rule_candidate" t)

normalize-fixes :
    (t : String) → contains t recommendation_types ≡ true → normalize_recommendation_type t ≡ t
unfolding normalize_recommendation_type contains strip lower
normalize-fixes t h = elim (known-cases t h) [
  | inl e ↦ rw e refl
  | inr (inl e) ↦ rw e refl
  | inr (inr e) ↦ rw e refl
]

-- Every type, legacy or malformed, is normalised to one of the three types, and a second
-- normalisation changes nothing.
pub normalize-idempotent :
    (s : String)
    → (contains (normalize_recommendation_type s) recommendation_types ≡ true)
      × (normalize_recommendation_type (normalize_recommendation_type s)
          ≡ normalize_recommendation_type s)
normalize-idempotent s =
    (normalize-known s, normalize-fixes (normalize_recommendation_type s) (normalize-known s))
