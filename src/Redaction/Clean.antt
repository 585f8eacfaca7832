-- ===== src/Redaction/Clean.antt =====
-- What the redaction (app/utils/redaction.py) leaves.
use Prim.Native.String.{◌++◌ as append}
use card_fraud_ops_analyst_a.Prelude.{
  ℕ, zero, suc, ◌≡◌, ◌⊎◌, inl, inr, String, Bool, true, false, ◌&&◌, ◌==◌, [], ◌∷◌, eq_iff,
  Bool-cases, true≢false_of, refl, arith, if◌then◌else◌, contains, lower,
}
use card_fraud_ops_analyst_a.Value.{
  Value, null, bool, num, str, arr, obj, Items, nil, cons, Fields, end, field, put,
}
use card_fraud_ops_analyst_a.Floats.{Floats}
use card_fraud_ops_analyst_a.Redaction.{
  redacted, redact_card_id, is_sensitive_key, is_name_in_sensitive_context, is_text, mask, count_of,
  hidden, entry, sanitize_value, sanitize_items, sanitize_fields, redact_state_for_llm,
}

-- A text that has been through the redaction.
abbrev pub IsCleanText : (String → String) → String → Type 0
IsCleanText redact_pii t =
    (t ≡ redacted) ⊎ (((s : String) × (t ≡ redact_card_id s)) ⊎ ((s : String) × (t ≡ redact_pii s)))

module _ {F : Type 0} (fl : Floats F) (redact_pii : String → String) where
  open fl use {from_nat}

  -- What may stand under a sensitive key: the marker, under `card_id` a masked card, and under a
  -- key with the suffix `_count` a count.
  abbrev pub IsMask : String → Value F → Type 0
  IsMask key v =
      (v ≡ str redacted)
      ⊎ (((lower key ≡ "card_id") × ((s : String) × (v ≡ str (redact_card_id s))))
          ⊎ ((base : String) × (key ≡ append base "_count") × ((n : ℕ) × (v ≡ num (from_nat n)))))

  -- Every text is clean and every sensitive key masked, however deep.
  unfoldable mutual
    pub IsClean : Value F → Type 0
    IsClean null = Unit {0}
    IsClean (bool _) = Unit {0}
    IsClean (num _) = Unit {0}
    IsClean (str t) = IsCleanText redact_pii t
    IsClean (arr vs) = AreClean vs
    IsClean (obj fs) = HasClean fs

    pub AreClean : Items F → Type 0
    AreClean nil = Unit {0}
    AreClean (cons v vs) = IsClean v × AreClean vs

    pub HasClean : Fields F → Type 0
    HasClean end = Unit {0}
    HasClean (field key v fs) =
        ((is_sensitive_key key ≡ true → IsMask key v) × IsClean v) × HasClean fs

  IsMask-at : (j key : String) (v : Value F) → j ≡ key → IsMask key v → IsMask j v
  IsMask-at j key v e h = rw e h

  put-HasClean :
      (key : String) (v : Value F) (fs : Fields F)
      → (is_sensitive_key key ≡ true → IsMask key v)
      → IsClean v
      → HasClean fs
      → HasClean (put key v fs)
  unfolding put HasClean
  put-HasClean key v end m c h = ((m, c), tt)
  put-HasClean key v (field j w fs) m c h = elim (Bool-cases (j == key)) [
    | inl e ↦
        let same = (eq_iff j key).0 e in
        rw e ((λ s. IsMask-at j key v same (m (rw same at s)), c), h.1)
    | inr e ↦ rw e (h.0, put-HasClean key v fs m c h.1)
  ]

  -- What becomes of a key is masked if the key is sensitive, and clean.
  abbrev IsCleanEntry : String × Value F → Type 0
  IsCleanEntry e = (is_sensitive_key e.0 ≡ true → IsMask e.0 e.1) × IsClean e.1

  card-IsCleanEntry :
      (key : String) (v : Value F)
      → lower key ≡ "card_id"
      → is_text fl redact_pii v ≡ true
      → IsCleanEntry (key, mask fl redact_pii v)
  unfolding IsClean
  card-IsCleanEntry key (str s) k h = (λ _. inr (inl (k, (s, refl))), inr (inl (s, refl)))
  card-IsCleanEntry key null k h = absurd (true≢false_of h refl)
  card-IsCleanEntry key (bool _) k h = absurd (true≢false_of h refl)
  card-IsCleanEntry key (num _) k h = absurd (true≢false_of h refl)
  card-IsCleanEntry key (arr _) k h = absurd (true≢false_of h refl)
  card-IsCleanEntry key (obj _) k h = absurd (true≢false_of h refl)

  marker-IsCleanEntry : (key : String) → IsCleanEntry (key, str redacted)
  unfolding IsClean
  marker-IsCleanEntry key = (λ _. inl refl, inl refl)

  count-IsCleanEntry :
      (base : String) (n : ℕ) → IsCleanEntry (append base "_count", num (from_nat n))
  unfolding IsClean
  count-IsCleanEntry base n = (λ _. inr (inr (base, refl, (n, refl))), tt)

  hidden-IsCleanEntry : (key : String) (v : Value F) → IsCleanEntry (hidden fl redact_pii key v)
  hidden-IsCleanEntry key (arr vs) = count-IsCleanEntry key _
  hidden-IsCleanEntry key null = marker-IsCleanEntry key
  hidden-IsCleanEntry key (bool _) = marker-IsCleanEntry key
  hidden-IsCleanEntry key (num _) = marker-IsCleanEntry key
  hidden-IsCleanEntry key (str _) = marker-IsCleanEntry key
  hidden-IsCleanEntry key (obj _) = marker-IsCleanEntry key

  counted-IsCleanEntry :
      (key : String) (v : Value F) → IsCleanEntry (append key "_count", count_of fl redact_pii v)
  counted-IsCleanEntry key (arr vs) = count-IsCleanEntry key _
  counted-IsCleanEntry key null = count-IsCleanEntry key _
  counted-IsCleanEntry key (bool _) = count-IsCleanEntry key _
  counted-IsCleanEntry key (num _) = count-IsCleanEntry key _
  counted-IsCleanEntry key (str _) = count-IsCleanEntry key _
  counted-IsCleanEntry key (obj _) = count-IsCleanEntry key _

  entry-IsCleanEntry :
      (parent key : String) (raw clean : Value F)
      → IsClean clean
      → IsCleanEntry (entry fl redact_pii parent key raw clean)
  unfolding entry
  entry-IsCleanEntry parent key raw clean c =
      elim (Bool-cases (lower key == "card_id" && is_text fl redact_pii raw)) [
        | inl e ↦ rw e (
            card-IsCleanEntry key raw (ground (arith, e, eq_iff (lower key) "card_id"))
              (ground arith))
        | inr e ↦ elim (Bool-cases (lower key == "name" && is_name_in_sensitive_context parent)) [
          | inl f ↦ rw (e, f) (marker-IsCleanEntry key)
          | inr f ↦ elim (Bool-cases (contains (lower key) ("notes" ∷ "analyst_notes" ∷ []))) [
            | inl g ↦ rw (e, f, g) (counted-IsCleanEntry _ raw)
            | inr g ↦ elim (Bool-cases (is_sensitive_key key)) [
              | inl s ↦ rw (e, f, g, s) (hidden-IsCleanEntry key raw)
              | inr s ↦ rw (e, f, g, s) ((λ t. absurd (true≢false_of t s)), c)
            ]
          ]
        ]
      ]

  text-IsCleanText :
      (b : Bool) (s : String) → IsClean (if b then str redacted else str (redact_pii s))
  unfolding IsClean
  text-IsCleanText true s = inl refl
  text-IsCleanText false s = inr (inr (s, refl))

  list-IsClean :
      (b : Bool) (vs : Items F) → AreClean vs → IsClean (if b then str redacted else arr vs)
  unfolding IsClean
  list-IsClean true vs h = inl refl
  list-IsClean false vs h = h

  mutual
    unfolding IsClean sanitize_value

    sanitize_value-IsClean :
        (v : Value F) (parent : String) → IsClean (sanitize_value fl redact_pii v parent)
    sanitize_value-IsClean (obj fs) parent = sanitize_fields-HasClean fs parent end tt
    sanitize_value-IsClean (arr vs) parent =
        list-IsClean (is_sensitive_key parent) (sanitize_items fl redact_pii vs 20 parent)
          (sanitize_items-AreClean vs 20 parent)
    sanitize_value-IsClean (str s) parent = text-IsCleanText (is_sensitive_key parent) s
    sanitize_value-IsClean null parent = tt
    sanitize_value-IsClean (bool b) parent = tt
    sanitize_value-IsClean (num x) parent = tt

    sanitize_items-AreClean :
        (vs : Items F) (k : ℕ) (parent : String)
        → AreClean (sanitize_items fl redact_pii vs k parent)
    sanitize_items-AreClean nil k parent = tt
    sanitize_items-AreClean (cons v vs) zero parent = tt
    sanitize_items-AreClean (cons v vs) (suc k) parent =
        (sanitize_value-IsClean v parent, sanitize_items-AreClean vs k parent)

    sanitize_fields-HasClean :
        (fs : Fields F) (parent : String) (kept : Fields F)
        → HasClean kept
        → HasClean (sanitize_fields fl redact_pii fs parent kept)
    sanitize_fields-HasClean end parent kept h = h
    sanitize_fields-HasClean (field key v fs) parent kept h =
        let e = entry fl redact_pii parent key v (sanitize_value fl redact_pii v key) in
        let c =
          entry-IsCleanEntry parent key v (sanitize_value fl redact_pii v key)
            (sanitize_value-IsClean v key) in
        sanitize_fields-HasClean fs parent (put e.0 e.1 kept) (put-HasClean e.0 e.1 kept c.0 c.1 h)

  -- However deep a redacted context is: under a key that speaks of cards, customers, tokens or
  -- the like there is the marker, or a masked card if the key is `card_id`, or a natural number if
  -- the key ends in `_count`, and every text has been through `redact_pii` or `redact_card_id`, or
  -- is the marker.
  pub redact-HasClean : (state : Fields F) → HasClean (redact_state_for_llm fl redact_pii state)
  unfolding redact_state_for_llm HasClean
  redact-HasClean state = sanitize_fields-HasClean state "" end tt
