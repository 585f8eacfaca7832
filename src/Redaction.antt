-- ===== src/Redaction.antt =====
-- app/utils/redaction.py: what is taken out of a context before the LLM sees it. `redact_pii`, two
-- substitutions by regular expressions, is a parameter.
pub mod Clean
use Prim.Native.String.{◌++◌ as append}
use card_fraud_ops_analyst_a.Prelude.{
  ℕ, zero, suc, ◌-◌, String, Bool, true, false, List, [], ◌∷◌, ◌||◌, ◌&&◌, if◌then◌else◌, ◌==◌, leb,
  contains, strip, lower, is_infix, first_chars, text_length, after_chars, length,
}
use card_fraud_ops_analyst_a.Value.{
  Value, null, bool, num, str, arr, obj, Items, nil, cons, items, Fields, end, field, put,
}
use card_fraud_ops_analyst_a.Floats.{Floats, truthy}

abbrev pub redacted : String
redacted = "***REDACTED***"

-- `_SENSITIVE_KEY_FRAGMENTS`
abbrev pub sensitive_key_fragments : List String
sensitive_key_fragments =
    "card" ∷ "customer" ∷ "user" ∷ "email" ∷ "phone" ∷ "first_name" ∷ "last_name" ∷ "full_name"
    ∷ "legal_name" ∷ "ip" ∷ "address" ∷ "token" ∷ "secret" ∷ "auth" ∷ "session" ∷ "device" ∷ "note"
    ∷ "account" ∷ "merchant" ∷ "pan" ∷ []

-- `_SENSITIVE_NAME_PARENT_FRAGMENTS`
abbrev pub sensitive_name_parent_fragments : List String
sensitive_name_parent_fragments =
    "customer" ∷ "user" ∷ "cardholder" ∷ "holder" ∷ "person" ∷ "identity" ∷ "profile" ∷ "account"
    ∷ []

unfoldable pub redact_card_id : String → String
unfolding text_length
redact_card_id card_id =
    let n = text_length card_id in
    if card_id == ""
    then ""
    else if leb 9 n
    then append (first_chars 4 card_id) (append "***" (after_chars (n - 4) card_id))
    else redacted

abbrev pub any_fragment : List String → String → Bool
any_fragment [] text = false
any_fragment (f ∷ fs) text = is_infix f text || any_fragment fs text

-- `_is_sensitive_key`
unfoldable pub is_sensitive_key : String → Bool
is_sensitive_key key =
    let normalized = lower (strip key) in
    if normalized == "" then false else any_fragment sensitive_key_fragments normalized

-- `_is_name_in_sensitive_context`
unfoldable pub is_name_in_sensitive_context : String → Bool
is_name_in_sensitive_context parent =
    let normalized = lower (strip parent) in
    if normalized == "" then false else any_fragment sensitive_name_parent_fragments normalized

module _ {F : Type 0} (fl : Floats F) (redact_pii : String → String) where
  open fl use {from_nat}

  abbrev pub is_text : Value F → Bool
  is_text (str _) = true
  is_text _ = false

  abbrev pub mask : Value F → Value F
  mask (str s) = str (redact_card_id s)
  mask v = v

  -- `len(v)` of a list, else `int(bool(v))`
  abbrev pub count_of : Value F → Value F
  count_of (arr vs) = num (from_nat (length (items vs)))
  count_of v = num (from_nat (if truthy fl v then 1 else 0))

  abbrev pub hidden : String → Value F → String × Value F
  hidden key (arr vs) = (append key "_count", num (from_nat (length (items vs))))
  hidden key v = (key, str redacted)

  -- What a key of a dict becomes: `clean` is its sanitized value.
  unfoldable pub entry : String → String → Value F → Value F → String × Value F
  entry parent key raw clean =
      if lower key == "card_id" && is_text raw
      then (key, mask raw)
      else if lower key == "name" && is_name_in_sensitive_context parent
      then (key, str redacted)
      else if contains (lower key) ("notes" ∷ "analyst_notes" ∷ [])
      then (append key "_count", count_of raw)
      else if is_sensitive_key key
      then hidden key raw
      else (key, clean)

  abbrev pub put_entry : String × Value F → Fields F → Fields F
  put_entry (key, v) fields = put key v fields

  -- `_sanitize_value`, on a value, on at most so many items of a list, and on the keys of a dict
  unfoldable mutual
    pub sanitize_value : Value F → String → Value F
    sanitize_value (obj fs) parent = obj (sanitize_fields fs parent end)
    sanitize_value (arr vs) parent =
        let kept = sanitize_items vs 20 parent in
        if is_sensitive_key parent then str redacted else arr kept
    sanitize_value (str s) parent =
        if is_sensitive_key parent then str redacted else str (redact_pii s)
    sanitize_value null parent = null
    sanitize_value (bool b) parent = bool b
    sanitize_value (num x) parent = num x

    pub sanitize_items : Items F → ℕ → String → Items F
    sanitize_items nil k parent = nil
    sanitize_items (cons v vs) zero parent = nil
    sanitize_items (cons v vs) (suc k) parent =
        cons (sanitize_value v parent) (sanitize_items vs k parent)

    pub sanitize_fields : Fields F → String → Fields F → Fields F
    sanitize_fields end parent done = done
    sanitize_fields (field key v fs) parent done =
        sanitize_fields fs parent (put_entry (entry parent key v (sanitize_value v key)) done)

  -- `redact_state_for_llm`
  unfoldable pub redact_state_for_llm : Fields F → Fields F
  redact_state_for_llm state = sanitize_fields state "" end
