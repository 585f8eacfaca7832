-- ===== src/Tools/Context.antt =====
-- The time windows and signals of app/tools/_core/context_logic.py. `coerce_datetime` is Python's
-- reading of a time, in microseconds; where the code raises, the result is `none`. Card and
-- merchant ids are compared as texts.
pub mod Nested
use mathlib.Core.Option
use card_fraud_ops_analyst_a.Prelude.{
  ℕ, suc, ◌+◌, ◌*◌, String, Bool, true, false, Option, none, some, List, [], ◌∷◌, ◌++◌, ◌==◌, ◌&&◌,
  not, if◌then◌else◌, contains, strip, upper, length, leb, ltb,
}
use card_fraud_ops_analyst_a.Value.{Value, null, bool, num, str, arr, obj, Fields, get, get_or}
use card_fraud_ops_analyst_a.Floats.{Floats, truthy, to_float}
use card_fraud_ops_analyst_a.Service.Results.{joined}

pub record WindowStats (F : Type 0) : Type 0 where
  pub window_hours : ℕ
  pub transaction_count : ℕ
  pub total_amount : F
  pub decline_count : ℕ
  pub unique_merchants : ℕ
  pub unique_cards : ℕ

abbrev pub window_sizes : List ℕ
window_sizes = 1 ∷ 6 ∷ 24 ∷ 72 ∷ []

-- `timedelta(hours=hours)`
abbrev pub microseconds : ℕ → ℕ
microseconds hours = hours * 3600000000

module _ {F : Type 0} (fl : Floats F) (coerce_datetime : Option (Value F) → Option ℕ) where
  open fl use {pct, sum, text_of}

  -- `_is_decline_status`
  unfoldable pub is_decline_status : Option (Value F) → Option Bool
  is_decline_status none = some false
  is_decline_status (some null) = some false
  is_decline_status (some (str s)) = some (contains (upper (strip s)) ("DECLINE" ∷ "DECLINED" ∷ []))
  is_decline_status (some _) = none

  -- `float(t.get("amount", 0) or 0)`
  abbrev pub amount_of : Option (Value F) → Option F
  amount_of none = some (pct 0)
  amount_of (some v) = if truthy fl v then to_float fl v else some (pct 0)

  abbrev pub amounts : List (Fields F) → Option (List F)
  amounts [] = some []
  amounts (t ∷ ts) =
      Option.bind (amount_of (get "amount" t)) (λ x. Option.map (λ xs. x ∷ xs) (amounts ts))

  abbrev pub count_if : Bool → ℕ → ℕ
  count_if b n = if b then suc n else n

  abbrev pub declines : List (Fields F) → Option ℕ
  declines [] = some 0
  declines (t ∷ ts) =
      Option.bind (is_decline_status (get "status" t)) (λ b. Option.map (count_if b) (declines ts))

  abbrev pub add_distinct : Option (Value F) → List String → List String
  add_distinct none seen = seen
  add_distinct (some v) seen =
      let key = text_of v in if truthy fl v && not (contains key seen) then key ∷ seen else seen

  -- `set(t.get(key) for t in transactions if t.get(key))`
  unfoldable pub distinct : String → List (Fields F) → List String
  distinct key [] = []
  distinct key (t ∷ ts) = add_distinct (get key t) (distinct key ts)

  -- `compute_window_stats`
  unfoldable pub compute_window_stats : List (Fields F) → ℕ → Option (WindowStats F)
  unfolding distinct
  compute_window_stats ts hours = Option.bind (amounts ts) (λ xs.
      Option.map
        (λ d. record {
          window_hours = hours;
          transaction_count = length ts;
          total_amount = sum xs;
          decline_count = d;
          unique_merchants = length (distinct "merchant_id" ts);
          unique_cards = length (distinct "card_id" ts);
        })
        (declines ts))

  abbrev pub or_empty : Option (Value F) → String
  or_empty none = ""
  or_empty (some v) = text_of v

  abbrev pub id_text : Option (Value F) → String
  id_text none = ""
  id_text (some v) = if truthy fl v then text_of v else ""

  -- the key of a transaction in `deduped`
  abbrev pub dedup_key : Fields F → String
  dedup_key t =
      let id = id_text (get "transaction_id" t) in
      if id == ""
      then joined "|" (
          or_empty (get "card_id" t)
          ∷ or_empty (get "merchant_id" t)
          ∷ or_empty (get "transaction_timestamp" t)
          ∷ or_empty (get "amount" t)
          ∷ or_empty (get "status" t)
          ∷ [])
      else id

  -- `deduped[key] = txn`
  abbrev pub put_transaction :
      String → Fields F → List (String × Fields F) → List (String × Fields F)
  put_transaction key t [] = (key, t) ∷ []
  put_transaction key t ((j, u) ∷ rest) =
      if j == key then (j, t) ∷ rest else (j, u) ∷ put_transaction key t rest

  unfoldable pub deduped : List (Fields F) → List (String × Fields F) → List (String × Fields F)
  deduped [] done = done
  deduped (t ∷ ts) done = deduped ts (put_transaction (dedup_key t) t done)

  abbrev pub values : List (String × Fields F) → List (Fields F)
  values [] = []
  values ((key, t) ∷ rest) = t ∷ values rest

  -- `cutoff <= ts <= anchor`
  abbrev pub within : ℕ → ℕ → Option ℕ → Bool
  within anchor hours none = false
  within anchor hours (some ts) = leb anchor (ts + microseconds hours) && leb ts anchor

  unfoldable pub window_transactions : ℕ → ℕ → List (Fields F) → List (Fields F)
  window_transactions anchor hours [] = []
  window_transactions anchor hours (t ∷ ts) =
      let rest = window_transactions anchor hours ts in
      if within anchor hours (coerce_datetime (get "transaction_timestamp" t))
      then t ∷ rest
      else rest

  unfoldable pub windows_of : ℕ → List ℕ → List (Fields F) → Option (List (WindowStats F))
  windows_of anchor [] ts = some []
  windows_of anchor (hours ∷ more) ts =
      Option.bind (compute_window_stats (window_transactions anchor hours ts) hours)
        (λ w. Option.map (λ ws. w ∷ ws) (windows_of anchor more ts))

  abbrev pub or_now : ℕ → Option ℕ → ℕ
  or_now now none = now
  or_now now (some anchor) = anchor

  -- `compute_all_windows`, with the clock
  unfoldable pub compute_all_windows :
      ℕ → List (Fields F) → Option (Value F) → Option (List (WindowStats F))
  unfolding windows_of deduped
  compute_all_windows now transactions reference_timestamp =
      windows_of (or_now now (coerce_datetime reference_timestamp)) window_sizes
        (values (deduped transactions []))
