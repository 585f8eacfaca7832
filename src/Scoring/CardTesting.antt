-- ===== src/Scoring/CardTesting.antt =====
-- `score_card_testing` of app/tools/_core/pattern_logic.py. Timestamps are texts; the instant that
-- `datetime.fromisoformat` reads in one, in microseconds, is a parameter.
use Prim.Native.String.{compare}
use mathlib.Core.Option
use text.Mathlib.Text.{is_le}
use card_fraud_ops_analyst_a.Prelude.{
  ℕ, ◌+◌, ◌-◌, String, Bool, true, false, Option, none, some, List, [], ◌∷◌, ◌++◌, if◌then◌else◌,
  ◌==◌, ◌&&◌, not, leb, length, take, contains, upper, map,
}
use card_fraud_ops_analyst_a.Value.{Value, null, num, bool, str, Fields, get}
use card_fraud_ops_analyst_a.Floats.{Floats, truthy, to_float}
use card_fraud_ops_analyst_a.Scoring.Tally.{
  PatternScore, Tally, no_tally, raise_to, set_to, note, note_count, scored, float_field,
}
use card_fraud_ops_analyst_a.Scoring.Time.{or_else}

-- A transaction of the history with its instant.
pub record Recent (F : Type 0) : Type 0 where
  pub at : ℕ
  pub txn : Fields F

module _ {F : Type 0} (fl : Floats F) (instant : String → Option ℕ) where
  open fl use {pct, le, lt, mul, div, round, from_nat, text_of}

  -- `x.get("transaction_timestamp", "")` where that is a text; of another value, on which the sort
  -- may raise, it is "" here
  abbrev pub stamp : Fields F → String
  stamp txn = elim (get "transaction_timestamp" txn) [ some (str s) ↦ s | _ ↦ "" ]

  unfoldable pub insert_newest : Fields F → List (Fields F) → List (Fields F)
  insert_newest txn [] = txn ∷ []
  insert_newest txn (x ∷ xs) =
      let rest = insert_newest txn xs in
      if is_le (compare (stamp x) (stamp txn)) then txn ∷ x ∷ xs else x ∷ rest

  -- `sorted(card_history, key=..., reverse=True)`, stable
  unfoldable pub newest_first : List (Fields F) → List (Fields F)
  unfolding insert_newest
  newest_first [] = []
  newest_first (txn ∷ txns) = insert_newest txn (newest_first txns)

  abbrev pub within_hour : ℕ → ℕ → Bool
  within_hour a b = leb ((a - b) + (b - a)) 3600000000

  abbrev pub keep_recent : ℕ → Fields F → Option ℕ → List (Recent F) → List (Recent F)
  keep_recent now txn none rest = rest
  keep_recent now txn (some at) rest =
      if within_hour now at then record { at = at; txn = txn } ∷ rest else rest

  -- the loop over the last ten transactions; an empty timestamp has no instant, and all instants
  -- have a time zone or none has, so that they can be subtracted
  unfoldable pub recent_of : ℕ → List (Fields F) → List (Recent F)
  recent_of now [] = []
  recent_of now (txn ∷ txns) =
      keep_recent now txn (if stamp txn == "" then none else instant (stamp txn))
        (recent_of now txns)

  unfoldable pub insert_oldest : Recent F → List (Recent F) → List (Recent F)
  insert_oldest r [] = r ∷ []
  insert_oldest r (x ∷ xs) =
      let rest = insert_oldest r xs in if leb r.at x.at then r ∷ x ∷ xs else x ∷ rest

  -- `recent_txns_with_ts.sort(key=...)`, stable
  unfoldable pub oldest_first : List (Recent F) → List (Recent F)
  unfolding insert_oldest
  oldest_first [] = []
  oldest_first (r ∷ rs) = insert_oldest r (oldest_first rs)

  -- `recent_txns`
  unfoldable pub recent_txns : Option ℕ → List (Fields F) → List (Fields F)
  unfolding newest_first recent_of oldest_first
  recent_txns none history = []
  recent_txns (some now) history =
      map (λ (r : Recent F). r.txn) (oldest_first (recent_of now (take 10 (newest_first history))))

  -- the amounts that are not `None`; `none` where `float` raises
  abbrev pub known : Option (Value F) → Option (List F) → Option (List F)
  known none xs = xs
  known (some null) xs = xs
  known (some v) xs = Option.bind (to_float fl v) (λ x. Option.map (λ l. x ∷ l) xs)

  unfoldable pub known_amounts : List (Fields F) → Option (List F)
  known_amounts [] = some []
  known_amounts (txn ∷ txns) = known (get "amount" txn) (known_amounts txns)

  -- every amount is below the next
  unfoldable pub increasing : List F → Bool
  increasing [] = true
  increasing (x ∷ []) = true
  increasing (x ∷ y ∷ ys) = lt x y && increasing (y ∷ ys)

  -- `amounts[-1]`
  abbrev pub last_or : F → List F → F
  last_or d [] = d
  last_or d (x ∷ xs) = last_or x xs

  -- the text of the range of amounts is left out
  abbrev pub on_ladder : List F → Tally F → Tally F
  on_ladder [] t = t
  on_ladder (x ∷ xs) t =
      if leb 3 (length (x ∷ xs)) && (increasing (x ∷ xs) && lt (mul x (from_nat 2)) (last_or x xs))
      then note_count fl "sequence_length" (length (x ∷ xs))
          (note fl "increasing_sequence" (bool true) (set_to fl 80 t))
      else t

  -- `status and str(status).upper() == "DECLINE"`
  abbrev pub is_decline : Option (Value F) → Bool
  is_decline none = false
  is_decline (some v) = truthy fl v && upper (text_of v) == "DECLINE"

  unfoldable pub count_declines : List (Fields F) → ℕ
  unfolding upper
  count_declines [] = 0
  count_declines (txn ∷ txns) =
      (if is_decline (or_else fl instant (get "status" txn) (get "decision" txn)) then 1 else 0)
      + count_declines txns

  unfoldable pub on_declines : List (Fields F) → Tally F → Tally F
  on_declines recent t =
      let n = count_declines recent in
      let rate = div (from_nat n) (from_nat (length recent)) in
      if leb 2 (length recent) && le (pct 50) rate
      then note_count fl "recent_decline_count" n (
          note fl "decline_rate" (num (round rate 2))
            (note fl "high_decline_rate" (bool true) (raise_to fl 70 t)))
      else t

  abbrev pub add_merchant : Option (Value F) → List String → List String
  add_merchant none ms = ms
  add_merchant (some v) ms =
      if truthy fl v && not (contains (text_of v) ms) then text_of v ∷ ms else ms

  -- `merchant_ids`, by the texts of the ids
  unfoldable pub merchant_ids : List (Fields F) → List String
  unfolding contains
  merchant_ids [] = []
  merchant_ids (txn ∷ txns) = add_merchant (get "merchant_id" txn) (merchant_ids txns)

  unfoldable pub on_merchants : Fields F → List (Fields F) → Tally F → Tally F
  unfolding merchant_ids
  on_merchants txn recent t =
      let n = length (merchant_ids (txn ∷ recent)) in
      if leb 3 n
      then note_count fl "unique_merchants" n
          (note fl "multiple_merchants" (bool true) (raise_to fl 60 t))
      else t

  -- `float(txn.get("amount", 0)) < 10`, counted; `none` where `float` raises
  unfoldable pub count_small : List (Fields F) → Option ℕ
  count_small [] = some 0
  count_small (txn ∷ txns) =
      let rest = count_small txns in
      Option.bind (float_field fl "amount" txn)
        (λ x. Option.map (λ n. (if lt x (from_nat 10) then 1 else 0) + n) rest)

  abbrev pub note_small : Tally F → ℕ → Tally F
  note_small t n =
      if leb 2 n
      then note_count fl "small_txn_count" (n + 1)
          (note fl "small_amount_sequence" (bool true) (raise_to fl 70 t))
      else t

  unfoldable pub on_small : F → List (Fields F) → Tally F → Option (Tally F)
  unfolding count_small
  on_small amount recent t =
      if lt (pct 0) amount && lt amount (from_nat 10)
      then Option.map (note_small t) (count_small recent)
      else some t

  -- the ladder of amounts is looked for with three recent transactions
  abbrev pub ladder_step : F → List (Fields F) → Tally F → Option (Tally F)
  ladder_step amount recent t =
      if leb 3 (length recent)
      then Option.map (λ xs. on_ladder (xs ++ amount ∷ []) t) (known_amounts recent)
      else some t

  abbrev pub testing_tally : Fields F → F → List (Fields F) → Option (Tally F)
  testing_tally txn amount recent =
      Option.bind (ladder_step amount recent (no_tally fl))
        (λ t. on_small amount recent (on_merchants txn recent (on_declines recent t)))

  abbrev pub current_instant : Fields F → Option ℕ
  current_instant txn = elim (get "transaction_timestamp" txn) [
    | some (str s) ↦ instant s
    | _ ↦ none
  ]

  -- `score_card_testing`; `none` where `float` raises.
  unfoldable pub score_card_testing : Option (Fields F) → List (Fields F) → Option (PatternScore F)
  unfolding recent_txns known_amounts increasing on_declines on_merchants on_small
  score_card_testing none history = some (scored fl "card_testing" 35 (no_tally fl))
  score_card_testing (some txn) [] = some (scored fl "card_testing" 35 (no_tally fl))
  score_card_testing (some txn) (h ∷ history) = Option.bind (float_field fl "amount" txn) (λ amount.
      Option.map (scored fl "card_testing" 35)
        (testing_tally txn amount (recent_txns (current_instant txn) (h ∷ history))))
