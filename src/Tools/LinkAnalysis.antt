-- ===== src/Tools/LinkAnalysis.antt =====
-- `run_link_analysis` of app/tools/_core/link_analysis_logic.py, on histories of dicts.
-- `to_datetime` reads a time as a number of microseconds from an instant before all of them,
-- `epoch` is 1970; the texts of numbers are parameters.
pub mod Counts
pub mod Bounds
use Prim.Native.String.{◌++◌ as append}
use card_fraud_ops_analyst_a.Prelude.{
  ℕ, suc, ◌+◌, ◌*◌, String, Bool, true, false, Option, none, some, List, [], ◌∷◌, ◌++◌, ◌==◌, ◌&&◌,
  ◌||◌, not, if◌then◌else◌, contains, strip, length, leb, ltb,
}
use card_fraud_ops_analyst_a.Value.{Value, null, bool, num, str, arr, obj, Fields, get}
use card_fraud_ops_analyst_a.Floats.{Floats, max_f, min_f}
use card_fraud_ops_analyst_a.Service.Results.{joined}

pub record Hypothesis (F : Type 0) : Type 0 where
  pub hypothesis : String
  pub confidence : F
  pub supporting_evidence : List String

pub record LinkResult (F : Type 0) : Type 0 where
  pub distinct_merchants_5m : ℕ
  pub distinct_merchants_1h : ℕ
  pub distinct_merchants_24h : ℕ
  pub card_burst_score : F
  pub distinct_cards_1h : ℕ
  pub distinct_cards_24h : ℕ
  pub merchant_burst_score : F
  pub signals : List String
  pub hypotheses : List (Hypothesis F)
  pub summary : String
  pub overall_score : F

abbrev pub timestamp_keys : List String
timestamp_keys =
    "transaction_timestamp" ∷ "timestamp" ∷ "occurred_at" ∷ "created_at" ∷ "ingestion_timestamp"
    ∷ []

-- `ts <= reference` and at most so many minutes before it
abbrev pub within_window : ℕ → Option ℕ → ℕ → Bool
within_window reference none minutes = false
within_window reference (some ts) minutes =
    leb ts reference && leb reference (ts + minutes * 60000000)

module _ {F : Type 0} (fl : Floats F) where
  open fl use {pct, le, lt, div, mul, add, from_nat, round}

  -- `_bounded_ratio`
  unfoldable pub bounded_ratio : F → F → F
  bounded_ratio numerator denominator =
      if le denominator (pct 0)
      then pct 0
      else max_f fl (pct 0) (min_f fl (pct 100) (div numerator denominator))

  -- the ratio of a count
  abbrev pub ratio_of : ℕ → ℕ → F
  ratio_of n limit = bounded_ratio (from_nat n) (from_nat limit)

  unfoldable pub card_burst : ℕ → ℕ → ℕ → F
  card_burst m5 h1 h24 = max_f fl (max_f fl (ratio_of m5 3) (ratio_of h1 6)) (ratio_of h24 12)

  unfoldable pub merchant_burst : ℕ → ℕ → F
  merchant_burst h1 h24 = max_f fl (ratio_of h1 8) (ratio_of h24 20)

module _ {F : Type 0} (to_datetime : Value F → Option ℕ) where
  abbrev pub or_later : Option ℕ → Option ℕ → Option ℕ
  or_later none later = later
  or_later (some ts) later = some ts

  abbrev pub read_time : Option (Value F) → Option ℕ
  read_time none = none
  read_time (some v) = to_datetime v

  abbrev pub first_time : List String → Fields F → Option ℕ
  first_time [] item = none
  first_time (k ∷ ks) item = or_later (read_time (get k item)) (first_time ks item)

  -- `_extract_timestamp`
  unfoldable pub extract_timestamp : Fields F → Option ℕ
  extract_timestamp item = first_time timestamp_keys item

  abbrev pub max_time : Option ℕ → Option ℕ → Option ℕ
  max_time none b = b
  max_time (some a) none = some a
  max_time (some a) (some b) = if ltb a b then some b else some a

  abbrev pub latest_time : List (Fields F) → Option ℕ
  latest_time [] = none
  latest_time (e ∷ es) = max_time (extract_timestamp e) (latest_time es)

  abbrev pub time_or : ℕ → Option ℕ → ℕ
  time_or d none = d
  time_or d (some ts) = ts

  -- `_resolve_reference_timestamp`
  unfoldable pub resolve_reference_timestamp : ℕ → Fields F → List (Fields F) → List (Fields F) → ℕ
  unfolding extract_timestamp
  resolve_reference_timestamp epoch transaction cards merchants =
      time_or epoch (or_later (extract_timestamp transaction) (latest_time (cards ++ merchants)))

  abbrev pub add_text : Option (Value F) → List String → List String
  add_text (some (str s)) seen =
      let value = strip s in
      if value == "" then seen else if contains value seen then seen else value ∷ seen
  add_text _ seen = seen

  -- the texts that `_distinct_count` counts
  unfoldable pub distinct_texts : ℕ → ℕ → String → List (Fields F) → List String
  distinct_texts reference minutes name [] = []
  distinct_texts reference minutes name (e ∷ es) =
      let rest = distinct_texts reference minutes name es in
      if within_window reference (extract_timestamp e) minutes
      then add_text (get name e) rest
      else rest

  -- `_distinct_count`
  abbrev pub distinct_count : List (Fields F) → ℕ → ℕ → String → ℕ
  distinct_count entries reference minutes name =
      length (distinct_texts reference minutes name entries)

module _ {F : Type 0} (fl : Floats F) (show_nat : ℕ → String)
    (show_float two_places : F → String) where
  open fl use {pct, mul, add, round}

  abbrev pub named : String → String → String
  named name value = append name (append "=" value)

  -- A branch of the source appends one text to the signals and one dict to the hypotheses; here it
  -- gives the pair of them.
  abbrev pub card_testing : ℕ → ℕ → F → List (String × Hypothesis F)
  card_testing m5 h1 score =
      if leb 3 m5 || leb 6 h1
      then (
        "card_testing_signature",
        record {
          hypothesis = "Card testing pattern likely (rapid card fan-out to multiple merchants).";
          confidence = round (max_f fl (pct 55) score) 4;
          supporting_evidence =
              named "distinct_merchants_5m" (show_nat m5)
              ∷ named "distinct_merchants_1h" (show_nat h1)
              ∷ named "card_fan_out_burst_score" (show_float (round score 4))
              ∷ [];
        },
      )
        ∷ []
      else []

  abbrev pub mule_merchant : ℕ → F → List (String × Hypothesis F)
  mule_merchant h1 score =
      if leb 8 h1
      then (
        "mule_merchant_signature",
        record {
          hypothesis = "Merchant fan-in indicates potential mule merchant coordination.";
          confidence = round (max_f fl (pct 60) score) 4;
          supporting_evidence =
              named "distinct_cards_1h" (show_nat h1)
              ∷ named "merchant_fan_in_burst_score" (show_float (round score 4))
              ∷ [];
        },
      )
        ∷ []
      else []

  abbrev pub compromised_merchant : ℕ → ℕ → F → F → List (String × Hypothesis F)
  compromised_merchant cards_24h merchants_1h cards merchants =
      if leb 20 cards_24h && leb 4 merchants_1h
      then (
        "compromised_merchant_signature",
        record {
          hypothesis = "Cross-card concentration suggests possible compromised merchant ecosystem.";
          confidence =
              round (max_f fl (pct 65) (add (mul merchants (pct 60)) (mul cards (pct 40)))) 4;
          supporting_evidence =
              named "distinct_cards_24h" (show_nat cards_24h)
              ∷ named "distinct_merchants_1h" (show_nat merchants_1h)
              ∷ [];
        },
      )
        ∷ []
      else []

  abbrev pub firsts : List (String × Hypothesis F) → List String
  firsts [] = []
  firsts ((signal, h) ∷ rest) = signal ∷ firsts rest

  abbrev pub seconds : List (String × Hypothesis F) → List (Hypothesis F)
  seconds [] = []
  seconds ((signal, h) ∷ rest) = h ∷ seconds rest

  -- `max(…)` over the rest, from the first
  abbrev pub best_from : F → List (Hypothesis F) → F
  best_from best [] = best
  best_from best (h ∷ hs) = best_from (max_f fl best h.confidence) hs

  abbrev pub best_confidence : List (Hypothesis F) → F
  best_confidence [] = pct 0
  best_confidence (h ∷ hs) = best_from h.confidence hs

  abbrev pub summary_of : List String → F → String
  summary_of [] overall =
      "Link-analysis found no strong ring signatures in card/merchant histories."
  summary_of (s ∷ ss) overall =
      append "Link-analysis detected " (
        append (joined ", " (s ∷ ss))
          (append " (overall_score=" (append (two_places overall) ").")))

  -- the payload, from the counts
  unfoldable pub link_result : ℕ → ℕ → ℕ → ℕ → ℕ → LinkResult F
  unfolding card_burst merchant_burst
  link_result m5 m1h m24h c1h c24h =
      let cards = card_burst fl m5 m1h m24h in
      let merchants = merchant_burst fl c1h c24h in
      let found =
        card_testing m5 m1h cards
        ++ mule_merchant c1h merchants
        ++ compromised_merchant c24h m1h cards merchants in
      let overall =
        round (max_f fl (max_f fl cards merchants) (best_confidence (seconds found))) 4 in
      record {
        distinct_merchants_5m = m5;
        distinct_merchants_1h = m1h;
        distinct_merchants_24h = m24h;
        card_burst_score = round cards 4;
        distinct_cards_1h = c1h;
        distinct_cards_24h = c24h;
        merchant_burst_score = round merchants 4;
        signals = firsts found;
        hypotheses = seconds found;
        summary = summary_of (firsts found) overall;
        overall_score = overall;
      }

module _ {F : Type 0} (fl : Floats F) (to_datetime : Value F → Option ℕ) (epoch : ℕ)
    (show_nat : ℕ → String) (show_float two_places : F → String) where
  -- `run_link_analysis`
  unfoldable pub run_link_analysis : Fields F → List (Fields F) → List (Fields F) → LinkResult F
  unfolding link_result resolve_reference_timestamp distinct_texts
  run_link_analysis transaction cards merchants =
      let at = resolve_reference_timestamp to_datetime epoch transaction cards merchants in
      link_result fl show_nat show_float two_places
        (distinct_count to_datetime cards at 5 "merchant_id")
        (distinct_count to_datetime cards at 60 "merchant_id")
        (distinct_count to_datetime cards at 1440 "merchant_id")
        (distinct_count to_datetime merchants at 60 "card_id")
        (distinct_count to_datetime merchants at 1440 "card_id")
