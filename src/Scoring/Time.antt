-- ===== src/Scoring/Time.antt =====
-- `score_time_anomalies` of app/tools/_core/pattern_logic.py. Timestamps and countries are texts;
-- the hour that `datetime.fromisoformat` reads in a timestamp is a parameter.
use Prim.Native.String.{count, ◌++◌ as append}
use card_fraud_ops_analyst_a.Prelude.{
  ℕ, zero, suc, ◌-◌, String, true, Option, none, some, List, [], ◌∷◌, if◌then◌else◌, ◌==◌, ◌==ℕ◌,
  ◌&&◌, not, ltb, leb, length, contains,
}
use card_fraud_ops_analyst_a.Value.{Value, null, num, bool, str, arr, Items, nil, cons, Fields, get}
use card_fraud_ops_analyst_a.Floats.{Floats, truthy}
use card_fraud_ops_analyst_a.Scoring.Tally.{
  PatternScore, Tally, member, no_tally, raise_to, set_to, note, note_count, scored,
}

-- RISK_MERCHANT_CATEGORIES of app/utils/constants.py
abbrev pub high_risk_categories : List String
high_risk_categories =
    "7999" ∷ "4812" ∷ "5812" ∷ "5814" ∷ "5921" ∷ "5947" ∷ "6012" ∷ "6051" ∷ "6211" ∷ "7299" ∷ "7832"
    ∷ []

abbrev pub medium_risk_categories : List String
medium_risk_categories =
    "5411" ∷ "5541" ∷ "5732" ∷ "5734" ∷ "5942" ∷ "5999" ∷ "7512" ∷ "7513" ∷ "7538" ∷ "7542" ∷ []

-- HIGH_RISK_HOURS
abbrev pub high_risk_hours : List ℕ
high_risk_hours = 0 ∷ 1 ∷ 2 ∷ 3 ∷ 4 ∷ 5 ∷ []

zeros : ℕ → String
zeros zero = ""
zeros (suc n) = append "0" (zeros n)

-- `s.zfill(4)`, for a text with no sign
unfoldable pub zfill_4 : String → String
unfolding zeros
zfill_4 s = append (zeros (4 - count s)) s

-- a sorted list without repetitions: `sorted(set(...))`
unfoldable pub insert_hour : ℕ → List ℕ → List ℕ
insert_hour h [] = h ∷ []
insert_hour h (k ∷ ks) =
    let rest = insert_hour h ks in
    if ltb h k then h ∷ k ∷ ks else if h ==ℕ k then k ∷ ks else k ∷ rest

unfoldable pub sorted_hours : List ℕ → List ℕ
unfolding insert_hour
sorted_hours [] = []
sorted_hours (h ∷ hs) = insert_hour h (sorted_hours hs)

module _ {F : Type 0} (fl : Floats F) (iso_hour : String → Option ℕ) where
  open fl use {text_of, from_nat}

  -- `_get_hour_from_timestamp`
  unfoldable pub get_hour : Option (Value F) → Option ℕ
  get_hour (some (str s)) = iso_hour s
  get_hour _ = none

  -- `a or b`, where `None` and a missing key are alike
  abbrev pub or_else : Option (Value F) → Option (Value F) → Option (Value F)
  or_else none w = w
  or_else (some v) w = if truthy fl v then some v else w

  -- `_get_merchant_category_risk`
  unfoldable pub merchant_category_risk : Option (Value F) → String
  unfolding zfill_4
  merchant_category_risk none = "low"
  merchant_category_risk (some null) = "low"
  merchant_category_risk (some v) =
      let code = zfill_4 (text_of v) in
      if contains code high_risk_categories
      then "high"
      else if contains code medium_risk_categories
      then "medium"
      else "low"

  abbrev pub category_text : Option (Value F) → String
  category_text none = "unknown"
  category_text (some v) = if truthy fl v then text_of v else "unknown"

  abbrev pub on_unusual_hour : List ℕ → ℕ → Tally F → Tally F
  on_unusual_hour unusual hour t =
      if member hour unusual
      then note fl "hour_category" (str "late_night")
          (note_count fl "unusual_hour" hour (set_to fl 40 t))
      else t

  abbrev pub on_category : ℕ → Option (Value F) → Tally F → Tally F
  on_category hour mcc t =
      let risk = merchant_category_risk mcc in
      let noted =
        note fl "merchant_risk" (str risk)
          (note fl "merchant_category" (str (category_text mcc)) t) in
      if risk == "high" && member hour high_risk_hours
      then note fl "high_risk_combo" (bool true) (raise_to fl 80 noted)
      else noted

  -- `if hour is not None`
  unfoldable pub on_hour : List ℕ → Fields F → Option ℕ → Tally F → Tally F
  on_hour unusual txn none t = t
  on_hour unusual txn (some hour) t =
      on_category hour (or_else (get "merchant_category" txn) (get "merchant_category_code" txn))
        (on_unusual_hour unusual hour t)

  -- the countries of the connection and of the card, `none` where they are missing or empty
  unfoldable pub on_countries : Option String → Option String → Tally F → Tally F
  on_countries none card t = t
  on_countries (some ip) none t = t
  on_countries (some ip) (some card) t =
      if ip == card
      then t
      else note fl "card_country" (str card) (
          note fl "ip_country" (str ip)
            (note fl "timezone_mismatch" (bool true) (raise_to fl 90 t)))

  abbrev pub add_hour : Option ℕ → List ℕ → List ℕ
  add_hour none hs = hs
  add_hour (some h) hs = h ∷ hs

  unfoldable pub historical_hours : List (Fields F) → List ℕ
  unfolding get_hour
  historical_hours [] = []
  historical_hours (txn ∷ txns) =
      add_hour (get_hour (get "transaction_timestamp" txn)) (historical_hours txns)

  abbrev pub hour_items : List ℕ → Items F
  hour_items [] = nil
  hour_items (h ∷ hs) = cons (num (from_nat h)) (hour_items hs)

  -- the hour against the hours of the card, of which there must be five
  unfoldable pub on_habit : Option ℕ → List ℕ → Tally F → Tally F
  unfolding sorted_hours
  on_habit none hours t = t
  on_habit (some hour) hours t =
      if not (member hour hours) && leb 5 (length hours)
      then note fl "usual_hours" (arr (hour_items (sorted_hours hours)))
          (note fl "unusual_hour_for_cardholder" (bool true) (raise_to fl 60 t))
      else t

  abbrev pub time_tally :
      List ℕ → Fields F → Option String → Option String → List (Fields F) → Tally F
  time_tally unusual txn ip card history =
      let hour = get_hour (get "transaction_timestamp" txn) in
      on_habit hour (historical_hours history)
        (on_countries ip card (on_hour unusual txn hour (no_tally fl)))

  -- `score_time_anomalies`
  unfoldable pub score_time_anomalies :
      Option (Fields F) → List (Fields F) → Option String → Option String → List ℕ → PatternScore F
  score_time_anomalies none history ip card unusual = scored fl "time_anomaly" 25 (no_tally fl)
  score_time_anomalies (some txn) history ip card unusual =
      scored fl "time_anomaly" 25 (time_tally unusual txn ip card history)
