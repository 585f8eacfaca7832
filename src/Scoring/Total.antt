-- ===== src/Scoring/Total.antt =====
-- What `run_pattern_scoring` (app/tools/_core/pattern_logic.py) returns.
use card_fraud_ops_analyst_a.Prelude.{
  ℕ, ◌≡◌, String, Option, none, some, List, [], ◌∷◌, ◌&&◌, leb, refl, Bool-cases, inl, inr, ◌++◌,
  length, some_inj, map-eq-some, bind-eq-some,
}
use card_fraud_ops_analyst_a.Value.{Fields, get}
use card_fraud_ops_analyst_a.Floats.{Floats}
use card_fraud_ops_analyst_a.Scoring.Tally.{
  PatternScore, WindowStats, Tally, no_tally, scored, float_field,
}
use card_fraud_ops_analyst_a.Scoring.Amount.{AmountThresholds, score_amount_anomalies}
use card_fraud_ops_analyst_a.Scoring.Time.{
  on_unusual_hour, on_hour, on_countries, score_time_anomalies, get_hour, historical_hours, or_else,
}
use card_fraud_ops_analyst_a.Scoring.CardTesting.{
  on_ladder, on_declines, on_merchants, note_small, count_small, on_small, known_amounts,
  ladder_step, testing_tally, recent_txns, current_instant, score_card_testing,
}
use card_fraud_ops_analyst_a.Scoring.Severity.{Thresholds, ScoringContext, run_pattern_scoring}
use card_fraud_ops_analyst_a.Scoring.Bounds.{
  InUnit, Fits, no_tally-Fits, amount_tally-Fits, on_unusual_hour-Fits, on_category-Fits,
  on_countries-Fits, on_habit-Fits, on_ladder-Fits, on_declines-Fits, on_merchants-Fits,
  note_small-Fits, velocity-InUnit, decline-InUnit, cross-InUnit,
}

module _ {F : Type 0} (fl : Floats F) (iso_hour instant : String → Option ℕ) where
  on_hour-Fits :
      (unusual : List ℕ) (txn : Fields F) (h : Option ℕ) (t : Tally F)
      → Fits fl t
      → Fits fl (on_hour fl iso_hour unusual txn h t)
  unfolding on_hour
  on_hour-Fits unusual txn none t fits = fits
  on_hour-Fits unusual txn (some h) t fits =
      on_category-Fits fl iso_hour (on_unusual_hour fl iso_hour unusual h t)
        (on_unusual_hour-Fits fl iso_hour t fits unusual h) h
        (or_else fl iso_hour (get "merchant_category" txn) (get "merchant_category_code" txn))

  time-InUnit :
      (txn : Option (Fields F)) (history : List (Fields F)) (ip card : Option String)
      (unusual : List ℕ)
      → InUnit fl (score_time_anomalies fl iso_hour txn history ip card unusual).score
  unfolding score_time_anomalies
  time-InUnit none history ip card unusual = no_tally-Fits fl
  time-InUnit (some txn) history ip card unusual =
      let hour = get_hour fl iso_hour (get "transaction_timestamp" txn) in
      let first = on_hour fl iso_hour unusual txn hour (no_tally fl) in
      on_habit-Fits fl iso_hour (on_countries fl iso_hour ip card first)
        (on_countries-Fits fl iso_hour first
          (on_hour-Fits unusual txn hour (no_tally fl) (no_tally-Fits fl)) ip card)
        hour (historical_hours fl iso_hour history)

  amount-InUnit :
      (th : AmountThresholds F) (txn : Option (Fields F)) (history : List (Fields F))
      (windows : ℕ → Option (WindowStats F)) (s : PatternScore F)
      → score_amount_anomalies fl th txn history windows ≡ some s
      → InUnit fl s.score
  unfolding score_amount_anomalies
  amount-InUnit th none history windows s h = rw (← some_inj _ s h) (no_tally-Fits fl)
  amount-InUnit th (some txn) history windows s h =
      let (x, known, e) = map-eq-some _ (float_field fl "amount" txn) s h in
      rw (← e) (amount_tally-Fits fl th x history (windows 24))

  ladder_step-Fits :
      (x : F) (recent : List (Fields F)) (t t' : Tally F)
      → Fits fl t
      → ladder_step fl instant x recent t ≡ some t'
      → Fits fl t'
  ladder_step-Fits x recent t t' fits h = elim (Bool-cases (leb 3 (length recent))) [
    | inl e ↦
        let (xs, known, e') =
          map-eq-some (λ (xs : List F). on_ladder fl instant (xs ++ x ∷ []) t)
            (known_amounts fl instant recent) t' (rw e at h) in
        rw (← e') (on_ladder-Fits fl instant t fits (xs ++ x ∷ []))
    | inr e ↦ rw (← some_inj t t' (rw e at h)) fits
  ]

  on_small-Fits :
      (x : F) (recent : List (Fields F)) (t t' : Tally F)
      → Fits fl t
      → on_small fl instant x recent t ≡ some t'
      → Fits fl t'
  unfolding on_small
  on_small-Fits x recent t t' fits h =
      elim (Bool-cases (fl.lt (fl.pct 0) x && fl.lt x (fl.from_nat 10))) [
        | inl e ↦
            let (n, known, e') =
              map-eq-some (note_small fl instant t) (count_small fl instant recent) t'
                (rw e at h) in
            rw (← e') (note_small-Fits fl instant t fits n)
        | inr e ↦ rw (← some_inj t t' (rw e at h)) fits
      ]

  testing_tally-Fits :
      (txn : Fields F) (x : F) (recent : List (Fields F)) (t : Tally F)
      → testing_tally fl instant txn x recent ≡ some t
      → Fits fl t
  testing_tally-Fits txn x recent t h =
      let (a, found, e) = bind-eq-some (ladder_step fl instant x recent (no_tally fl)) _ t h in
      let fits = ladder_step-Fits x recent (no_tally fl) a (no_tally-Fits fl) found in
      let b = on_declines fl instant recent a in
      let c = on_merchants fl instant txn recent b in
      on_small-Fits x recent c t
        (on_merchants-Fits fl instant b (on_declines-Fits fl instant a fits recent) txn recent) e

  testing-InUnit :
      (txn : Option (Fields F)) (history : List (Fields F)) (s : PatternScore F)
      → score_card_testing fl instant txn history ≡ some s
      → InUnit fl s.score
  unfolding score_card_testing
  testing-InUnit none history s h = rw (← some_inj _ s h) (no_tally-Fits fl)
  testing-InUnit (some txn) [] s h = rw (← some_inj _ s h) (no_tally-Fits fl)
  testing-InUnit (some txn) (x ∷ history) s h =
      let (amount, known, e) = bind-eq-some (float_field fl "amount" txn) _ s h in
      let (t, found, e') = map-eq-some (scored fl "card_testing" 35) _ s e in
      rw (← e') (
        testing_tally-Fits txn amount
          (recent_txns fl instant (current_instant fl instant txn) (x ∷ history)) t found)

  -- Every score of the list lies between 0.0 and 1.0.
  abbrev pub AllInUnit : List (PatternScore F) → Type 0
  AllInUnit [] = Unit {0}
  AllInUnit (s ∷ ss) = InUnit fl s.score × AllInUnit ss

  -- Whenever the scoring returns, it returns six scores, each between 0.0 and 1.0, whatever the
  -- context and the thresholds.
  pub run_pattern_scoring-bounds :
      (c : ScoringContext F) (th : Thresholds F) (ss : List (PatternScore F))
      → run_pattern_scoring fl iso_hour instant c th ≡ some ss
      → (length ss ≡ 6) × AllInUnit ss
  unfolding run_pattern_scoring
  run_pattern_scoring-bounds c th ss h =
      let (a, amount, e) =
        bind-eq-some (score_amount_anomalies fl th.amount c.transaction c.card_history c.windows) _
          ss h in
      let (t, testing, e') =
        map-eq-some _ (score_card_testing fl instant c.transaction c.card_history) ss e in
      rw (← e') (
        refl,
        (
          amount-InUnit th.amount c.transaction c.card_history c.windows a amount,
          (
            time-InUnit c.transaction c.card_history c.ip_country c.card_country
                th.time_unusual_hours,
            (
              velocity-InUnit fl c.windows c.signals th.velocity_burst_1h th.velocity_burst_6h,
              (
                decline-InUnit fl c.windows c.signals th.decline_ratio_high th.decline_ratio_medium,
                (
                  cross-InUnit fl c.windows th.cross_merchant_high th.cross_merchant_medium,
                  (testing-InUnit c.transaction c.card_history t testing, tt),
                ),
              ),
            ),
          ),
        ),
      )
