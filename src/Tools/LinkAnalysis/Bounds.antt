-- ===== src/Tools/LinkAnalysis/Bounds.antt =====
-- The counts and scores of `run_link_analysis` (app/tools/_core/link_analysis_logic.py).
use card_fraud_ops_analyst_a.Prelude.{
  ℕ, ◌≡◌, ◌≤◌, String, Bool, true, false, Option, List, [], ◌∷◌, ◌++◌, ◌&&◌, ◌||◌, if◌then◌else◌,
  length, leb, refl, arith, Bool-cases, inl, inr,
}
use card_fraud_ops_analyst_a.Value.{Value, Fields}
use card_fraud_ops_analyst_a.Floats.{are_small, Floats, max_f, min_f}
use card_fraud_ops_analyst_a.Agent.Planner.Repair.{InUnit, min_one-le, max_zero-InUnit}
use card_fraud_ops_analyst_a.Tools.LinkAnalysis.{
  Hypothesis, LinkResult, bounded_ratio, card_burst, merchant_burst, resolve_reference_timestamp,
  firsts, seconds, link_result, run_link_analysis,
}
use card_fraud_ops_analyst_a.Tools.LinkAnalysis.Counts.{distinct_count-wider}

module _ {F : Type 0} (fl : Floats F) where
  open fl use {pct, le, lt, div, round, round_le, round_pct, le_of_lt, le_trans, pct_le}

  bounded_ratio-InUnit : (a b : F) → InUnit fl (bounded_ratio fl a b)
  unfolding bounded_ratio
  bounded_ratio-InUnit a b = elim (Bool-cases (le b (pct 0))) [
    | inl e ↦ rw e (pct_le 0 0 refl, pct_le 0 100 refl)
    | inr e ↦ rw e (max_zero-InUnit fl (min_f fl (pct 100) (div a b)) (min_one-le fl (div a b)))
  ]

  max-InUnit : (a b : F) → InUnit fl a → InUnit fl b → InUnit fl (max_f fl a b)
  unfolding max_f
  max-InUnit a b h k = elim (Bool-cases (lt a b)) [ inl e ↦ rw e k | inr e ↦ rw e h ]

  round-InUnit : (a : F) → InUnit fl a → InUnit fl (round a 4)
  round-InUnit a h = (
    rw (← round_pct 0 4 refl refl) (round_le (pct 0) a 4 h.0),
    rw (← round_pct 100 4 refl refl) (round_le a (pct 100) 4 h.1),
  )

  card_burst-InUnit : (a b c : ℕ) → InUnit fl (card_burst fl a b c)
  unfolding card_burst
  card_burst-InUnit a b c =
      max-InUnit _ _ (max-InUnit _ _ (bounded_ratio-InUnit _ _) (bounded_ratio-InUnit _ _))
        (bounded_ratio-InUnit _ _)

  merchant_burst-InUnit : (a b : ℕ) → InUnit fl (merchant_burst fl a b)
  unfolding merchant_burst
  merchant_burst-InUnit a b = max-InUnit _ _ (bounded_ratio-InUnit _ _) (bounded_ratio-InUnit _ _)

  above :
      (lo : ℕ) (x : F)
      → leb 55 lo ≡ true
      → are_small 55 lo ≡ true
      → le (pct 55) (round (max_f fl (pct lo) x) 4) ≡ true
  unfolding max_f
  above lo x h small = rw (← round_pct 55 4 refl refl) (
      round_le (pct 55) (max_f fl (pct lo) x) 4 (elim (Bool-cases (lt (pct lo) x)) [
        | inl e ↦
            rw e (le_trans (pct 55) (pct lo) x (rw (pct_le 55 lo small) h) (le_of_lt (pct lo) x e))
        | inr e ↦ rw (e, pct_le 55 lo small) h
      ]))

  -- hypotheses with a confidence of at least 0.55
  unfoldable pub AllLikely : List (Hypothesis F) → Type 0
  AllLikely [] = Unit
  AllLikely (h ∷ hs) = (le (pct 55) h.confidence ≡ true) × AllLikely hs

  -- Counts that grow with the window, scores between 0 and 1, and for each signal one hypothesis,
  -- with a confidence of at least 0.55.
  pub record IsLinked (r : LinkResult F) : Type 0 where
    pub merchants_1h : r.distinct_merchants_5m ≤ r.distinct_merchants_1h
    pub merchants_24h : r.distinct_merchants_1h ≤ r.distinct_merchants_24h
    pub cards_24h : r.distinct_cards_1h ≤ r.distinct_cards_24h
    pub card_score : InUnit fl r.card_burst_score
    pub merchant_score : InUnit fl r.merchant_burst_score
    pub paired : length r.signals ≡ length r.hypotheses
    pub likely : AllLikely r.hypotheses

module _ {F : Type 0} (fl : Floats F) (show_nat : ℕ → String)
    (show_float two_places : F → String) where
  open fl use {pct, le, mul, add}

  unfoldable AllSure : List (String × Hypothesis F) → Type 0
  AllSure [] = Unit
  AllSure ((signal, h) ∷ rest) = (le (pct 55) h.confidence ≡ true) × AllSure rest

  AllSure-append :
      (xs ys : List (String × Hypothesis F)) → AllSure xs → AllSure ys → AllSure (xs ++ ys)
  unfolding AllSure
  AllSure-append [] ys h k = k
  AllSure-append ((signal, x) ∷ xs) ys h k = (h.0, AllSure-append xs ys h.1 k)

  seconds-AllLikely :
      (xs : List (String × Hypothesis F))
      → AllSure xs
      → AllLikely fl (seconds fl show_nat show_float two_places xs)
  unfolding AllSure AllLikely
  seconds-AllLikely [] h = tt
  seconds-AllLikely ((signal, x) ∷ xs) h = (h.0, seconds-AllLikely xs h.1)

  firsts-length :
      (xs : List (String × Hypothesis F))
      → length (firsts fl show_nat show_float two_places xs)
        ≡ length (seconds fl show_nat show_float two_places xs)
  firsts-length [] = refl
  firsts-length ((signal, x) ∷ xs) = omega (arith, firsts-length xs)

  one_if :
      (b : Bool) (x : String × Hypothesis F)
      → le (pct 55) x.1.confidence ≡ true
      → AllSure (if b then x ∷ [] else [])
  unfolding AllSure
  one_if true x h = (h, tt)
  one_if false x h = tt

  link_result-IsLinked :
      (m5 m1h m24h c1h c24h : ℕ)
      → m5 ≤ m1h
      → m1h ≤ m24h
      → c1h ≤ c24h
      → IsLinked fl (link_result fl show_nat show_float two_places m5 m1h m24h c1h c24h)
  unfolding link_result
  link_result-IsLinked m5 m1h m24h c1h c24h a b c =
      let cards = card_burst fl m5 m1h m24h in
      let merchants = merchant_burst fl c1h c24h in
      record {
        merchants_1h = a;
        merchants_24h = b;
        cards_24h = c;
        card_score = round-InUnit fl cards (card_burst-InUnit fl m5 m1h m24h);
        merchant_score = round-InUnit fl merchants (merchant_burst-InUnit fl c1h c24h);
        paired = firsts-length _;
        likely = seconds-AllLikely _ (
            AllSure-append _ _
              (AllSure-append _ _ (one_if (leb 3 m5 || leb 6 m1h) _ (above fl 55 cards refl refl))
                (one_if (leb 8 c1h) _ (above fl 60 merchants refl refl)))
              (one_if (leb 20 c24h && leb 4 m1h) _
                (above fl 65 (add (mul merchants (pct 60)) (mul cards (pct 40))) refl refl)));
      }

module _ {F : Type 0} (fl : Floats F) (to_datetime : Value F → Option ℕ) (epoch : ℕ)
    (show_nat : ℕ → String) (show_float two_places : F → String) where
  -- Whatever the histories, the link analysis counts at most as many distinct merchants in 5
  -- minutes as in an hour and as in a day, and cards likewise, its burst scores lie between 0 and
  -- 1, and it gives one hypothesis for each signal, with a confidence of at least 0.55.
  pub run_link_analysis-IsLinked :
      (transaction : Fields F) (cards merchants : List (Fields F))
      → IsLinked fl (
          run_link_analysis fl to_datetime epoch show_nat show_float two_places transaction cards
            merchants)
  unfolding run_link_analysis
  run_link_analysis-IsLinked transaction cards merchants =
      let at = resolve_reference_timestamp to_datetime epoch transaction cards merchants in
      link_result-IsLinked fl show_nat show_float two_places _ _ _ _ _
        (distinct_count-wider to_datetime at 5 60 "merchant_id" cards (omega arith))
        (distinct_count-wider to_datetime at 60 1440 "merchant_id" cards (omega arith))
        (distinct_count-wider to_datetime at 60 1440 "card_id" merchants (omega arith))
