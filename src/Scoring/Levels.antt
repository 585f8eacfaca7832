-- ===== src/Scoring/Levels.antt =====
-- When `compute_severity` (app/tools/_core/pattern_logic.py) reaches which level.
use card_fraud_ops_analyst_a.Prelude.{
  refl, ℕ, ◌≤◌, ◌≡◌, ◌↔◌, ◌⊎◌, Bool, true, List, ◌∷◌, leb, arith, if◌then◌else◌, ◌&&◌,
}
use card_fraud_ops_analyst_a.Floats.{Floats}
use card_fraud_ops_analyst_a.Scoring.Tally.{PatternScore}
use card_fraud_ops_analyst_a.Scoring.Severity.{
  Severity, medium, high, critical, rank, Signals, signals_of, promote, classify, compute_severity,
}

module _ {F : Type 0} (fl : Floats F) where
  open fl use {pct, le, le_trans, pct_le}

  -- One set of signals is at least as strong as another.
  pub record AtLeast (g h : Signals F) : Type 0 where
    pub normalized :
        (n : ℕ) → le (pct n) g.normalized_score ≡ true → le (pct n) h.normalized_score ≡ true
    pub largest : (n : ℕ) → le (pct n) g.max_score ≡ true → le (pct n) h.max_score ≡ true
    pub medium_signals : g.medium_signals ≤ h.medium_signals
    pub network_medium : g.network_medium ≤ h.network_medium
    pub network_strong : g.network_strong ≤ h.network_strong

  promote-le-two : (g : Signals F) → (1 ≤ rank (promote fl g)) × (rank (promote fl g) ≤ 2)
  unfolding promote
  promote-le-two g = ground arith

  promote_mono :
      (g h : Signals F)
      → g.medium_signals ≤ h.medium_signals
      → g.network_medium ≤ h.network_medium
      → g.network_strong ≤ h.network_strong
      → rank (promote fl g) ≤ rank (promote fl h)
  unfolding promote
  promote_mono g h a b c = ground arith

  -- the ladder of tests, over their outcomes
  abbrev ladder : Bool → Bool → Bool → Bool → Bool → Severity → Severity
  ladder very_high strong peak half third rest =
      if very_high
      then critical
      else if strong
      then high
      else if peak
      then high
      else if half
      then high
      else if third
      then medium
      else rest

  abbrev Implies : Bool → Bool → Type 0
  Implies a b = a ≡ true → b ≡ true

  ladder_mono :
      (a b c d e a' b' c' d' e' : Bool) (r r' : Severity)
      → Implies a a'
      → Implies b b'
      → Implies c c'
      → Implies d d'
      → Implies e e'
      → rank r ≤ 2
      → 1 ≤ rank r'
      → rank r ≤ rank r'
      → rank (ladder a b c d e r) ≤ rank (ladder a' b' c' d' e' r')
  ladder_mono a b c d e a' b' c' d' e' r r' ia ib ic id ie two one le = ground arith

  -- If each score total, maximum and count of signals of `h` reaches what that of `g` reaches, the
  -- severity of `h` is not below that of `g`.
  pub classify_mono : (g h : Signals F) → AtLeast g h → rank (classify fl g) ≤ rank (classify fl h)
  unfolding classify
  classify_mono g h a =
      ladder_mono (le (pct 70) g.normalized_score) (leb 2 g.network_strong)
        (le (pct 90) g.max_score && leb 1 g.network_medium) (le (pct 50) g.normalized_score)
        (le (pct 30) g.normalized_score) (le (pct 70) h.normalized_score) (leb 2 h.network_strong)
        (le (pct 90) h.max_score && leb 1 h.network_medium) (le (pct 50) h.normalized_score)
        (le (pct 30) h.normalized_score) (promote fl g) (promote fl h) (a.normalized 70)
        (λ e. ground (arith, a.network_strong))
        (λ e. ground (arith, a.largest 90, a.network_medium)) (a.normalized 50) (a.normalized 30)
        ((promote-le-two g).1) ((promote-le-two h).0)
        (promote_mono g h a.medium_signals a.network_medium a.network_strong)

  reaches_half : (x : F) → le (pct 70) x ≡ true → le (pct 50) x ≡ true
  reaches_half x h = le_trans (pct 50) (pct 70) x (pct_le 50 70 refl) h

  -- The severity is at least HIGH exactly when the normalized score reaches 0.5, two network
  -- signals reach 0.7, or some score reaches 0.9 and a network signal 0.5; it is CRITICAL exactly
  -- when the normalized score reaches 0.7.
  pub compute_severity-high_iff :
      (s : PatternScore F) (ss : List (PatternScore F))
      → let g = signals_of fl s ss in
        ((3 ≤ rank (compute_severity fl (s ∷ ss))) ↔ (
          (le (pct 50) g.normalized_score ≡ true)
          ⊎ (2 ≤ g.network_strong)
          ⊎ ((le (pct 90) g.max_score ≡ true) × (1 ≤ g.network_medium))))
        × ((compute_severity fl (s ∷ ss) ≡ critical) ↔ (le (pct 70) g.normalized_score ≡ true))
  unfolding compute_severity classify
  compute_severity-high_iff s ss =
      let half = reaches_half (signals_of fl s ss).normalized_score in
      let rest = promote-le-two (signals_of fl s ss) in ground (arith, half, rest)
