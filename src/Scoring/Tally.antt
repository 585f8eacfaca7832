-- ===== src/Scoring/Tally.antt =====
-- The running score and details of a scoring function of app/tools/_core/pattern_logic.py, and the
-- inputs that the functions share. A transaction is the dict that the context holds.
use card_fraud_ops_analyst_a.Prelude.{
  ℕ, String, Bool, false, Option, none, some, List, [], ◌∷◌, ◌==ℕ◌, ◌||◌,
}
use card_fraud_ops_analyst_a.Value.{Value, num, Fields, end, get, put}
use card_fraud_ops_analyst_a.Floats.{Floats, max_f, to_float}

-- `PatternScore`
pub record PatternScore (F : Type 0) : Type 0 where
  pub pattern_name : String
  pub score : F
  pub weight : F
  pub details : Fields F

-- `WindowStats` of context_logic.py, the fields that the scores read
pub record WindowStats (F : Type 0) : Type 0 where
  pub transaction_count : ℕ
  pub total_amount : F
  pub decline_count : ℕ
  pub unique_merchants : ℕ

-- `score` and `details`
pub record Tally (F : Type 0) : Type 0 where
  pub score : F
  pub details : Fields F

-- `n in ns`
unfoldable pub member : ℕ → List ℕ → Bool
member n [] = false
member n (m ∷ ms) = m ==ℕ n || member n ms

module _ {F : Type 0} (fl : Floats F) where
  open fl use {pct, from_nat}

  abbrev pub no_tally : Tally F
  no_tally = record { score = pct 0; details = end }

  -- `score = max(score, n / 100)`
  abbrev pub raise_to : ℕ → Tally F → Tally F
  raise_to n t = record t { score = max_f fl t.score (pct n) }

  -- `score = n / 100`
  abbrev pub set_to : ℕ → Tally F → Tally F
  set_to n t = record t { score = pct n }

  -- `details[k] = v`
  abbrev pub note : String → Value F → Tally F → Tally F
  note k v t = record t { details = put k v t.details }

  abbrev pub note_count : String → ℕ → Tally F → Tally F
  note_count k n t = note k (num (from_nat n)) t

  abbrev pub scored : String → ℕ → Tally F → PatternScore F
  scored name weight t = record {
    pattern_name = name;
    score = t.score;
    weight = pct weight;
    details = t.details;
  }

  -- `float(d.get(k, 0))`, `none` where it raises
  abbrev pub float_field : String → Fields F → Option F
  float_field k d = elim (get k d) [ none ↦ some (pct 0) | some v ↦ to_float fl v ]
