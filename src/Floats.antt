-- ===== src/Floats.antt =====
-- Python's floats and the built-in conversions around them, as an interface. The comparisons are
-- those of IEEE 754: the laws hold with NaN among the values too, so `≤` is neither total nor
-- reflexive here. The laws of literals are stated up to 10000.00, where doubles keep hundredths
-- apart.
use card_fraud_ops_analyst_a.Prelude.{
  ℕ, ◌*◌, ◌≡◌, String, Bool, true, false, Option, none, some, List, leb, ltb, ◌==◌, ◌&&◌, not,
  if◌then◌else◌,
}
use card_fraud_ops_analyst_a.Value.{Value, null, bool, num, str, arr, obj, nil, cons, end, field}

-- the bound of the laws of literals, in hundredths
abbrev pub literal_limit : ℕ
literal_limit = 1000000

abbrev pub are_small : ℕ → ℕ → Bool
are_small m n = leb m literal_limit && leb n literal_limit

pub record Floats (F : Type 0) : Type 0 where
  -- the literal n / 100
  pub pct : ℕ → F
  pub le : F → F → Bool
  pub lt : F → F → Bool
  pub add : F → F → F
  pub sub : F → F → F
  pub mul : F → F → F
  pub div : F → F → F
  pub sqrt : F → F
  -- `sum(xs)`
  pub sum : List F → F
  -- `round(x, n)`
  pub round : F → ℕ → F
  -- `int(x)`, for x not negative
  pub floor : F → ℕ
  pub from_nat : ℕ → F
  -- `float(s)`, `none` where it raises ValueError
  pub of_text : String → Option F
  -- `str(v)`
  pub text_of : Value F → String
  pub le_of_lt : (a b : F) → lt a b ≡ true → le a b ≡ true
  pub le_trans : (a b c : F) → le a b ≡ true → le b c ≡ true → le a c ≡ true
  pub lt_of_le : (a b : F) → le a b ≡ true → le b a ≡ false → lt a b ≡ true
  pub pct_le : (m n : ℕ) → are_small m n ≡ true → le (pct m) (pct n) ≡ leb m n
  pub pct_lt : (m n : ℕ) → are_small m n ≡ true → lt (pct m) (pct n) ≡ ltb m n
  pub round_le : (a b : F) (n : ℕ) → le a b ≡ true → le (round a n) (round b n) ≡ true
  pub round_pct : (m n : ℕ) → leb 2 n ≡ true → leb m literal_limit ≡ true → round (pct m) n ≡ pct m
  pub from_nat_pct : (n : ℕ) → leb (100 * n) literal_limit ≡ true → from_nat n ≡ pct (100 * n)
  pub text_of-str : (s : String) → text_of (str s) ≡ s

module _ {F : Type 0} (fl : Floats F) where
  open fl use {pct, le, lt, of_text}

  -- Python's `max(a, b)` and `min(a, b)`: the first argument unless the second is strictly better.
  unfoldable pub max_f : F → F → F
  max_f a b = if lt a b then b else a

  unfoldable pub min_f : F → F → F
  min_f a b = if lt b a then b else a

  -- `a == b`
  unfoldable pub eq_f : F → F → Bool
  eq_f a b = le a b && le b a

  -- `float(v)`, `none` where it raises
  unfoldable pub to_float : Value F → Option F
  to_float (num x) = some x
  to_float (bool true) = some (pct 100)
  to_float (bool false) = some (pct 0)
  to_float (str s) = of_text s
  to_float null = none
  to_float (arr _) = none
  to_float (obj _) = none

  -- `bool(v)`
  unfoldable pub truthy : Value F → Bool
  unfolding eq_f
  truthy null = false
  truthy (bool b) = b
  truthy (num x) = not (eq_f x (pct 0))
  truthy (str s) = not (s == "")
  truthy (arr nil) = false
  truthy (arr (cons _ _)) = true
  truthy (obj end) = false
  truthy (obj (field _ _ _)) = true
