-- ===== src/Samples/Windows.antt =====
-- The theorems on the time windows (app/tools/_core/context_logic.py) and on the link analysis
-- (app/tools/_core/link_analysis_logic.py) at concrete histories.
use mathlib.Core.Option
use card_fraud_ops_analyst_a.Prelude.{
  ℕ, ◌≡◌, ◌*◌, String, Option, none, some, List, [], ◌∷◌, refl, length, strip, upper, contains,
}
use card_fraud_ops_analyst_a.Value.{Value, str, num, Fields, field, end, get}
use card_fraud_ops_analyst_a.Floats.{truthy, to_float}
use card_fraud_ops_analyst_a.Service.Results.{joined}
use card_fraud_ops_analyst_a.Tools.Context.{
  WindowStats, compute_all_windows, windows_of, deduped, distinct, is_decline_status,
  compute_window_stats, window_transactions,
}
use card_fraud_ops_analyst_a.Tools.Context.Nested.{IsNested, compute_all_windows-IsNested}
use card_fraud_ops_analyst_a.Tools.LinkAnalysis.{run_link_analysis}
use card_fraud_ops_analyst_a.Tools.LinkAnalysis.Bounds.{IsLinked, run_link_analysis-IsLinked}
use card_fraud_ops_analyst_a.Samples.{hundredths}

-- times are numbers of hours here
abbrev instant : Option (Value ℕ) → Option ℕ
instant (some (num h)) = some (h * 3600000000)
instant _ = none

abbrev payment : String → ℕ → String → Fields ℕ
payment id hour status = field "transaction_id" (str id) (
    field "transaction_timestamp" (num hour)
      (field "status" (str status) (field "amount" (num 500) (field "merchant_id" (str "m1") end))))

-- one payment is listed twice
abbrev history : List (Fields ℕ)
history =
    payment "p1" 100 "DECLINED"
    ∷ payment "p2" 96 "APPROVED"
    ∷ payment "p2" 96 "APPROVED"
    ∷ payment "p3" 40 "DECLINE"
    ∷ []

abbrev computed : Option (List (WindowStats ℕ))
computed = compute_all_windows hundredths instant 0 history (some (num 100))

abbrev windows : List (WindowStats ℕ)
windows = elim computed [ none ↦ [] | some ws ↦ ws ]

computes : computed ≡ some windows
unfolding compute_all_windows windows_of deduped distinct is_decline_status compute_window_stats
    window_transactions get truthy to_float strip upper contains joined Option.bind
computes = refl

compute_all_windows-IsNested_example :
    (length windows ≡ 4) × IsNested hundredths instant 0 4 windows
compute_all_windows-IsNested_example =
    compute_all_windows-IsNested hundredths instant 0 history (some (num 100)) windows computes

abbrev hour : Value ℕ → Option ℕ
hour (num h) = some (h * 3600000000)
hour _ = none

abbrev number : ℕ → String
number n = "n"

run_link_analysis-IsLinked_example : IsLinked hundredths (
    run_link_analysis hundredths hour 0 number number number
      (payment "p1" 100 "DECLINED")
      history
      history)
run_link_analysis-IsLinked_example =
    run_link_analysis-IsLinked hundredths hour 0 number number number (payment "p1" 100 "DECLINED")
      history history
