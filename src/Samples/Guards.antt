-- ===== src/Samples/Guards.antt =====
-- The theorems on the guards around the LLM (app/tools/_core/reasoning_logic.py) and on the pages
-- of the worklist (app/persistence/recommendation_repository.py) at concrete inputs.
use card_fraud_ops_analyst_a.Prelude.{
  ℕ, zero, suc, take, true, ap, ◌-◌, Bool-cases, inl, inr, eq_iff, ◌==◌, ◌≡◌, ◌≤◌, ◌<◌, String,
  false, Option, none, some, List, [], ◌∷◌, refl, arith, is_infix, strip, upper, contains, length,
  text_length, lower,
}
use card_fraud_ops_analyst_a.Value.{str, num, arr, obj, nil, cons, Fields, field, end}
use card_fraud_ops_analyst_a.Tools.Reasoning.Output.{
  Warning, Patterns, scan_for_injection, is_injected, validate_llm_output,
}
use card_fraud_ops_analyst_a.Tools.Reasoning.Sanitized.{IsSane}
use card_fraud_ops_analyst_a.Tools.Reasoning.Response.{
  Library, parse_llm_response, candidates, parse_candidate_dict, json_to_dict,
  parse_llm_response-IsSane,
}
use card_fraud_ops_analyst_a.Agent.Planner.Payload.{extract_balanced_json}
use card_fraud_ops_analyst_a.Tools.Reasoning.Prompt.{
  validate_prompt_payload, entry_errors, in_field, in_rest, in_list, as_item, in_dict, IsAcceptable,
  validate_prompt_payload-accepted,
}
use card_fraud_ops_analyst_a.Worklist.Paging.{
  OpenRow, CursorValues, Codec, Driver, raised, has_severity, select, wanted_severity, read_pages,
}
use card_fraud_ops_analyst_a.Worklist.Cuts.{IsLossless, IsDriver, AllOlder, IsNewestFirst}
use card_fraud_ops_analyst_a.Worklist.Following.{read_pages-outcome}
use card_fraud_ops_analyst_a.Samples.{hundredths}

abbrev patterns : Patterns
patterns = ("jailbreak", λ text. is_infix "jailbreak" (lower text)) ∷ []

-- an answer that claims too much and tries to get a text through
abbrev answered : Fields ℕ
answered = field "confidence" (num 170) (
    field "risk_level" (str " high ") (
      field "key_findings" (arr (cons (str "a jailbreak") (cons (str "ok") nil)))
        (field "password" (str "x") end)))

abbrev library : Library ℕ
library = record {
  loads = λ s. some (obj answered);
  loads_lax = λ s. none;
  literal_eval = λ s. none;
  unfenced = λ s. s;
  fenced_blocks = λ s. [];
  repaired = λ s. s;
}

abbrev warned : Warning ℕ → String
warned w = "warning"

abbrev parsed : Option (Fields ℕ)
parsed = parse_llm_response hundredths patterns library warned "{}"

abbrev sane : Fields ℕ
sane = (validate_llm_output hundredths patterns warned answered).0

replacement-clean : is_injected patterns "[finding sanitized]" ≡ false
unfolding is_injected scan_for_injection is_infix lower
replacement-clean = refl

parses : parsed ≡ some sane
unfolding parse_llm_response candidates parse_candidate_dict json_to_dict strip contains
    extract_balanced_json
parses = refl

parse_llm_response-IsSane_example : IsSane hundredths patterns sane
parse_llm_response-IsSane_example =
    parse_llm_response-IsSane hundredths patterns library warned "{}" sane replacement-clean parses

-- a prompt with a text in a list of a nested dict
abbrev payload : Fields ℕ
payload =
    field "severity" (str "HIGH")
      (field "context" (obj (field "notes" (arr (cons (str "two declines") nil)) end)) end)

payload-clean : validate_prompt_payload patterns 0 payload ≡ []
unfolding validate_prompt_payload entry_errors text_length is_injected scan_for_injection is_infix
    lower
payload-clean = refl

validate_prompt_payload-accepted_example : IsAcceptable patterns "two declines"
validate_prompt_payload-accepted_example =
    validate_prompt_payload-accepted patterns "two declines" payload payload-clean
      (in_rest (in_field (in_dict (in_field (in_list as_item)))))

abbrev open_rows : List OpenRow
open_rows =
    record { recommendation_id = "r4"; created_at = 40; severity = "HIGH" }
    ∷ record { recommendation_id = "r3"; created_at = 30; severity = "LOW" }
    ∷ record { recommendation_id = "r2"; created_at = 20; severity = "HIGH" }
    ∷ record { recommendation_id = "r1"; created_at = 10; severity = "HIGH" }
    ∷ []

high_only : wanted_severity (some " high") ≡ some (some "HIGH")
unfolding wanted_severity contains strip upper
high_only = refl

abbrev high_rows : List OpenRow
high_rows = select (has_severity (some "HIGH")) open_rows

high_rows-IsNewestFirst : IsNewestFirst high_rows
unfolding IsNewestFirst AllOlder select
high_rows-IsNewestFirst = ((omega arith, (omega arith, tt)), ((omega arith, tt), (tt, tt)))

at_most : length high_rows ≤ 1000
unfolding select
at_most = omega arith

enough : length high_rows < 4
unfolding select
enough = omega arith

-- cursors that travel as their values
abbrev codec : Codec CursorValues
codec = record { dumps = λ v. v; loads = λ v. some v; b64encode = λ v. v; b64decode = λ v. some v }

codec-IsLossless : IsLossless codec
codec-IsLossless = record { json = λ v. refl; base64 = λ v. refl }

-- a time as so many strokes, and one more
unfoldable strokes : ℕ → String
strokes zero = "x"
strokes (suc n) = String.◌∷◌ "x" (strokes n)

text_length-strokes : (n : ℕ) → text_length (strokes n) ≡ suc n
unfolding text_length strokes
text_length-strokes zero = refl
text_length-strokes (suc n) = ap suc (text_length-strokes n)

strokes-nonempty : (n : ℕ) → (strokes n == "") ≡ false
unfolding text_length
strokes-nonempty n = elim (Bool-cases (strokes n == "")) [
  | inr e ↦ e
  | inl e ↦ absurd (
      no_strokes (text_length (strokes n)) (text_length-strokes n)
        (ap text_length ((eq_iff (strokes n) "").0 e)))
]
  where
    no_strokes : (m : ℕ) → m ≡ suc n → m ≡ 0 → ⊥
    no_strokes m g h = omega (arith, g, h)

-- a driver that reads such texts, and one that takes no texts for times
abbrev lenient : Driver
lenient = record { str_time = strokes; bind_time = λ text. some (text_length text - 1) }

lenient-IsDriver : IsDriver true lenient
lenient-IsDriver = record {
  nonempty = strokes-nonempty;
  binds = λ t. rw (text_length-strokes t) (ap some (one_less t));
}
  where
    one_less : (t : ℕ) → suc t - 1 ≡ t
    one_less t = omega arith

abbrev strict : Driver
strict = record { str_time = strokes; bind_time = λ text. none }

strict-IsDriver : IsDriver false strict
strict-IsDriver = record { nonempty = strokes-nonempty; binds = λ t. refl }

read_pages-outcome_example :
    read_pages codec strict 4 2 none (some " high") open_rows ≡ (take 2 high_rows, raised)
unfolding select
read_pages-outcome_example =
    read_pages-outcome codec codec-IsLossless strict 1 (some " high") (some "HIGH") open_rows
      high_only false 4 strict-IsDriver high_rows-IsNewestFirst at_most enough
