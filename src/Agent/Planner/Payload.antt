-- ===== src/Agent/Planner/Payload.antt =====
-- How app/agent/planner.py reads the text of an LLM response: `_strip_markdown_fences`,
-- `_extract_balanced_json` and `_parse_planner_payload`.
use Prim.Native.Char.{code}
use Prim.Native.String.{count}
use mathlib.Core.Option
use text.Mathlib.Text.{starts_with}
use card_fraud_ops_analyst_a.Prelude.{
  ℕ, ◌+◌, ◌-◌, String, Bool, true, false, Option, none, some, List, [], ◌∷◌, ◌++◌, ◌&&◌, not,
  if◌then◌else◌, ◌==◌, ◌==ℕ◌, contains, strip, after_chars,
}
use card_fraud_ops_analyst_a.Value.{Value, obj, Fields}
use card_fraud_ops_analyst_a.Floats.{Floats}

-- `s.removeprefix(p)`
unfoldable pub remove_prefix : String → String → String
remove_prefix p s = if starts_with s p then after_chars (count p) s else s

-- `s[:-3] if s.endswith("```") else s`, at a suffix `p`
unfoldable pub remove_suffix : String → String → String
remove_suffix p String.[] = String.[]
remove_suffix p (String.◌∷◌ c s) =
    let rest = remove_suffix p s in if String.◌∷◌ c s == p then String.[] else String.◌∷◌ c rest

unfoldable pub strip_markdown_fences : String → String
unfolding remove_prefix remove_suffix strip
strip_markdown_fences text =
    let stripped = strip text in
    if starts_with stripped "```"
    then strip (
        remove_suffix "```"
          (remove_prefix "```" (remove_prefix "```JSON" (remove_prefix "```json" stripped))))
    else strip stripped

-- The variables of the loop of `_extract_balanced_json`.
pub record Scan : Type 0 where
  pub depth : ℕ
  pub in_string : Bool
  pub escape : Bool

-- One character; `none` where it closes the object. The depth is at least 1 after the first
-- character, so `- 1` is exact.
unfoldable pub scan_char : Scan → ℕ → Option Scan
scan_char s c =
    if s.in_string
    then (if s.escape
        then some (record s { escape = false })
        else if c ==ℕ b'\\'
        then some (record s { escape = true })
        else if c ==ℕ b'"'
        then some (record s { in_string = false })
        else some s)
    else if c ==ℕ b'"'
    then some (record s { in_string = true })
    else if c ==ℕ b'{'
    then some (record s { depth = s.depth + 1 })
    else if c ==ℕ b'}'
    then (if s.depth ==ℕ 1 then none else some (record s { depth = s.depth - 1 }))
    else some s

-- The text up to the character that closes the object.
unfoldable pub scan_text : Scan → String → Option String
unfolding scan_char
scan_text s String.[] = none
scan_text s (String.◌∷◌ c rest) = elim (scan_char s (code c)) [
  | none ↦ some (String.◌∷◌ c String.[])
  | some s' ↦ Option.map (String.◌∷◌ c) (scan_text s' rest)
]

abbrev pub scan_start : Scan
scan_start = record { depth = 0; in_string = false; escape = false }

-- `_extract_balanced_json`: skip to the first brace, and scan from there.
unfoldable pub extract_balanced_json : String → Option String
unfolding scan_text
extract_balanced_json String.[] = none
extract_balanced_json (String.◌∷◌ c rest) =
    let later = extract_balanced_json rest in
    if code c ==ℕ b'{' then scan_text scan_start (String.◌∷◌ c rest) else later

-- `candidates.append(value)`, if it is new and not empty
abbrev pub add_candidate : List String → String → List String
add_candidate found candidate =
    let value = strip candidate in
    if not (value == "") && not (contains value found) then found ++ value ∷ [] else found

abbrev pub add_optional : List String → Option String → List String
add_optional found none = found
add_optional found (some candidate) = add_candidate found candidate

unfoldable pub candidates : String → List String
candidates text =
    add_optional (add_candidate (add_candidate [] text) (strip_markdown_fences text))
      (extract_balanced_json text)

-- What the loop does with one parsed candidate: a raise, the dict, or the next candidate.
abbrev pub object_or : {F : Type 0} → Option (Value F) → Option (Fields F) → Option (Fields F)
object_or none later = none
object_or (some (obj fs)) later = some fs
object_or (some _) later = later

-- `json.loads`, `none` where it raises JSONDecodeError, is a parameter.
module _ {F : Type 0} (fl : Floats F) (loads : String → Option (Value F)) where
  open fl use {text_of}

  -- The loop over the candidates; `none` where it raises.
  unfoldable pub first_object : List String → Option (Fields F)
  first_object [] = none
  first_object (c ∷ cs) = object_or (loads c) (first_object cs)

  -- `_parse_planner_payload`
  unfoldable pub parse_planner_payload : Value F → Option (Fields F)
  parse_planner_payload (obj fs) = some fs
  parse_planner_payload raw = first_object (candidates (strip (text_of raw)))
