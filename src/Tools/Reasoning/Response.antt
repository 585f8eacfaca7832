-- ===== src/Tools/Reasoning/Response.antt =====
-- `parse_llm_response` of app/tools/_core/reasoning_logic.py. `json.loads` (strict and not),
-- `ast.literal_eval` and the substitutions by regular expressions are parameters; the result is
-- `none` where the code raises ValueError.
use mathlib.Core.Option
use text.Mathlib.Text.{starts_with}
use card_fraud_ops_analyst_a.Prelude.{
  ◌≡◌, String, Bool, true, false, Option, none, some, List, [], ◌∷◌, ◌==◌, ◌&&◌, if◌then◌else◌,
  strip, map-eq-some,
}
use card_fraud_ops_analyst_a.Value.{Value, str, obj, Fields}
use card_fraud_ops_analyst_a.Floats.{Floats}
use card_fraud_ops_analyst_a.Agent.Planner.Payload.{
  extract_balanced_json, add_candidate, add_optional,
}
use card_fraud_ops_analyst_a.Tools.Reasoning.Output.{
  Warning, Patterns, is_injected, validate_llm_output,
}
use card_fraud_ops_analyst_a.Tools.Reasoning.Sanitized.{IsSane, validate_llm_output-IsSane}

-- `s.endswith(p)`
abbrev pub ends_with : String → String → Bool
ends_with String.[] p = p == ""
ends_with (String.◌∷◌ c s) p =
    let rest = ends_with s p in if String.◌∷◌ c s == p then true else rest

pub record Library (F : Type 0) : Type 0 where
  -- `json.loads(s)` and `json.loads(s, strict=False)`
  pub loads : String → Option (Value F)
  pub loads_lax : String → Option (Value F)
  -- `ast.literal_eval(s)`
  pub literal_eval : String → Option (Value F)
  -- the two `re.sub` of `_strip_markdown_fences`
  pub unfenced : String → String
  -- the groups that `re.finditer` finds between fences
  pub fenced_blocks : String → List String
  -- the replacements of `_normalize_json_candidate`
  pub repaired : String → String

module _ {F : Type 0} (lib : Library F) where
  open lib use {loads, loads_lax, literal_eval, unfenced, fenced_blocks, repaired}

  abbrev pub dict_only : Option (Value F) → Option (Fields F)
  dict_only (some (obj fs)) = some fs
  dict_only _ = none

  -- a dict, or a text that holds one
  abbrev pub from_parsed : Value F → Option (Fields F)
  from_parsed (obj fs) = some fs
  from_parsed (str s) =
      let nested = strip s in
      if starts_with nested "{" && ends_with nested "}" then dict_only (loads nested) else none
  from_parsed _ = none

  abbrev pub or_lax : Option (Value F) → Option (Value F) → Option (Fields F)
  or_lax (some v) lax = from_parsed v
  or_lax none (some v) = from_parsed v
  or_lax none none = none

  -- `_json_to_dict`
  unfoldable pub json_to_dict : String → Option (Fields F)
  json_to_dict value = or_lax (loads value) (loads_lax value)

  abbrev pub from_literal : Option (Value F) → Option (Fields F)
  from_literal (some (obj fs)) = some fs
  from_literal (some (str s)) = json_to_dict (strip s)
  from_literal _ = none

  abbrev pub or_next : Option (Fields F) → Option (Fields F) → Option (Fields F)
  or_next none later = later
  or_next (some fs) later = some fs

  abbrev pub first_json : List String → Option (Fields F)
  first_json [] = none
  first_json (a ∷ rest) = or_next (json_to_dict a) (first_json rest)

  abbrev pub first_literal : List String → Option (Fields F)
  first_literal [] = none
  first_literal (a ∷ rest) = or_next (from_literal (literal_eval a)) (first_literal rest)

  -- the `attempts` of a candidate
  abbrev pub attempts : String → List String
  attempts candidate =
      let raw = strip candidate in
      let normalized = repaired (strip raw) in
      add_optional (add_candidate (add_candidate [] raw) normalized)
        (extract_balanced_json normalized)

  -- `_parse_candidate_dict`
  unfoldable pub parse_candidate_dict : String → Option (Fields F)
  unfolding json_to_dict
  parse_candidate_dict candidate =
      or_next (first_json (attempts candidate)) (first_literal (attempts candidate))

  -- `_strip_markdown_fences`
  abbrev pub strip_markdown_fences : String → String
  strip_markdown_fences text =
      let stripped = strip text in
      strip (if starts_with stripped "```" then unfenced stripped else stripped)

  abbrev pub add_all : List String → List String → List String
  add_all found [] = found
  add_all found (c ∷ cs) = add_all (add_candidate found c) cs

  unfoldable pub candidates : String → List String
  candidates raw_response =
      let cleaned = strip raw_response in
      let stripped_fences = strip_markdown_fences cleaned in
      add_optional
        (add_optional
          (add_all (add_candidate (add_candidate [] cleaned) stripped_fences)
            (fenced_blocks cleaned))
          (extract_balanced_json cleaned))
        (extract_balanced_json stripped_fences)

  abbrev pub first_dict : List String → Option (Fields F)
  first_dict [] = none
  first_dict (c ∷ cs) = or_next (parse_candidate_dict c) (first_dict cs)

module _ {F : Type 0} (fl : Floats F) (patterns : Patterns) (lib : Library F)
    (warning_text : Warning F → String) where
  -- `parse_llm_response`
  unfoldable pub parse_llm_response : String → Option (Fields F)
  unfolding candidates parse_candidate_dict
  parse_llm_response raw_response =
      Option.map (λ parsed. (validate_llm_output fl patterns warning_text parsed).0)
        (first_dict lib (candidates lib raw_response))

  -- Whatever text the LLM sends and however it is parsed, an answer that the parser returns has a
  -- confidence between 0 and 1, one of the five risk levels, at most 20 key findings that match no
  -- injection pattern, at most 10 hypotheses and no sensitive key, if the text that replaces a
  -- suspicious finding matches no pattern itself.
  pub parse_llm_response-IsSane :
      (raw_response : String) (out : Fields F)
      → is_injected patterns "[finding sanitized]" ≡ false
      → parse_llm_response raw_response ≡ some out
      → IsSane fl patterns out
  unfolding parse_llm_response
  parse_llm_response-IsSane raw_response out h parsed_as =
      let (parsed, found, made) =
        map-eq-some (λ p. (validate_llm_output fl patterns warning_text p).0) _ out parsed_as in
      rw (← made) (validate_llm_output-IsSane fl patterns warning_text parsed h)
