-- ===== src/Agent/Planner/Reading.antt =====
-- What the reader of LLM responses (app/agent/planner.py) finds in a text.
use Prim.Native.Char.{Char, code}
use Prim.Native.String.{◌++◌ as append}
use text.Mathlib.TextLemmas.{nil-append, cons-append}
use card_fraud_ops_analyst_a.Prelude.{
  ◌↔◌, ◌≡◌, String, Bool, true, false, Option, none, some, List, [], ◌∷◌, ◌++◌, ◌&&◌, not, ◌==◌,
  ◌==ℕ◌, contains, strip, arith, refl, Bool-cases, inl, inr, ap, sym, some_inj, none_ne_some,
  map-eq-some,
}
use card_fraud_ops_analyst_a.Value.{Value, str}
use card_fraud_ops_analyst_a.Floats.{Floats}
use card_fraud_ops_analyst_a.Agent.Planner.Braces.{
  Closes, is_open_brace, outside, quote_not_brace, rest_of, scan-Closes, Closes-scan,
}
use card_fraud_ops_analyst_a.Agent.Planner.Payload.{
  Scan, scan_char, scan_text, scan_start, extract_balanced_json, add_candidate, add_optional,
  candidates, strip_markdown_fences, first_object, parse_planner_payload,
}

-- further candidates stand behind the first
add_candidate-head :
    (v : String) (xs : List String) (c : String)
    → (rest : List String) × (add_candidate (v ∷ xs) c ≡ v ∷ rest)
add_candidate-head v xs c =
    elim (Bool-cases (not (strip c == "") && not (contains (strip c) (v ∷ xs)))) [
      | inl h ↦ (xs ++ strip c ∷ [], rw h)
      | inr h ↦ (xs, rw h)
    ]

add_optional-head :
    (v : String) (xs : List String) (o : Option String)
    → (rest : List String) × (add_optional (v ∷ xs) o ≡ v ∷ rest)
add_optional-head v xs none = (xs, refl)
add_optional-head v xs (some c) = add_candidate-head v xs c

candidates-head :
    (t : String) → (strip t == "") ≡ false → (rest : List String) × (candidates t ≡ strip t ∷ rest)
unfolding candidates contains
candidates-head t h =
    let two = add_candidate-head (strip t) [] (strip_markdown_fences t) in
    let three = add_optional-head (strip t) two.0 (extract_balanced_json t) in
    (three.0, rw h (rw two.1 three.1))

-- no character of the text is an opening brace
abbrev pub no_brace : String → Bool
no_brace String.[] = true
no_brace (String.◌∷◌ c s) = not (code c ==ℕ b'{') && no_brace s

module _ {F : Type 0} (fl : Floats F) (loads : String → Option (Value F)) where
  -- A response text that is not blank and not JSON as it stands, once stripped, is refused: neither
  -- the text without its Markdown fences nor the balanced object in it is tried.
  pub parse-whole_text :
      (s : String)
      → (strip (strip s) == "") ≡ false
      → loads (strip (strip s)) ≡ none
      → parse_planner_payload fl loads (str s) ≡ none
  unfolding parse_planner_payload first_object
  parse-whole_text s nonempty bad =
      let first = candidates-head (strip s) nonempty in rw (fl.text_of-str s, first.1, bad)

-- what a scan of one more character comes to
scan_step :
    (st : Scan) (c : Char) (s b : String) (o : Option Scan)
    → scan_char st (code c) ≡ o
    → ((st' : Scan) (b' : String)
        → scan_text st' s ≡ some b'
        → (rest : String) × (s ≡ append b' rest))
    → scan_text st (String.◌∷◌ c s) ≡ some b
    → (b' rest : String) × (b ≡ String.◌∷◌ c b') × (s ≡ append b' rest)
unfolding scan_text
scan_step st c s b none e later h = (
  String.[],
  s,
  sym (some_inj (String.◌∷◌ c String.[]) b (rw (e, scan_text) at h)),
  sym (nil-append s),
)
scan_step st c s b (some st') e later h =
    let inner = map-eq-some (String.◌∷◌ c) (scan_text st' s) b (rw (e, scan_text) at h) in
    let found = later st' inner.0 inner.1 in (inner.0, found.0, sym inner.2, found.1)

-- the text that a scan returns is the start of what it reads
scan_text-prefix :
    (s : String) (st : Scan) (b : String)
    → scan_text st s ≡ some b
    → (rest : String) × (s ≡ append b rest)
scan_text-prefix String.[] st b h = unfold scan_text in absurd (none_ne_some h)
scan_text-prefix (String.◌∷◌ c s) st b h =
    let step = scan_step st c s b (scan_char st (code c)) refl (scan_text-prefix s) h in
    (step.1, rw (step.2, cons-append c step.0 step.1) (ap (String.◌∷◌ c) step.3))

-- What `_extract_balanced_json` looks for: the part of a text from its first brace to the one that
-- closes it.
pub record IsBraced (s b : String) : Type 0 where
  pub before : String
  pub inside : String
  pub after : String
  pub brace : Char
  pub is_brace : is_open_brace brace ≡ true
  pub braced : b ≡ String.◌∷◌ brace inside
  pub closed : Closes 0 inside
  pub part : s ≡ append before (append b after)
  pub first : no_brace before ≡ true

extract-IsBraced : (s b : String) → extract_balanced_json s ≡ some b → IsBraced s b
unfolding extract_balanced_json scan_text scan_char
extract-IsBraced String.[] b h = absurd (none_ne_some h)
extract-IsBraced (String.◌∷◌ c s) b h = elim (Bool-cases (code c ==ℕ b'{')) [
  | inl e ↦
      let h' : scan_text scan_start (String.◌∷◌ c s) ≡ some b = rw e at h in
      let r = rest_of c (outside 0) s b (rw (scan_text, quote_not_brace c e, e) at h') in
      let tail = scan_text-prefix s (outside 0) r.0 r.1 in
      record {
        before = String.[];
        inside = r.0;
        after = tail.0;
        brace = c;
        is_brace = e;
        braced = r.2;
        closed = scan-Closes s 0 r.0 r.1;
        part = rw (nil-append, r.2, cons-append c r.0 tail.0) (ap (String.◌∷◌ c) tail.1);
        first = refl;
      }
  | inr e ↦
      let rest = extract-IsBraced s b (rw e at h) in
      record {
        before = String.◌∷◌ c rest.before;
        inside = rest.inside;
        after = rest.after;
        brace = rest.brace;
        is_brace = rest.is_brace;
        braced = rest.braced;
        closed = rest.closed;
        part = rw (cons-append c rest.before (append b rest.after)) (ap (String.◌∷◌ c) rest.part);
        first = rw e rest.first;
      }
]

-- a part of that kind is found, whatever stands before and behind it
found :
    (before inside after : String) (c : Char)
    → no_brace before ≡ true
    → is_open_brace c ≡ true
    → Closes 0 inside
    → extract_balanced_json (append before (append (String.◌∷◌ c inside) after))
      ≡ some (String.◌∷◌ c inside)
unfolding extract_balanced_json scan_char
found String.[] inside after c first e k =
    rw
      (
        nil-append,
        cons-append c inside after,
        e,
        scan_text,
        quote_not_brace c e,
        Closes-scan k after,
      )
      refl
found (String.◌∷◌ d before) inside after c first e k =
    let parts : (is_open_brace d ≡ false) × (no_brace before ≡ true) = ground arith in
    rw (cons-append d before (append (String.◌∷◌ c inside) after), parts.0)
      (found before inside after c parts.1 e k)

-- `_extract_balanced_json` returns a text exactly if this is the part of its argument from the
-- first opening brace to the brace that closes it, where braces within quotes do not count and a
-- backslash within quotes takes the next character with it.
pub extract-IsBraced_iff : (s b : String) → (extract_balanced_json s ≡ some b) ↔ IsBraced s b
extract-IsBraced_iff s b = (
  extract-IsBraced s b,
  λ h. rw (h.part, h.braced) (found h.before h.inside h.after h.brace h.first h.is_brace h.closed),
)
