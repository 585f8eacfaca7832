-- ===== src/Tools/Reasoning/Prompt.antt =====
-- `validate_prompt_payload` of app/tools/_core/reasoning_logic.py. An error is its data.
use card_fraud_ops_analyst_a.Prelude.{
  ℕ, suc, ◌≡◌, ◌≤◌, String, Bool, true, false, List, [], ◌∷◌, ◌++◌, if◌then◌else◌, leb, refl, arith,
  Bool-cases, inl, inr, text_length,
}
use card_fraud_ops_analyst_a.Value.{
  Value, null, bool, num, str, arr, obj, Items, nil, cons, Fields, end, field,
}
use card_fraud_ops_analyst_a.Tools.Reasoning.Output.{Patterns, is_injected}

pub data PromptError : Type 0 where
  too_deep : PromptError
  field_too_long : String → ℕ → PromptError
  field_injection : String → PromptError
  item_too_long : String → ℕ → PromptError
  item_injection : String → ℕ → PromptError

abbrev pub max_prompt_string_length : ℕ
max_prompt_string_length = 50000

abbrev pub max_json_depth : ℕ
max_json_depth = 10

-- the test of the depth, ahead of the loop
abbrev pub within_depth : ℕ → List PromptError → List PromptError
within_depth depth errors = if leb (suc max_json_depth) depth then too_deep ∷ [] else errors

module _ (patterns : Patterns) where
  -- the two tests of a text
  abbrev pub text_errors : String → PromptError → PromptError → List PromptError
  text_errors s long injected =
      (if leb (suc max_prompt_string_length) (text_length s) then long ∷ [] else [])
      ++ (if is_injected patterns s then injected ∷ [] else [])

module _ {F : Type 0} (patterns : Patterns) where
  unfoldable mutual
    -- the loop over the entries
    pub entry_errors : ℕ → Fields F → List PromptError
    entry_errors depth end = []
    entry_errors depth (field k v fs) = value_errors depth k v ++ entry_errors depth fs

    pub value_errors : ℕ → String → Value F → List PromptError
    value_errors depth k (str s) =
        text_errors patterns s (field_too_long k (text_length s)) (field_injection k)
    value_errors depth k (obj fs) = within_depth (suc depth) (entry_errors (suc depth) fs)
    value_errors depth k (arr vs) = item_errors depth k 0 vs
    value_errors depth k null = []
    value_errors depth k (bool _) = []
    value_errors depth k (num _) = []

    -- the loop over the items of a list
    pub item_errors : ℕ → String → ℕ → Items F → List PromptError
    item_errors depth k i nil = []
    item_errors depth k i (cons v vs) = one_item depth k i v ++ item_errors depth k (suc i) vs

    pub one_item : ℕ → String → ℕ → Value F → List PromptError
    one_item depth k i (obj fs) = within_depth (suc depth) (entry_errors (suc depth) fs)
    one_item depth k i (str s) = text_errors patterns s (item_too_long k i) (item_injection k i)
    one_item depth k i (arr _) = []
    one_item depth k i null = []
    one_item depth k i (bool _) = []
    one_item depth k i (num _) = []

  -- `validate_prompt_payload`
  unfoldable pub validate_prompt_payload : ℕ → Fields F → List PromptError
  unfolding entry_errors
  validate_prompt_payload depth payload = within_depth depth (entry_errors depth payload)

-- A text of a payload: in a field or in a list of a field, here or in a dict that is nested the
-- same way. (A list within a list is not looked into.)
mutual
  pub data Occurs {F : Type 0} (s : String) : Fields F → Type 0 where
    in_field : {k : String} {v : Value F} {fs : Fields F} → OccursIn s v → Occurs s (field k v fs)
    in_rest : {k : String} {v : Value F} {fs : Fields F} → Occurs s fs → Occurs s (field k v fs)

  pub data OccursIn {F : Type 0} (s : String) : Value F → Type 0 where
    as_text : OccursIn s (str s)
    in_dict : {fs : Fields F} → Occurs s fs → OccursIn s (obj fs)
    in_list : {vs : Items F} → OccursAmong s vs → OccursIn s (arr vs)

  pub data OccursAmong {F : Type 0} (s : String) : Items F → Type 0 where
    as_item : {vs : Items F} → OccursAmong s (cons (str s) vs)
    in_item : {fs : Fields F} {vs : Items F} → Occurs s fs → OccursAmong s (cons (obj fs) vs)
    in_later : {v : Value F} {vs : Items F} → OccursAmong s vs → OccursAmong s (cons v vs)

append-nil : {A : Type 0} (xs ys : List A) → xs ++ ys ≡ [] → (xs ≡ []) × (ys ≡ [])
append-nil [] ys h = (refl, h)
append-nil (x ∷ xs) ys h = cc

module _ (patterns : Patterns) where
  -- not too long, and no injection
  abbrev pub IsAcceptable : String → Type 0
  IsAcceptable s = (text_length s ≤ 50000) × (is_injected patterns s ≡ false)

  text_errors-none :
      (s : String) (long injected : PromptError)
      → text_errors patterns s long injected ≡ []
      → IsAcceptable s
  text_errors-none s long injected h =
      let (short, clean) = append-nil _ _ h in
      (in_limit (text_length s) short, passed (is_injected patterns s) clean)
    where
      in_limit : (n : ℕ) → (if leb 50001 n then long ∷ [] else []) ≡ [] → n ≤ 50000
      in_limit n e = ground arith

      passed : (b : Bool) → (if b then injected ∷ [] else []) ≡ [] → b ≡ false
      passed true e = cc
      passed false e = refl

within_depth-none :
    (depth : ℕ) (errors : List PromptError) → within_depth depth errors ≡ [] → errors ≡ []
within_depth-none depth errors h = elim (Bool-cases (leb 11 depth)) [
  | inl e ↦ absurd (not_nil (rw e at h))
  | inr e ↦ rw e at h
]
  where
    not_nil : {x : PromptError} {xs : List PromptError} → x ∷ xs ≡ [] → ⊥
    not_nil h = cc

module _ {F : Type 0} (patterns : Patterns) where
  mutual
    unfolding entry_errors

    entries-accepted :
        (depth : ℕ) (s : String) (payload : Fields F)
        → Occurs s payload
        → entry_errors patterns depth payload ≡ []
        → IsAcceptable patterns s
    entries-accepted depth s end at h = elim at [ ]
    entries-accepted depth s (field k v fs) (in_field at) h =
        value-accepted depth k s v at (append-nil _ _ h).0
    entries-accepted depth s (field k v fs) (in_rest at) h =
        entries-accepted depth s fs at (append-nil _ _ h).1

    value-accepted :
        (depth : ℕ) (k s : String) (v : Value F)
        → OccursIn s v
        → value_errors patterns depth k v ≡ []
        → IsAcceptable patterns s
    value-accepted depth k s (str _) as_text h = text_errors-none patterns s _ _ h
    value-accepted depth k s (obj fs) (in_dict at) h =
        entries-accepted (suc depth) s fs at (within_depth-none (suc depth) _ h)
    value-accepted depth k s (arr vs) (in_list at) h = items-accepted depth k 0 s vs at h
    value-accepted depth k s null at h = elim at [ ]
    value-accepted depth k s (bool _) at h = elim at [ ]
    value-accepted depth k s (num _) at h = elim at [ ]

    items-accepted :
        (depth : ℕ) (k : String) (i : ℕ) (s : String) (vs : Items F)
        → OccursAmong s vs
        → item_errors patterns depth k i vs ≡ []
        → IsAcceptable patterns s
    items-accepted depth k i s nil at h = elim at [ ]
    items-accepted depth k i s (cons (str _) vs) as_item h =
        text_errors-none patterns s _ _ (append-nil _ _ h).0
    items-accepted depth k i s (cons (obj fs) vs) (in_item at) h =
        entries-accepted (suc depth) s fs at (within_depth-none (suc depth) _ (append-nil _ _ h).0)
    items-accepted depth k i s (cons v vs) (in_later at) h =
        items-accepted depth k (suc i) s vs at (append-nil _ _ h).1

  -- In a payload without errors, every text that occurs in a field or in a list of a field, of the
  -- payload or of a dict nested in it, has at most 50000 characters and matches no injection
  -- pattern.
  pub validate_prompt_payload-accepted :
      (s : String) (payload : Fields F)
      → validate_prompt_payload patterns 0 payload ≡ []
      → Occurs s payload
      → IsAcceptable patterns s
  unfolding validate_prompt_payload
  validate_prompt_payload-accepted s payload h at =
      entries-accepted 0 s payload at (within_depth-none 0 (entry_errors patterns 0 payload) h)
