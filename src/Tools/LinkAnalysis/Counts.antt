-- ===== src/Tools/LinkAnalysis/Counts.antt =====
-- The counts of `run_link_analysis` (app/tools/_core/link_analysis_logic.py).
use card_fraud_ops_analyst_a.Prelude.{
  ℕ, suc, ◌≡◌, ◌≤◌, String, Bool, true, false, Option, none, some, List, [], ◌∷◌, ◌==◌, ◌||◌,
  if◌then◌else◌, contains, strip, length, refl, arith, Bool-cases, inl, inr, eq_iff, true≢false_of,
}
use card_fraud_ops_analyst_a.Value.{Value, null, bool, num, str, arr, obj, Fields, get}
use card_fraud_ops_analyst_a.Tools.LinkAnalysis.{
  within_window, extract_timestamp, add_text, distinct_texts, distinct_count,
}

without : String → List String → List String
without x [] = []
without x (y ∷ ys) = let rest = without x ys in if y == x then ys else y ∷ rest

length-without :
    (x : String) (ys : List String) → contains x ys ≡ true → length ys ≡ suc (length (without x ys))
unfolding contains without
length-without x [] h = absurd (true≢false_of h refl)
length-without x (y ∷ ys) h = elim (Bool-cases (y == x)) [
  | inl e ↦ rw e refl
  | inr e ↦ rw e (omega (arith, length-without x ys (rw e at h)))
]

contains-without :
    (k x : String) (ys : List String)
    → (x == k) ≡ false
    → contains k ys ≡ true
    → contains k (without x ys) ≡ true
unfolding contains without
contains-without k x [] apart h = absurd (true≢false_of h refl)
contains-without k x (y ∷ ys) apart h = elim (Bool-cases (y == x)) [
  | inl e ↦ rw e (rw ((eq_iff y x).0 e, apart) at h)
  | inr e ↦ elim (Bool-cases (y == k)) [
    | inl p ↦ rw (e, p) refl
    | inr p ↦ rw (e, p) (contains-without k x ys apart (rw p at h))
  ]
]

-- no text twice
unfoldable AllDistinct : List String → Type 0
AllDistinct [] = Unit
AllDistinct (x ∷ xs) = (contains x xs ≡ false) × AllDistinct xs

length-subset :
    (xs ys : List String)
    → AllDistinct xs
    → ((k : String) → contains k xs ≡ true → contains k ys ≡ true)
    → length xs ≤ length ys
unfolding AllDistinct contains
length-subset [] ys h sub = omega arith
length-subset (x ∷ xs) ys h sub =
    let here = sub x (first (contains x xs) ((eq_iff x x).1 refl)) in
    let rest =
      length-subset xs (without x ys) h.1
        (λ k found. contains-without k x ys (other k found) (sub k (later k found))) in
    omega (arith, rest, length-without x ys here)
  where
    first : (b : Bool) → (x == x) ≡ true → ((x == x) || b) ≡ true
    first b e = rw e refl

    later : (k : String) → contains k xs ≡ true → ((x == k) || contains k xs) ≡ true
    later k found = ground (arith, found)

    other : (k : String) → contains k xs ≡ true → (x == k) ≡ false
    other k found = elim (Bool-cases (x == k)) [
      | inl e ↦ absurd (true≢false_of found (rw (← (eq_iff x k).0 e) h.0))
      | inr e ↦ e
    ]

-- `xs` is part of `ys`
abbrev IsPart : List String → List String → Type 0
IsPart xs ys = (k : String) → contains k xs ≡ true → contains k ys ≡ true

module _ {F : Type 0} (to_datetime : Value F → Option ℕ) where
  add_text-AllDistinct :
      (o : Option (Value F)) (seen : List String)
      → AllDistinct seen
      → AllDistinct (add_text to_datetime o seen)
  unfolding AllDistinct
  add_text-AllDistinct (some (str s)) seen h = elim (Bool-cases (strip s == "")) [
    | inl e ↦ rw e h
    | inr e ↦ elim (Bool-cases (contains (strip s) seen)) [
      | inl k ↦ rw (e, k) h
      | inr k ↦ rw (e, k) (k, h)
    ]
  ]
  add_text-AllDistinct none seen h = h
  add_text-AllDistinct (some null) seen h = h
  add_text-AllDistinct (some (bool _)) seen h = h
  add_text-AllDistinct (some (num _)) seen h = h
  add_text-AllDistinct (some (arr _)) seen h = h
  add_text-AllDistinct (some (obj _)) seen h = h

  add_text-grows :
      (o : Option (Value F)) (seen : List String) → IsPart seen (add_text to_datetime o seen)
  unfolding contains
  add_text-grows (some (str s)) seen k h = elim (Bool-cases (strip s == "")) [
    | inl e ↦ rw e h
    | inr e ↦ elim (Bool-cases (contains (strip s) seen)) [
      | inl p ↦ rw (e, p) h
      | inr p ↦ rw (e, p) (ground (arith, h))
    ]
  ]
  add_text-grows none seen k h = h
  add_text-grows (some null) seen k h = h
  add_text-grows (some (bool _)) seen k h = h
  add_text-grows (some (num _)) seen k h = h
  add_text-grows (some (arr _)) seen k h = h
  add_text-grows (some (obj _)) seen k h = h

  -- a text is there once it is added
  add_text-there :
      (s : String) (seen : List String)
      → (strip s == "") ≡ false
      → contains (strip s) (add_text to_datetime (some (str s)) seen) ≡ true
  unfolding contains
  add_text-there s seen e = elim (Bool-cases (contains (strip s) seen)) [
    | inl p ↦ rw (e, p) p
    | inr p ↦ rw (e, p, (eq_iff (strip s) (strip s)).1 refl) refl
  ]

  add_text-IsPart :
      (o : Option (Value F)) (seen more : List String)
      → IsPart seen more
      → IsPart (add_text to_datetime o seen) (add_text to_datetime o more)
  unfolding contains
  add_text-IsPart (some (str s)) seen more part k h = elim (Bool-cases (strip s == "")) [
    | inl e ↦ rw e (part k (rw e at h))
    | inr e ↦ elim (Bool-cases (contains (strip s) seen)) [
      | inl p ↦ add_text-grows (some (str s)) more k (part k (rw (e, p) at h))
      | inr p ↦ elim (Bool-cases (strip s == k)) [
        | inl q ↦ rw (← (eq_iff (strip s) k).0 q) (add_text-there s more e)
        | inr q ↦ add_text-grows (some (str s)) more k (part k (rw (e, p, q) at h))
      ]
    ]
  ]
  add_text-IsPart none seen more part k h = part k h
  add_text-IsPart (some null) seen more part k h = part k h
  add_text-IsPart (some (bool _)) seen more part k h = part k h
  add_text-IsPart (some (num _)) seen more part k h = part k h
  add_text-IsPart (some (arr _)) seen more part k h = part k h
  add_text-IsPart (some (obj _)) seen more part k h = part k h

  distinct_texts-AllDistinct :
      (reference minutes : ℕ) (name : String) (es : List (Fields F))
      → AllDistinct (distinct_texts to_datetime reference minutes name es)
  unfolding distinct_texts AllDistinct
  distinct_texts-AllDistinct reference minutes name [] = tt
  distinct_texts-AllDistinct reference minutes name (e ∷ es) =
      let rest = distinct_texts-AllDistinct reference minutes name es in
      elim (Bool-cases (within_window reference (extract_timestamp to_datetime e) minutes)) [
        | inl p ↦ rw p (add_text-AllDistinct (get name e) _ rest)
        | inr p ↦ rw p rest
      ]

  within-wider :
      (reference minutes more : ℕ) (o : Option ℕ)
      → minutes ≤ more
      → within_window reference o minutes ≡ true
      → within_window reference o more ≡ true
  within-wider reference minutes more none h k = k
  within-wider reference minutes more (some ts) h k = ground (arith, h)

  distinct_texts-wider :
      (reference minutes more : ℕ) (name : String) (es : List (Fields F))
      → minutes ≤ more
      → IsPart
          (distinct_texts to_datetime reference minutes name es)
          (distinct_texts to_datetime reference more name es)
  unfolding distinct_texts
  distinct_texts-wider reference minutes more name [] h k found = found
  distinct_texts-wider reference minutes more name (e ∷ es) h k found =
      let time = extract_timestamp to_datetime e in
      let rest = distinct_texts-wider reference minutes more name es h in
      elim (Bool-cases (within_window reference time minutes)) [
        | inl p ↦
            rw (within-wider reference minutes more time h p)
              (add_text-IsPart (get name e) _ _ rest k (rw p at found))
        | inr p ↦ elim (Bool-cases (within_window reference time more)) [
          | inl q ↦ rw q (add_text-grows (get name e) _ k (rest k (rw p at found)))
          | inr q ↦ rw q (rest k (rw p at found))
        ]
      ]

  -- a wider window counts at least as many
  pub distinct_count-wider :
      (reference minutes more : ℕ) (name : String) (es : List (Fields F))
      → minutes ≤ more
      → distinct_count to_datetime es reference minutes name
        ≤ distinct_count to_datetime es reference more name
  distinct_count-wider reference minutes more name es h =
      length-subset _ _ (distinct_texts-AllDistinct reference minutes name es)
        (distinct_texts-wider reference minutes more name es h)
