-- ===== src/Prelude/Text.antt =====
-- Text: what the program calls of Python's `str`, for ASCII letters and spaces.
use Prim.Native.Nat.{ℕ, zero, suc, ◌-◌}
use Prim.Native.Char.{Char, code}
use Prim.Native.String.{String, char_at, compare, ◌++◌ as append}
use mathlib.Core.Path.{◌≡◌, refl}
use mathlib.Core.Bool.{Bool, true, false, ◌&&◌, ◌||◌, not}
use mathlib.Core.List.{List, [], ◌∷◌, ◌++◌}
use native.Mathlib.Omega.{arith}
use text.Mathlib.Text.{◌==◌, starts_with, is_le}
use text.Mathlib.TextEquality.{eq_iff}
use text.Mathlib.TextLemmas.{cons≢nil, cons-append}
use mathlib.Core.Logic.{inl, inr}
use card_fraud_ops_analyst_a.Prelude.Tests.{Bool-cases, true≢false_of, leb, ◌==ℕ◌, if◌then◌else◌}

upper_char : Char → Char
upper_char c =
    let n = code c in
    if leb b'a' n && leb n b'z' then char_at "ABCDEFGHIJKLMNOPQRSTUVWXYZ" (n - b'a') else c

lower_char : Char → Char
lower_char c =
    let n = code c in
    if leb b'A' n && leb n b'Z' then char_at "abcdefghijklmnopqrstuvwxyz" (n - b'A') else c

-- `str.upper` and `str.lower`
unfoldable pub upper : String → String
unfolding upper_char
upper String.[] = String.[]
upper (String.◌∷◌ c s) = String.◌∷◌ (upper_char c) (upper s)

unfoldable pub lower : String → String
unfolding lower_char
lower String.[] = String.[]
lower (String.◌∷◌ c s) = String.◌∷◌ (lower_char c) (lower s)

-- the ASCII characters that `str.strip` removes
abbrev pub is_space : Char → Bool
is_space c = let n = code c in n ==ℕ 32 || ((leb 9 n && leb n 13) || (leb 28 n && leb n 31))

strip_left : String → String
strip_left String.[] = String.[]
strip_left (String.◌∷◌ c s) = let rest = strip_left s in if is_space c then rest else String.◌∷◌ c s

strip_right : String → String
strip_right String.[] = String.[]
strip_right (String.◌∷◌ c s) =
    let rest = strip_right s in if is_space c && rest == "" then String.[] else String.◌∷◌ c rest

-- `str.strip`
unfoldable pub strip : String → String
unfolding strip_left strip_right
strip s = strip_right (strip_left s)

-- `p in s`
unfoldable pub is_infix : String → String → Bool
is_infix p String.[] = p == ""
is_infix p (String.◌∷◌ c s) = starts_with (String.◌∷◌ c s) p || is_infix p s

-- `s[:n]`
unfoldable pub first_chars : ℕ → String → String
first_chars zero s = String.[]
first_chars (suc n) String.[] = String.[]
first_chars (suc n) (String.◌∷◌ c s) = String.◌∷◌ c (first_chars n s)

-- `s[n:]`
unfoldable pub after_chars : ℕ → String → String
after_chars zero s = s
after_chars (suc n) String.[] = String.[]
after_chars (suc n) (String.◌∷◌ c s) = after_chars n s

-- `len(s)`
unfoldable pub text_length : String → ℕ
text_length String.[] = 0
text_length (String.◌∷◌ c s) = suc (text_length s)

-- `x in xs`, for texts
unfoldable pub contains : String → List String → Bool
contains k [] = false
contains k (x ∷ xs) = x == k || contains k xs

pub contains-append_self : (k : String) (xs : List String) → contains k (xs ++ k ∷ []) ≡ true
unfolding contains
contains-append_self k [] = ground (arith, eq_iff k k)
contains-append_self k (x ∷ xs) = ground (arith, contains-append_self k xs)

pub contains-append :
    (k j : String) (xs : List String) → contains k (xs ++ j ∷ []) ≡ (contains k xs || (j == k))
unfolding contains
contains-append k j [] = ground arith
contains-append k j (x ∷ xs) = ground (arith, contains-append k j xs)

insert_text : String → List String → List String
insert_text k [] = k ∷ []
insert_text k (x ∷ xs) = if is_le (compare k x) then k ∷ x ∷ xs else x ∷ insert_text k xs

-- `sorted(xs)`, for texts
unfoldable pub sort_texts : List String → List String
unfolding insert_text
sort_texts [] = []
sort_texts (x ∷ xs) = insert_text x (sort_texts xs)

contains-insert_text :
    (k x : String) (xs : List String) → contains k (insert_text x xs) ≡ (x == k || contains k xs)
unfolding contains insert_text
contains-insert_text k x [] = ground arith
contains-insert_text k x (y ∷ ys) = ground (arith, contains-insert_text k x ys)

pub contains-sort_texts :
    (k : String) (xs : List String) → contains k (sort_texts xs) ≡ contains k xs
unfolding contains sort_texts
contains-sort_texts k [] = ground arith
contains-sort_texts k (x ∷ xs) =
    ground (arith, contains-insert_text k x (sort_texts xs), contains-sort_texts k xs)

cons-ne_empty : (c : Char) (s : String) → (String.◌∷◌ c s == "") ≡ false
cons-ne_empty c s = elim (Bool-cases (String.◌∷◌ c s == "")) [
  | inl e ↦ absurd (cons≢nil ((eq_iff (String.◌∷◌ c s) "").0 e))
  | inr e ↦ e
]

unfoldable pub starts_visibly : String → Bool
starts_visibly String.[] = false
starts_visibly (String.◌∷◌ c s) = not (is_space c)

-- a text that begins with a visible character is not blank
pub strip-visible : (p s : String) → starts_visibly p ≡ true → (strip (append p s) == "") ≡ false
unfolding strip strip_left strip_right starts_visibly
strip-visible String.[] s h = absurd (true≢false_of h refl)
strip-visible (String.◌∷◌ c p) s h = elim (Bool-cases (is_space c)) [
  | inl e ↦ absurd (true≢false_of (rw e at h) refl)
  | inr e ↦ rw (cons-append c p s, e, e) (cons-ne_empty c (strip_right (append p s)))
]
