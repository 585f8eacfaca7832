-- ===== src/Agent/Planner/Braces.antt =====
-- What `_extract_balanced_json` of app/agent/planner.py looks for in a text, as a grammar.
use Prim.Native.Char.{Char, code}
use Prim.Native.String.{◌++◌ as append}
use text.Mathlib.TextLemmas.{cons-append}
use mathlib.Core.Option
use card_fraud_ops_analyst_a.Prelude.{
  ℕ, zero, suc, ◌+◌, ◌-◌, ◌≡◌, String, Bool, true, false, some, ◌==ℕ◌, arith, refl, Bool-cases, inl,
  inr, sym, some_inj, none_ne_some, map-eq-some,
}
use card_fraud_ops_analyst_a.Agent.Planner.Payload.{Scan, scan_char, scan_text}

abbrev pub is_quote : Char → Bool
is_quote c = code c ==ℕ b'"'

abbrev pub is_backslash : Char → Bool
is_backslash c = code c ==ℕ b'\\'

abbrev pub is_open_brace : Char → Bool
is_open_brace c = code c ==ℕ b'{'

abbrev pub is_close_brace : Char → Bool
is_close_brace c = code c ==ℕ b'}'

mutual
  -- A text that closes `n` + 1 braces, the last of them with its last character. Braces within
  -- quotes do not count.
  pub data Closes : ℕ → String → Type 0 where
    last : {c : Char} → is_close_brace c ≡ true → Closes zero (String.◌∷◌ c String.[])
    close :
        {n : ℕ} {c : Char} {s : String}
        → is_close_brace c ≡ true
        → Closes n s
        → Closes (suc n) (String.◌∷◌ c s)
    open_brace :
        {n : ℕ} {c : Char} {s : String}
        → is_open_brace c ≡ true
        → Closes (suc n) s
        → Closes n (String.◌∷◌ c s)
    plain :
        {n : ℕ} {c : Char} {s : String}
        → is_quote c ≡ false
        → is_open_brace c ≡ false
        → is_close_brace c ≡ false
        → Closes n s
        → Closes n (String.◌∷◌ c s)
    quote :
        {n : ℕ} {c : Char} {s : String} → is_quote c ≡ true → Quoted n s → Closes n (String.◌∷◌ c s)

  -- The same of a text that begins within quotes.
  pub data Quoted : ℕ → String → Type 0 where
    unquote :
        {n : ℕ} {c : Char} {s : String} → is_quote c ≡ true → Closes n s → Quoted n (String.◌∷◌ c s)
    escaped :
        {n : ℕ} {c d : Char} {s : String}
        → is_backslash c ≡ true
        → Quoted n s
        → Quoted n (String.◌∷◌ c (String.◌∷◌ d s))
    char :
        {n : ℕ} {c : Char} {s : String}
        → is_quote c ≡ false
        → is_backslash c ≡ false
        → Quoted n s
        → Quoted n (String.◌∷◌ c s)

abbrev pub outside : ℕ → Scan
outside n = record { depth = suc n; in_string = false; escape = false }

abbrev inside : ℕ → Scan
inside n = record { depth = suc n; in_string = true; escape = false }

abbrev behind_backslash : ℕ → Scan
behind_backslash n = record { depth = suc n; in_string = true; escape = true }

not_quote : (c : Char) → is_close_brace c ≡ true → is_quote c ≡ false
not_quote c h = ground arith

pub quote_not_brace : (c : Char) → is_open_brace c ≡ true → is_quote c ≡ false
quote_not_brace c h = ground arith

close_not_open : (c : Char) → is_close_brace c ≡ true → is_open_brace c ≡ false
close_not_open c h = ground arith

quote_not_backslash : (c : Char) → is_quote c ≡ true → is_backslash c ≡ false
quote_not_backslash c h = ground arith

-- what follows the character that a scan reads
pub rest_of :
    (c : Char) (st : Scan) (s b : String)
    → Option.map (String.◌∷◌ c) (scan_text st s) ≡ some b
    → (t : String) × (scan_text st s ≡ some t) × (b ≡ String.◌∷◌ c t)
rest_of c st s b h =
    let found = map-eq-some (String.◌∷◌ c) (scan_text st s) b h in (found.0, found.1, sym found.2)

one_more : (n : ℕ) → suc n + 1 ≡ suc (suc n)
one_more n = omega arith

one_less : (n : ℕ) → suc (suc n) - 1 ≡ suc n
one_less n = omega arith

deeper : (n : ℕ) → (suc (suc n) ==ℕ 1) ≡ false
deeper n = ground arith

-- at a closing brace, from what holds of the text behind it
closed :
    (c : Char) (s : String) (n : ℕ) (b : String)
    → is_close_brace c ≡ true
    → ((m : ℕ) (t : String) → scan_text (outside m) s ≡ some t → Closes m t)
    → scan_text (outside n) (String.◌∷◌ c s) ≡ some b
    → Closes n b
unfolding scan_text scan_char
closed c s zero b e later h =
    let found =
      some_inj (String.◌∷◌ c String.[]) b
        (rw (scan_text, not_quote c e, close_not_open c e, e) at h) in
    rw (sym found) (last e)
closed c s (suc n) b e later h =
    let r =
      rest_of c (outside n) s b
        (rw (scan_text, not_quote c e, close_not_open c e, e, deeper n, one_less n) at h) in
    rw r.2 (close e (later n r.0 r.1))

mutual
  unfolding scan_text scan_char

  pub scan-Closes :
      (s : String) (n : ℕ) (b : String) → scan_text (outside n) s ≡ some b → Closes n b
  scan-Closes String.[] n b h = absurd (none_ne_some h)
  scan-Closes (String.◌∷◌ c s) n b h = elim (Bool-cases (is_quote c)) [
    | inl q ↦
        let r = rest_of c (inside n) s b (rw (scan_text, q) at h) in
        rw r.2 (quote q (scan-Quoted s n r.0 r.1))
    | inr q ↦ elim (Bool-cases (is_open_brace c)) [
      | inl o ↦
          let r = rest_of c (outside (suc n)) s b (rw (scan_text, q, o, one_more n) at h) in
          rw r.2 (open_brace o (scan-Closes s (suc n) r.0 r.1))
      | inr o ↦ elim (Bool-cases (is_close_brace c)) [
        | inl e ↦ closed c s n b e (scan-Closes s) h
        | inr e ↦
            let r = rest_of c (outside n) s b (rw (scan_text, q, o, e) at h) in
            rw r.2 (plain q o e (scan-Closes s n r.0 r.1))
      ]
    ]
  ]

  scan-Quoted : (s : String) (n : ℕ) (b : String) → scan_text (inside n) s ≡ some b → Quoted n b
  scan-Quoted String.[] n b h = absurd (none_ne_some h)
  scan-Quoted (String.◌∷◌ c s) n b h = elim (Bool-cases (is_backslash c)) [
    | inl k ↦
        let r = rest_of c (behind_backslash n) s b (rw (scan_text, k) at h) in
        let t = scan-skipped s n r.0 r.1 in rw (r.2, t.2) (escaped k t.3)
    | inr k ↦ elim (Bool-cases (is_quote c)) [
      | inl q ↦
          let r = rest_of c (outside n) s b (rw (scan_text, k, q) at h) in
          rw r.2 (unquote q (scan-Closes s n r.0 r.1))
      | inr q ↦
          let r = rest_of c (inside n) s b (rw (scan_text, k, q) at h) in
          rw r.2 (char q k (scan-Quoted s n r.0 r.1))
    ]
  ]

  scan-skipped :
      (s : String) (n : ℕ) (b : String)
      → scan_text (behind_backslash n) s ≡ some b
      → (d : Char) × (t : String) × (b ≡ String.◌∷◌ d t) × Quoted n t
  scan-skipped String.[] n b h = absurd (none_ne_some h)
  scan-skipped (String.◌∷◌ c s) n b h =
      let r = rest_of c (inside n) s b h in (c, r.0, r.2, scan-Quoted s n r.0 r.1)

mutual
  unfolding scan_text scan_char

  pub Closes-scan :
      {n : ℕ} {t : String}
      → Closes n t
      → (rest : String) → scan_text (outside n) (append t rest) ≡ some t
  Closes-scan (last {c = c} e) rest =
      rw (cons-append c String.[] rest, scan_text, not_quote c e, close_not_open c e, e) refl
  Closes-scan (close {n = n} {c = c} {s = s} e k) rest =
      rw
        (
          cons-append c s rest,
          scan_text,
          not_quote c e,
          close_not_open c e,
          e,
          deeper n,
          one_less n,
          Closes-scan k rest,
        )
        refl
  Closes-scan (open_brace {n = n} {c = c} {s = s} e k) rest =
      rw (cons-append c s rest, scan_text, quote_not_brace c e, e, one_more n, Closes-scan k rest)
        refl
  Closes-scan (plain {n = n} {c = c} {s = s} q o e k) rest =
      rw (cons-append c s rest, scan_text, q, o, e, Closes-scan k rest) refl
  Closes-scan (quote {n = n} {c = c} {s = s} q k) rest =
      rw (cons-append c s rest, scan_text, q, Quoted-scan k rest) refl

  Quoted-scan :
      {n : ℕ} {t : String}
      → Quoted n t
      → (rest : String) → scan_text (inside n) (append t rest) ≡ some t
  Quoted-scan (unquote {n = n} {c = c} {s = s} q k) rest =
      rw (cons-append c s rest, scan_text, quote_not_backslash c q, q, Closes-scan k rest) refl
  Quoted-scan (escaped {n = n} {c = c} {d = d} {s = s} e k) rest =
      rw
        (
          cons-append c (String.◌∷◌ d s) rest,
          e,
          cons-append d s rest,
          scan_text,
          Quoted-scan k rest,
        )
        refl
  Quoted-scan (char {n = n} {c = c} {s = s} q e k) rest =
      rw (cons-append c s rest, scan_text, e, q, Quoted-scan k rest) refl
