-- ===== src/Worklist/Cuts.antt =====
-- Lists of open recommendations (app/persistence/recommendation_repository.py) in the order of the
-- query, cut at a row.
use mathlib.Core.Option
use card_fraud_ops_analyst_a.Prelude.{
  ℕ, zero, suc, ◌≡◌, ◌≤◌, ◌<◌, Bool, true, false, none, some, ◌==◌, if◌then◌else◌, List, [], ◌∷◌,
  ◌++◌, take, length, ltb, refl, ap, arith,
}
use card_fraud_ops_analyst_a.Worklist.Paging.{
  OpenRow, CursorValues, Codec, Driver, bound_time, encode, decode, after_cursor, select, last_or,
}

-- what the libraries say: decoding undoes encoding
pub record IsLossless {T : Type 0} (codec : Codec T) : Type 0 where
  pub json : (v : CursorValues) → codec.loads (codec.dumps v) ≡ some v
  pub base64 : (s : T) → codec.b64decode (codec.b64encode s) ≡ some s

pub decode-encode :
    {T : Type 0} (codec : Codec T) (v : CursorValues)
    → IsLossless codec
    → decode codec (encode codec v) ≡ some v
unfolding decode encode Option.bind
decode-encode codec v h = rw (h.base64 (codec.dumps v)) (h.json v)

-- later rows are strictly older
unfoldable pub AllOlder : ℕ → List OpenRow → Type 0
AllOlder n [] = Unit
AllOlder n (r ∷ rs) = (r.created_at < n) × AllOlder n rs

unfoldable pub IsNewestFirst : List OpenRow → Type 0
unfolding AllOlder
IsNewestFirst [] = Unit
IsNewestFirst (r ∷ rs) = AllOlder r.created_at rs × IsNewestFirst rs

-- What a driver does with the texts of its own times: it reads them, or it refuses them all, as
-- asyncpg does with a text for a TIMESTAMPTZ. They are not empty.
pub record IsDriver (reads : Bool) (driver : Driver) : Type 0 where
  pub nonempty : (t : ℕ) → (driver.str_time t == "") ≡ false
  pub binds : (t : ℕ) → driver.bind_time (driver.str_time t) ≡ (if reads then some t else none)

abbrev pub cursor_at : Driver → OpenRow → ℕ → CursorValues
cursor_at driver r total = record {
  status = "OPEN";
  created_at = driver.str_time r.created_at;
  total = total;
}

pub bound_time-at :
    (reads : Bool) (driver : Driver) (r : OpenRow) (total : ℕ)
    → IsDriver reads driver
    → bound_time driver (cursor_at driver r total)
      ≡ (if reads then some (some r.created_at) else none)
unfolding bound_time
bound_time-at true driver r total d = rw (d.nonempty r.created_at, d.binds r.created_at) refl
bound_time-at false driver r total d = rw (d.nonempty r.created_at, d.binds r.created_at) refl

select-older :
    (y : OpenRow) (rows : List OpenRow)
    → AllOlder y.created_at rows
    → select (after_cursor "OPEN" (some y.created_at)) rows ≡ rows
unfolding select AllOlder
select-older y [] h = refl
select-older y (r ∷ rows) h = rw (older r.created_at y.created_at h.0, select-older y rows h.1) refl
  where
    older : (m n : ℕ) → m < n → ltb m n ≡ true
    older m n h = ground arith

AllOlder-split :
    (n : ℕ) (xs : List OpenRow) (y : OpenRow) (ys : List OpenRow)
    → AllOlder n (xs ++ y ∷ ys)
    → y.created_at < n
unfolding AllOlder
AllOlder-split n [] y ys h = h.0
AllOlder-split n (x ∷ xs) y ys h = AllOlder-split n xs y ys h.1

-- from the cursor at a row, the query sees what follows the row
pub select-after :
    (xs : List OpenRow) (y : OpenRow) (ys : List OpenRow)
    → IsNewestFirst (xs ++ y ∷ ys)
    → select (after_cursor "OPEN" (some y.created_at)) (xs ++ y ∷ ys) ≡ ys
unfolding select IsNewestFirst AllOlder
select-after [] y ys h = rw (not_self y.created_at) (select-older y ys h.0)
  where
    not_self : (n : ℕ) → ltb n n ≡ false
    not_self n = ground arith
select-after (x ∷ xs) y ys h =
    rw (newer y.created_at x.created_at (AllOlder-split x.created_at xs y ys h.0))
      (select-after xs y ys h.1)
  where
    newer : (m n : ℕ) → m < n → ltb n m ≡ false
    newer m n h = ground arith

-- the split of a list after its first `n` + 1 items
pub record Cut (n : ℕ) (rows : List OpenRow) : Type 0 where
  pub front : List OpenRow
  pub last : OpenRow
  pub back : List OpenRow
  pub whole : rows ≡ front ++ last ∷ back
  pub taken : take (suc n) rows ≡ front ++ last ∷ []
  pub counted : length front ≡ n

pub cut : (n : ℕ) (rows : List OpenRow) → n < length rows → Cut n rows
cut n [] h = absurd (omega arith)
cut zero (r ∷ rows) h = record {
  front = [];
  last = r;
  back = rows;
  whole = refl;
  taken = refl;
  counted = refl;
}
cut (suc n) (r ∷ rows) h =
    let c = cut n rows (omega arith) in
    record {
      front = r ∷ c.front;
      last = c.last;
      back = c.back;
      whole = ap (λ (xs : List OpenRow). r ∷ xs) c.whole;
      taken = ap (λ (xs : List OpenRow). r ∷ xs) c.taken;
      counted = omega (arith, c.counted);
    }

pub last_or-append : (r x : OpenRow) (xs : List OpenRow) → last_or r (xs ++ x ∷ []) ≡ x
last_or-append r x [] = refl
last_or-append r x (y ∷ ys) = last_or-append y x ys

pub take-all : (n : ℕ) (rows : List OpenRow) → length rows ≤ n → take n rows ≡ rows
take-all n [] h = take-nil n
  where
    take-nil : (n : ℕ) → take {A = OpenRow} n [] ≡ []
    take-nil zero = refl
    take-nil (suc n) = refl
take-all zero (r ∷ rows) h = absurd (omega arith)
take-all (suc n) (r ∷ rows) h = ap (λ (xs : List OpenRow). r ∷ xs) (take-all n rows (omega arith))

pub length-take : (n : ℕ) (rows : List OpenRow) → n ≤ length rows → length (take n rows) ≡ n
length-take zero rows h = refl
length-take (suc n) [] h = absurd (omega arith)
length-take (suc n) (r ∷ rows) h = omega (arith, length-take n rows (omega arith))

pub take-take : (n : ℕ) (rows : List OpenRow) → take n (take (suc n) rows) ≡ take n rows
take-take zero rows = refl
take-take (suc n) [] = refl
take-take (suc n) (r ∷ rows) = ap (λ (xs : List OpenRow). r ∷ xs) (take-take n rows)
