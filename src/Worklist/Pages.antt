-- ===== src/Worklist/Pages.antt =====
-- Following the cursors of `list_open` (app/persistence/recommendation_repository.py) through all
-- the pages.
use card_fraud_ops_analyst_a.Prelude.{
  ℕ, zero, suc, ◌+◌, ◌≡◌, ◌≤◌, ◌<◌, String, true, false, Option, none, some, List, [], ◌∷◌, ◌++◌,
  take, length, leb, ltb, refl, sym, ap, ◌∙◌, arith, Bool-cases, inl, inr, length-append, ltb→lt,
}
use card_fraud_ops_analyst_a.Worklist.Paging.{
  OpenRow, CursorValues, Codec, Driver, bound_time, finished, query_failed, encode, decode_optional,
  no_values, values_or_empty, after_cursor, has_severity, select, wanted_severity, Page, listed,
  next_of, page_of, list_open, read_pages, listing_of, normalized_or_empty,
}
use card_fraud_ops_analyst_a.Worklist.Cuts.{
  IsLossless, decode-encode, IsDriver, bound_time-at, IsNewestFirst, cursor_at, select-after, Cut,
  cut, last_or-append, take-all, length-take, take-take,
}

module _ {T : Type 0} (codec : Codec T) (driver : Driver) where
  pub page-last :
      (limit total : ℕ) (rows : List OpenRow)
      → length rows ≤ limit
      → page_of codec driver limit total (take (suc limit) rows)
        ≡ record { rows = rows; next_cursor = none }
  unfolding page_of
  page-last limit total rows h =
      rw (take-all (suc limit) rows (omega arith), no_more (length rows) limit h)
        (ap (λ (o : Option T). record { rows = rows; next_cursor = o })
          (no_next (total + length rows) rows))
    where
      no_more : (m n : ℕ) → m ≤ n → ltb n m ≡ false
      no_more m n h = ground arith

      no_next : (t : ℕ) (xs : List OpenRow) → next_of codec driver t false xs ≡ none
      no_next t [] = refl
      no_next t (x ∷ xs) = refl

  next_of-append :
      (t : ℕ) (xs : List OpenRow) (y : OpenRow)
      → ltb t 1000 ≡ true
      → next_of codec driver t true (xs ++ y ∷ []) ≡ some (encode codec (cursor_at driver y t))
  next_of-append t [] y h = rw h refl
  next_of-append t (x ∷ xs) y h = rw (h, last_or-append x y xs) refl

  pub page-more :
      (n total : ℕ) (rows : List OpenRow) (c : Cut n rows)
      → suc n < length rows
      → total + suc n < 1000
      → page_of codec driver (suc n) total (take (suc (suc n)) rows) ≡ record {
        rows = c.front ++ c.last ∷ [];
        next_cursor = some (encode codec (cursor_at driver c.last (total + suc n)));
      }
  unfolding page_of
  page-more n total rows c h room =
      let full = length-take (suc (suc n)) rows (omega arith) in
      rw (full, more n, take-take (suc n) rows, c.taken, page_length c)
        (ap (λ (o : Option T). record { rows = c.front ++ c.last ∷ []; next_cursor = o })
          (next_of-append (total + suc n) c.front c.last (small (total + suc n) room)))
    where
      more : (k : ℕ) → ltb (suc k) (suc (suc k)) ≡ true
      more k = ground arith

      small : (k : ℕ) → k < 1000 → ltb k 1000 ≡ true
      small k h = ground arith

      page_length : (c : Cut n rows) → length (c.front ++ c.last ∷ []) ≡ suc n
      page_length c = omega (arith, length-append c.front (c.last ∷ []), c.counted)

  listing_of-page :
      (limit : ℕ) (given : String) (filter : Option String) (values : CursorValues)
      (time : Option ℕ) (table rows : List OpenRow)
      → bound_time driver values ≡ some time
      → select (after_cursor values.status time) (select (has_severity filter) table) ≡ rows
      → listing_of codec driver limit values table given (some filter)
        ≡ listed (page_of codec driver limit values.total (take (suc limit) rows))
  listing_of-page limit given filter values time table rows bound seen = rw (bound, seen) refl

  pub list_open-page :
      (limit : ℕ) (cursor : Option T) (severity filter : Option String) (values : CursorValues)
      (time : Option ℕ) (table rows : List OpenRow)
      → values_or_empty (decode_optional codec cursor) ≡ values
      → wanted_severity severity ≡ some filter
      → values.total < 1000
      → bound_time driver values ≡ some time
      → select (after_cursor values.status time) (select (has_severity filter) table) ≡ rows
      → list_open codec driver limit cursor severity table
        ≡ listed (page_of codec driver limit values.total (take (suc limit) rows))
  unfolding list_open
  list_open-page limit cursor severity filter values time table rows d w few bound seen =
      rw (d, w, below values.total few)
        (listing_of-page limit (normalized_or_empty severity) filter values time table rows bound
          seen)
    where
      below : (t : ℕ) → t < 1000 → leb 1000 t ≡ false
      below t h = ground arith

  pub list_open-failed :
      (limit : ℕ) (cursor : Option T) (severity filter : Option String) (values : CursorValues)
      (table : List OpenRow)
      → values_or_empty (decode_optional codec cursor) ≡ values
      → wanted_severity severity ≡ some filter
      → values.total < 1000
      → bound_time driver values ≡ none
      → list_open codec driver limit cursor severity table ≡ query_failed
  unfolding list_open
  list_open-failed limit cursor severity filter values table d w few bound =
      rw (d, w, below values.total few)
        (unbound limit (normalized_or_empty severity) filter values table bound)
    where
      below : (t : ℕ) → t < 1000 → leb 1000 t ≡ false
      below t h = ground arith

      unbound :
          (limit : ℕ) (given : String) (filter : Option String) (values : CursorValues)
          (table : List OpenRow)
          → bound_time driver values ≡ none
          → listing_of codec driver limit values table given (some filter) ≡ query_failed
      unbound limit given filter values table h = rw h refl

append_assoc : (xs ys zs : List OpenRow) → (xs ++ ys) ++ zs ≡ xs ++ (ys ++ zs)
append_assoc [] ys zs = refl
append_assoc (x ∷ xs) ys zs = ap (λ (ws : List OpenRow). x ∷ ws) (append_assoc xs ys zs)

pub append-nil : (xs : List OpenRow) → xs ++ [] ≡ xs
append-nil [] = refl
append-nil (x ∷ xs) = ap (λ (ws : List OpenRow). x ∷ ws) (append-nil xs)

select-from :
    (all xs : List OpenRow) (y : OpenRow) (ys : List OpenRow)
    → all ≡ xs ++ y ∷ ys
    → IsNewestFirst all
    → select (after_cursor "OPEN" (some y.created_at)) all ≡ ys
select-from all xs y ys e h = rw e (select-after xs y ys (rw e at h))

pub select-everything : (rows : List OpenRow) → select (after_cursor "" none) rows ≡ rows
unfolding select
select-everything [] = refl
select-everything (r ∷ rows) = ap (λ (ws : List OpenRow). r ∷ ws) (select-everything rows)

pub decode_next :
    {T : Type 0} (codec : Codec T) (v : CursorValues)
    → IsLossless codec
    → values_or_empty (decode_optional codec (some (encode codec v))) ≡ v
unfolding decode_optional
decode_next codec v h = rw (decode-encode codec v h) refl

-- the rows of a page go from the front of the rest to the end of what is read
regroup :
    (seen front : List OpenRow) (last : OpenRow) (back : List OpenRow)
    → seen ++ (front ++ last ∷ back) ≡ (seen ++ front) ++ last ∷ back
regroup seen front last back = sym (append_assoc seen front (last ∷ back))

paged :
    (seen front : List OpenRow) (last : OpenRow) (back : List OpenRow)
    → seen ++ (front ++ last ∷ back) ≡ (seen ++ (front ++ last ∷ [])) ++ back
paged seen front last back =
    ap (λ (ws : List OpenRow). seen ++ ws) (sym (append_assoc front (last ∷ []) back))
    ∙ sym (append_assoc seen (front ++ last ∷ []) back)

module _ {T : Type 0} (codec : Codec T) (lossless : IsLossless codec) (driver : Driver)
    (drives : IsDriver true driver) (n : ℕ) (severity filter : Option String) (table : List OpenRow)
    (wanted : wanted_severity severity ≡ some filter) where
  abbrev all_rows : List OpenRow
  all_rows = select (has_severity filter) table

  -- a cursor, with what was read up to it and what is left
  pub record IsAt (cursor : Option T) (values : CursorValues) (time : Option ℕ)
      (seen rest : List OpenRow) : Type 0 where
    decoded : values_or_empty (decode_optional codec cursor) ≡ values
    total : values.total ≡ length seen
    room : values.total < 1000
    bound : bound_time driver values ≡ some time
    sees : select (after_cursor values.status time) all_rows ≡ rest
    whole : all_rows ≡ seen ++ rest

  next-IsAt :
      (cursor : Option T) (values : CursorValues) (time : Option ℕ) (seen rest : List OpenRow)
      → IsAt cursor values time seen rest
      → (c : Cut n rest) → suc n < length rest
      → IsNewestFirst all_rows
      → length all_rows ≤ 1000
      → IsAt
          (some (encode codec (cursor_at driver c.last (values.total + suc n))))
          (cursor_at driver c.last (values.total + suc n))
          (some c.last.created_at)
          (seen ++ (c.front ++ c.last ∷ []))
          c.back
  next-IsAt cursor values time seen rest at c more sorted fits =
      let split = at.whole ∙ ap (λ (ws : List OpenRow). seen ++ ws) c.whole in
      record {
        decoded = decode_next codec (cursor_at driver c.last (values.total + suc n)) lossless;
        total = omega (
          arith,
          length-append seen (c.front ++ c.last ∷ []),
          length-append c.front (c.last ∷ []),
          c.counted,
          at.total,
        );
        room = left_room (length-append seen rest) (ap length at.whole) at.total;
        bound = bound_time-at true driver c.last (values.total + suc n) drives;
        sees =
            select-from all_rows (seen ++ c.front) c.last c.back
              (split ∙ regroup seen c.front c.last c.back) sorted;
        whole = split ∙ paged seen c.front c.last c.back;
      }
    where
      left_room :
          length (seen ++ rest) ≡ length seen + length rest
          → length all_rows ≡ length (seen ++ rest)
          → values.total ≡ length seen
          → values.total + suc n < 1000
      left_room a b c = omega arith

  pub read_from :
      (fuel : ℕ) (cursor : Option T) (values : CursorValues) (time : Option ℕ)
      (seen rest : List OpenRow)
      → IsAt cursor values time seen rest
      → IsNewestFirst all_rows
      → length all_rows ≤ 1000
      → length rest < fuel
      → read_pages codec driver fuel (suc n) cursor severity table ≡ (rest, finished)
  unfolding read_pages
  read_from zero cursor values time seen rest at sorted fits enough = absurd (omega (arith, enough))
  read_from (suc fuel) cursor values time seen rest at sorted fits enough =
      let listing =
        list_open-page codec driver (suc n) cursor severity filter values time table rest at.decoded
          wanted at.room at.bound at.sees in
      elim (Bool-cases (ltb (suc n) (length rest))) [
        | inl e ↦
            let more : suc n < length rest = ltb→lt (suc n) (length rest) e in
            let c = cut n rest (omega arith) in
            let next = next-IsAt cursor values time seen rest at c more sorted fits in
            rw
              (
                listing
                    ∙ ap (λ (p : Page T). listed p)
                        (page-more codec driver n values.total rest c more next.room),
                read_from fuel _ _ _ _ c.back next sorted fits (shorter c enough),
              )
              (ap (λ (rows : List OpenRow). (rows, finished))
                (append_assoc c.front (c.last ∷ []) c.back ∙ sym c.whole))
        | inr e ↦
            rw
              (listing
                ∙ ap (λ (p : Page T). listed p)
                    (page-last codec driver (suc n) values.total rest (at_most (length rest) e)))
              (ap (λ (rows : List OpenRow). (rows, finished)) (append-nil rest))
      ]
    where
      at_most : (m : ℕ) → ltb (suc n) m ≡ false → m ≤ suc n
      at_most m h = ground arith

      shorter : (c : Cut n rest) → length rest < suc fuel → length c.back < fuel
      shorter c h = omega (arith, ap length c.whole, length-append c.front (c.last ∷ c.back), h)

  pub read_whole :
      (fuel : ℕ)
      → IsNewestFirst all_rows
      → length all_rows ≤ 1000
      → length all_rows < fuel
      → read_pages codec driver fuel (suc n) none severity table ≡ (all_rows, finished)
  unfolding decode_optional bound_time
  read_whole fuel sorted fits enough =
      read_from fuel none no_values none [] all_rows
        (record {
          decoded = refl;
          total = refl;
          room = omega arith;
          bound = refl;
          sees = select-everything all_rows;
          whole = refl;
        })
        sorted fits enough
