-- ===== src/Worklist/Following.antt =====
-- Following the cursors of `list_open` (app/persistence/recommendation_repository.py) with a driver
-- that reads the times in them, and with one that refuses them.
use card_fraud_ops_analyst_a.Prelude.{
  ℕ, zero, suc, ◌+◌, ◌≡◌, ◌≤◌, ◌<◌, String, Bool, true, false, Option, none, some, List, [], ◌∷◌,
  ◌++◌, ◌||◌, take, length, leb, refl, ap, ◌∙◌, arith, Bool-cases, inl, inr, if◌then◌else◌,
}
use card_fraud_ops_analyst_a.Worklist.Paging.{
  OpenRow, Codec, Driver, bound_time, finished, raised, encode, decode_optional, no_values,
  has_severity, select, wanted_severity, listed, read_pages,
}
use card_fraud_ops_analyst_a.Worklist.Cuts.{
  IsLossless, IsDriver, bound_time-at, IsNewestFirst, cursor_at, cut,
}
use card_fraud_ops_analyst_a.Worklist.Pages.{
  page-last, page-more, list_open-page, list_open-failed, append-nil, select-everything,
  decode_next, read_whole,
}

module _ {T : Type 0} (codec : Codec T) (lossless : IsLossless codec) (driver : Driver) (n : ℕ)
    (severity filter : Option String) (table : List OpenRow)
    (wanted : wanted_severity severity ≡ some filter) where
  abbrev wanted_rows : List OpenRow
  wanted_rows = select (has_severity filter) table

  first_only :
      (fuel : ℕ)
      → IsDriver false driver
      → length wanted_rows ≤ 1000
      → length wanted_rows < suc fuel
      → suc n < length wanted_rows
      → read_pages codec driver (suc fuel) (suc n) none severity table
        ≡ (take (suc n) wanted_rows, raised)
  unfolding read_pages decode_optional bound_time
  first_only zero drives fits enough more = absurd (omega (arith, enough, more))
  first_only (suc fuel) drives fits enough more =
      let c = cut n wanted_rows (omega arith) in
      let cursor = cursor_at driver c.last (0 + suc n) in
      rw
        (
          list_open-page codec driver (suc n) none severity filter no_values none table wanted_rows
                refl wanted (omega arith) refl (select-everything wanted_rows)
              ∙ ap (λ p. listed p) (page-more codec driver n 0 wanted_rows c more (omega arith)),
          list_open-failed codec driver (suc n) (some (encode codec cursor)) severity filter cursor
              table (decode_next codec cursor lossless) wanted (omega arith)
              (bound_time-at false driver c.last (0 + suc n) drives),
          c.taken,
        )
        (ap (λ (rows : List OpenRow). (rows, raised)) (append-nil (c.front ++ c.last ∷ [])))

  only_page :
      (fuel : ℕ)
      → length wanted_rows ≤ suc n
      → read_pages codec driver (suc fuel) (suc n) none severity table ≡ (wanted_rows, finished)
  unfolding read_pages decode_optional bound_time
  only_page fuel few =
      rw
        (list_open-page codec driver (suc n) none severity filter no_values none table wanted_rows
            refl wanted (omega arith) refl (select-everything wanted_rows)
          ∙ ap (λ p. listed p) (page-last codec driver (suc n) 0 wanted_rows few))
        (ap (λ (rows : List OpenRow). (rows, finished)) (append-nil wanted_rows))

  -- Reading page after page along the cursors of `list_open`, with any positive page size, where
  -- JSON and base64 lose nothing, the severity filter is valid, at most 1000 open recommendations
  -- pass it and no two of these were created at the same time. With a driver that reads the text of
  -- a time as that time, it gives exactly these recommendations, each once and newest first, and
  -- ends, after at most one page more than there are recommendations. With a driver that refuses
  -- such texts it does so only where they fit on one page; otherwise the first page is read and the
  -- second request raises.
  pub read_pages-outcome :
      (reads : Bool) (fuel : ℕ)
      → IsDriver reads driver
      → IsNewestFirst wanted_rows
      → length wanted_rows ≤ 1000
      → length wanted_rows < fuel
      → read_pages codec driver fuel (suc n) none severity table ≡ (
          if reads || leb (length wanted_rows) (suc n)
          then (wanted_rows, finished)
          else (take (suc n) wanted_rows, raised))
  read_pages-outcome reads zero drives sorted fits enough = absurd (omega (arith, enough))
  read_pages-outcome true (suc fuel) drives sorted fits enough =
      read_whole codec lossless driver drives n severity filter table wanted (suc fuel) sorted fits
        enough
  read_pages-outcome false (suc fuel) drives sorted fits enough =
      elim (Bool-cases (leb (length wanted_rows) (suc n))) [
        | inl e ↦ rw e (only_page fuel (few (length wanted_rows) e))
        | inr e ↦ rw e (first_only fuel drives fits enough (many (length wanted_rows) e))
      ]
    where
      few : (m : ℕ) → leb m (suc n) ≡ true → m ≤ suc n
      few m h = ground arith

      many : (m : ℕ) → leb m (suc n) ≡ false → suc n < m
      many m h = ground arith
