-- ===== src/Worklist/Paging.antt =====
-- The pages of open recommendations: `list_open` of app/persistence/recommendation_repository.py
-- and the cursors of app/persistence/base.py. The rows are those of the query's join, in its order;
-- a time in a row is a number, and a text in a cursor. JSON, base64 and the driver are parameters.
use Prim.Native.String.{compare}
use Prim.Native.Nat.{Ordering}
use mathlib.Core.Option
use card_fraud_ops_analyst_a.Prelude.{
  ℕ, zero, suc, ◌+◌, String, Bool, true, false, Option, none, some, List, [], ◌∷◌, ◌++◌, ◌==◌, ◌&&◌,
  not, if◌then◌else◌, contains, strip, upper, take, length, leb, ltb,
}

pub record OpenRow : Type 0 where
  pub recommendation_id : String
  pub created_at : ℕ
  pub severity : String

-- `BaseCursor.values`; a missing key is "", "" and 0.
pub record CursorValues : Type 0 where
  pub status : String
  pub created_at : String
  pub total : ℕ

-- `T` is the type of the texts that cursors travel as.
pub record Codec (T : Type 0) : Type 0 where
  -- `json.dumps` of the values, and `json.loads`, `none` where it raises
  pub dumps : CursorValues → T
  pub loads : T → Option CursorValues
  -- `urlsafe_b64encode` and `urlsafe_b64decode`
  pub b64encode : T → T
  pub b64decode : T → Option T

-- The driver of the database, with the datetimes that it returns.
pub record Driver : Type 0 where
  -- `str` of a value of a TIMESTAMPTZ column
  pub str_time : ℕ → String
  -- the time that a text stands for as a parameter that is compared with such a column, `none`
  -- where the query raises
  pub bind_time : String → Option ℕ

abbrev pub max_recommendations_per_user : ℕ
max_recommendations_per_user = 1000

abbrev pub valid_severity_filters : List String
valid_severity_filters = "LOW" ∷ "MEDIUM" ∷ "HIGH" ∷ "CRITICAL" ∷ []

module _ {T : Type 0} (codec : Codec T) where
  open codec use {dumps, loads, b64encode, b64decode}

  -- `encode`
  unfoldable pub encode : CursorValues → T
  encode values = b64encode (dumps values)

  -- `decode`, `none` for CursorDecodeError
  unfoldable pub decode : T → Option CursorValues
  decode cursor = Option.bind (b64decode cursor) loads

  -- `decode_optional`
  unfoldable pub decode_optional : Option T → Option CursorValues
  unfolding decode
  decode_optional none = none
  decode_optional (some cursor) = decode cursor

abbrev pub no_values : CursorValues
no_values = record { status = ""; created_at = ""; total = 0 }

abbrev pub values_or_empty : Option CursorValues → CursorValues
values_or_empty none = no_values
values_or_empty (some values) = values

-- `(r.status, r.created_at) < (:cursor_status, :cursor_created_at)`, of an open row
abbrev pub precedes : String → ℕ → OpenRow → Bool
precedes status time r = elim (compare "OPEN" status) [
  | Ordering.lt ↦ true
  | Ordering.eq ↦ ltb r.created_at time
  | Ordering.gt ↦ false
]

-- What is bound for `:cursor_created_at`: `some none` where there is no condition on the cursor,
-- `none` where the query raises.
unfoldable pub bound_time : Driver → CursorValues → Option (Option ℕ)
bound_time driver values =
    if not (values.status == "") && not (values.created_at == "")
    then Option.map some (driver.bind_time values.created_at)
    else some none

abbrev pub after_cursor : String → Option ℕ → OpenRow → Bool
after_cursor status none r = true
after_cursor status (some time) r = precedes status time r

abbrev pub has_severity : Option String → OpenRow → Bool
has_severity none r = true
has_severity (some severity) r = r.severity == severity

unfoldable pub select : (OpenRow → Bool) → List OpenRow → List OpenRow
select test [] = []
select test (r ∷ rs) = let rest = select test rs in if test r then r ∷ rest else rest

abbrev pub last_or : OpenRow → List OpenRow → OpenRow
last_or r [] = r
last_or r (x ∷ xs) = last_or x xs

abbrev pub normalized_or_empty : Option String → String
normalized_or_empty none = ""
normalized_or_empty (some severity) = upper (strip severity)

-- the filter to apply, `none` for the ValidationError
unfoldable pub wanted_severity : Option String → Option (Option String)
wanted_severity none = some none
wanted_severity (some severity) =
    let wanted = upper (strip severity) in
    if contains wanted valid_severity_filters
    then some (if wanted == "" then none else some wanted)
    else none

-- A page and the cursor to the next one.
pub record Page (T : Type 0) : Type 0 where
  pub rows : List OpenRow
  pub next_cursor : Option T

-- a page, the ValidationError, or what the driver raises
pub data Listing (T : Type 0) : Type 0 where
  listed : Page T → Listing T
  invalid_severity : String → Listing T
  query_failed : Listing T

-- How a client that follows the cursors ends: without a next cursor, with an error, or before it
-- has read all the pages.
pub data Ending : Type 0 where
  finished raised unfinished : Ending

abbrev pub rows_before : List OpenRow → List OpenRow × Ending → List OpenRow × Ending
rows_before rows r = (rows ++ r.0, r.1)

module _ {T : Type 0} (codec : Codec T) (driver : Driver) where
  abbrev pub next_of : ℕ → Bool → List OpenRow → Option T
  next_of new_total has_more [] = none
  next_of new_total has_more (r ∷ rs) =
      if has_more && ltb new_total max_recommendations_per_user
      then some (
          encode codec (record {
            status = "OPEN";
            created_at = driver.str_time (last_or r rs).created_at;
            total = new_total;
          }))
      else none

  -- what the query returns, cut to the page
  unfoldable pub page_of : ℕ → ℕ → List OpenRow → Page T
  unfolding encode
  page_of limit total found =
      let has_more = ltb limit (length found) in
      let rows = if has_more then take limit found else found in
      record { rows = rows; next_cursor = next_of (total + length rows) has_more rows }

  abbrev pub query : ℕ → String → Option ℕ → Option String → List OpenRow → List OpenRow
  query limit status time severity table =
      take (suc limit) (select (after_cursor status time) (select (has_severity severity) table))

  abbrev pub at_time :
      ℕ → CursorValues → List OpenRow → Option String → Option (Option ℕ) → Listing T
  at_time limit values table severity none = query_failed
  at_time limit values table severity (some time) =
      listed (page_of limit values.total (query limit values.status time severity table))

  abbrev pub listing_of :
      ℕ → CursorValues → List OpenRow → String → Option (Option String) → Listing T
  listing_of limit values table given none = invalid_severity given
  listing_of limit values table given (some severity) =
      at_time limit values table severity (bound_time driver values)

  abbrev pub answer_of : ℕ → CursorValues → Option String → List OpenRow → Listing T
  answer_of limit values severity table =
      if leb max_recommendations_per_user values.total
      then listed (record { rows = []; next_cursor = none })
      else listing_of limit values table (normalized_or_empty severity) (wanted_severity severity)

  -- `list_open`
  unfoldable pub list_open : ℕ → Option T → Option String → List OpenRow → Listing T
  unfolding page_of decode_optional wanted_severity bound_time
  list_open limit cursor severity table =
      answer_of limit (values_or_empty (decode_optional codec cursor)) severity table

  abbrev pub on_next : (T → List OpenRow × Ending) → Option T → List OpenRow × Ending
  on_next later none = ([], finished)
  on_next later (some cursor) = later cursor

  abbrev pub follow : (T → List OpenRow × Ending) → Listing T → List OpenRow × Ending
  follow later (listed page) = rows_before page.rows (on_next later page.next_cursor)
  follow later (invalid_severity _) = ([], raised)
  follow later query_failed = ([], raised)

  -- a client that follows the cursors, over at most so many pages
  unfoldable pub read_pages :
      ℕ → ℕ → Option T → Option String → List OpenRow → List OpenRow × Ending
  unfolding list_open
  read_pages zero limit cursor severity table = ([], unfinished)
  read_pages (suc fuel) limit cursor severity table =
      follow (λ next. read_pages fuel limit (some next) severity table)
        (list_open limit cursor severity table)
