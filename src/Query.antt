-- ===== src/Query.antt =====
-- How callers read a result: the constructor, Fetch, NextRow and EndQuery of
-- IMServer/IMServer/QueryResult.h and QueryResult.cpp, and the loop around them.
pub mod Field
pub mod Result
use aim_server.Common.{
  ◌≡◌, refl, ◌≢◌, List, [], ◌∷◌, Option, none, some, ap, All, Bytes, ℤ, get_or, ℕ,
}
use aim_server.Env.{Row}
use aim_server.Text.Decimal.{atoi}

-- The current row, with no column when there is none, and the rows of MYSQL_RES behind it.
pub record QueryResult : Type 0 where
  pub current_row : Row
  pub pending : List Row

-- The constructor takes the first row, or ends the query.
pub open_result : List Row → QueryResult
open_result [] = record { current_row = []; pending = [] }
open_result (r ∷ rs) = record { current_row = r; pending = rs }

non_empty : Row → Option Row
non_empty [] = none
non_empty (c ∷ cs) = some (c ∷ cs)

-- Fetch: no row for a current row without columns.
pub fetch : QueryResult → Option Row
unfolding non_empty
fetch q = non_empty q.current_row

-- `while (true) { row = Fetch(); if (!row) break; ...; if (!NextRow()) break; }`
read_from : Row → List Row → List Row
read_from [] pending = []
read_from (c ∷ cs) [] = (c ∷ cs) ∷ []
read_from (c ∷ cs) (r ∷ rs) = (c ∷ cs) ∷ read_from r rs

-- The rows that the loop visits.
unfoldable pub read_rows : List Row → List Row
unfolding read_from open_result
read_rows rows = read_from (open_result rows).current_row (open_result rows).pending

-- The row that a single Fetch reads.
unfoldable pub first_row : List Row → Option Row
unfolding fetch open_result
first_row rows = fetch (open_result rows)

-- `pRow[i].GetString()` and `pRow[i].toInt32()`.
abbrev pub field : Row → ℕ → Bytes
field row i = get_or row i []

unfoldable pub int_field : Row → ℕ → ℤ
unfolding atoi
int_field row i = atoi (field row i)

read_from-All : (r : Row) (rs : List Row) → r ≢ [] → All (λ x. x ≢ []) rs → read_from r rs ≡ r ∷ rs
unfolding read_from
read_from-All [] rs h hs = absurd (h refl)
read_from-All (c ∷ cs) [] h hs = refl
read_from-All (c ∷ cs) (r ∷ rs) h hs = ap (◌∷◌ (c ∷ cs)) (read_from-All r rs hs.0 hs.1)

-- The loop visits every row of a result once and in order: none is lost to the constructor, which
-- has fetched the first one, and an empty result has no row.
pub read_rows-All : (rows : List Row) → All (λ x. x ≢ []) rows → read_rows rows ≡ rows
unfolding read_rows open_result read_from
read_rows-All [] h = refl
read_rows-All (r ∷ rs) h = read_from-All r rs h.0 h.1
