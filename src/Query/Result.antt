-- ===== src/Query/Result.antt =====
-- The class QueryResult (IMServer/IMServer/QueryResult.h and QueryResult.cpp) as an object that
-- changes, over the MYSQL_RES of libmysqlclient.
pub mod Rows
use aim_server.Common.{
  ℕ, zero, suc, ◌+◌, ◌≡◌, Bool, true, false, Option, none, some, List, [], ◌∷◌, if◌then◌else◌,
  Bytes, bytes_eq, get_elem?, length, replicate, map,
}
use aim_server.Query.Field.{
  DataTypes, type_none, type_string, type_integer, type_float, type_null, Field, new_field,
  set_value,
}

-- The types of columns that toType names, and the others.
pub data EnumFieldTypes : Type 0 where
  field_type_timestamp : EnumFieldTypes
  field_type_date : EnumFieldTypes
  field_type_time : EnumFieldTypes
  field_type_datetime : EnumFieldTypes
  field_type_year : EnumFieldTypes
  field_type_string : EnumFieldTypes
  field_type_var_string : EnumFieldTypes
  field_type_blob : EnumFieldTypes
  field_type_set : EnumFieldTypes
  field_type_null : EnumFieldTypes
  field_type_tiny : EnumFieldTypes
  field_type_short : EnumFieldTypes
  field_type_long : EnumFieldTypes
  field_type_longlong : EnumFieldTypes
  field_type_int24 : EnumFieldTypes
  field_type_enum : EnumFieldTypes
  field_type_float : EnumFieldTypes
  field_type_double : EnumFieldTypes
  field_type_other : EnumFieldTypes

-- A MYSQL_ROW with its lengths: a text for each column, or a null pointer.
abbrev pub Cells : Type 0
Cells = List (Option Bytes)

-- libmysqlclient on one MYSQL_RES: mysql_fetch_fields, mysql_fetch_row with mysql_fetch_lengths, and
-- mysql_free_result.
pub record MysqlRes : Type 1 where
  pub State : Type 0
  pub fetch_fields : State → List (Bytes × EnumFieldTypes)
  pub fetch_row : State → Option Cells × State
  pub free_result : State → State

-- What the documentation says of them: the rows come one after the other, and then NULL.
pub record IsCursor (m : MysqlRes) : Type 0 where
  pub pending : m.State → List Cells
  pub frees : m.State → ℕ
  pub at_row :
      (s : m.State) (r : Cells) (rs : List Cells)
      → pending s ≡ r ∷ rs
      → ((m.fetch_row s).0 ≡ some r) × (pending (m.fetch_row s).1 ≡ rs)
  pub at_end :
      (s : m.State) → pending s ≡ [] → ((m.fetch_row s).0 ≡ none) × (pending (m.fetch_row s).1 ≡ [])
  pub row_frees : (s : m.State) → frees (m.fetch_row s).1 ≡ frees s
  pub free_frees : (s : m.State) → frees (m.free_result s) ≡ suc (frees s)

-- QueryResult::toType.
pub to_type : EnumFieldTypes → DataTypes
to_type field_type_timestamp = type_string
to_type field_type_date = type_string
to_type field_type_time = type_string
to_type field_type_datetime = type_string
to_type field_type_year = type_string
to_type field_type_string = type_string
to_type field_type_var_string = type_string
to_type field_type_blob = type_string
to_type field_type_set = type_string
to_type field_type_null = type_null
to_type field_type_tiny = type_integer
to_type field_type_short = type_integer
to_type field_type_long = type_integer
to_type field_type_longlong = type_integer
to_type field_type_int24 = type_integer
to_type field_type_enum = type_integer
to_type field_type_float = type_float
to_type field_type_double = type_float
to_type field_type_other = type_none

-- The members; `has_result` says that m_result is not NULL. `res` is the MYSQL_RES, also after it is freed.
pub record QueryResult (m : MysqlRes) : Type 0 where
  pub current_row : List Field
  pub field_names : List Bytes
  pub has_result : Bool
  pub rowcount : ℕ
  pub columncount : ℕ
  pub res : m.State

-- The loop of the constructor over the columns: type, name and value of each.
pub first_fields : ℕ → List (Bytes × EnumFieldTypes) → Cells → List Field
unfolding to_type
first_fields (suc n) ((name, type) ∷ columns) (cell ∷ cells) =
    set_value cell (record new_field { type = to_type type; name = name })
    ∷ first_fields n columns cells
first_fields _ _ _ = []

-- The loop of NextRow: each column keeps its type and its name.
pub next_fields : List Field → Cells → List Field
next_fields (f ∷ fs) (cell ∷ cells) = set_value cell f ∷ next_fields fs cells
next_fields _ _ = []

-- `m_CurrentRow.empty() ? nullptr : m_CurrentRow.data()`.
data_of : List Field → Option (List Field)
data_of [] = none
data_of (f ∷ fs) = some (f ∷ fs)

-- GetFieldIndexByname; `none` is -1.
pub index_by_name : Bytes → List Bytes → Option ℕ
index_by_name name [] = none
index_by_name name (n ∷ ns) =
    let rest = index_by_name name ns in
    if bytes_eq n name then some 0 else elim rest [ none ↦ none | some i ↦ some (suc i) ]

module _ (m : MysqlRes) where
  -- EndQuery.
  pub end_query : QueryResult m → QueryResult m
  end_query q = record q {
    current_row = [];
    field_names = [];
    has_result = false;
    rowcount = 0;
    columncount = 0;
    res = if q.has_result then m.free_result q.res else q.res;
  }

  -- The end of the constructor, with what mysql_fetch_row gave.
  started : QueryResult m → Option Cells × m.State → QueryResult m
  unfolding end_query first_fields
  started q (none, s) = end_query (record q { res = s })
  started q (some cells, s) = record q {
    current_row = first_fields q.columncount (m.fetch_fields q.res) cells;
    field_names = map (λ (c : Bytes × EnumFieldTypes). c.0) (m.fetch_fields q.res);
    res = s;
  }

  -- The members before the first mysql_fetch_row; m_result is not NULL.
  abbrev pub fresh_result : m.State → ℕ → ℕ → QueryResult m
  fresh_result s rowcount columncount = record {
    current_row = replicate columncount new_field;
    field_names = replicate columncount [];
    has_result = true;
    rowcount = rowcount;
    columncount = columncount;
    res = s;
  }

  -- QueryResult::QueryResult.
  pub new_result : m.State → ℕ → ℕ → QueryResult m
  unfolding started
  new_result s rowcount columncount = started (fresh_result s rowcount columncount) (m.fetch_row s)

  advanced : QueryResult m → Option Cells × m.State → Bool × QueryResult m
  unfolding end_query next_fields
  advanced q (none, s) = (false, end_query (record q { res = s }))
  advanced q (some cells, s) =
      (true, record q { current_row = next_fields q.current_row cells; res = s })

  -- NextRow.
  pub next_row : QueryResult m → Bool × QueryResult m
  unfolding advanced
  next_row q = let r = advanced q (m.fetch_row q.res) in if q.has_result then r else (false, q)

  -- Fetch: the columns, or a null pointer if there are none.
  unfoldable pub fetch : QueryResult m → Option (List Field)
  unfolding data_of
  fetch q = data_of q.current_row

  -- The operator [] with the name of a column; `none` is an access outside the vector.
  pub at_name : Bytes → QueryResult m → Option Field
  unfolding index_by_name
  at_name name q = elim (index_by_name name q.field_names) [
    | none ↦ none
    | some i ↦ get_elem? q.current_row i
  ]

  -- `while (true) { row = Fetch(); if (!row) break; ...; if (!NextRow()) break; }` and EndQuery: the
  -- rows that the body sees, and the object afterwards. `none` is a loop that has not ended.
  pub read_all : ℕ → QueryResult m → Option (List (List Field) × QueryResult m)
  unfolding fetch next_row end_query
  read_all zero q = none
  read_all (suc fuel) q =
      let rest = read_all fuel (next_row q).1 in
      elim (fetch q) [
        | none ↦ some ([], end_query q)
        | some row ↦
            if (next_row q).0
            then elim rest [ none ↦ none | some r ↦ some (row ∷ r.0, r.1) ]
            else some (row ∷ [], end_query (next_row q).1)
      ]
