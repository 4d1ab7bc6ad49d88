-- ===== src/Database/Schema/Columns.antt =====
-- What the loop of CheckTable (IMServer/IMServer/MySqlManager.cpp) finds out about the columns.
use aim_server.Common.{
  ◌≡◌, refl, ◌∙◌, ◌⊎◌, ◌≢◌, Bool, true, false, not, ◌&&◌, Option, none, some, Option-cases, inl,
  inr, List, [], ◌∷◌, arith, All, if◌then◌else◌, Bytes, bytes_eq, bytes_eq_iff,
}
use aim_server.Env.{Row}
use aim_server.Query.{field, read_rows-All}
use aim_server.Database.Fields.{find, find-insert, find-erase}
use aim_server.Database.Schema.{FieldInfo, TableInfo, Survey, survey, survey_rows, survey_row}

-- A row of the answer names this column.
pub listed : Bytes → List Row → Bool
listed k [] = false
listed k (row ∷ rows) = if bytes_eq (field row 0) k then true else listed k rows

-- A row of the answer gives this column another type.
pub mistyped : Bytes → Bytes → List Row → Bool
mistyped k type [] = false
mistyped k type (row ∷ rows) =
    if bytes_eq (field row 0) k && not (bytes_eq type (field row 1))
    then true
    else mistyped k type rows

-- The field that is to be changed for a column.
pub changed : Bytes → Option FieldInfo → List Row → Option FieldInfo
unfolding mistyped
changed k none rows = none
changed k (some f) rows = if mistyped k f.type rows then some f else none

survey_rows-rest :
    (k : Bytes) (info : TableInfo) (rows : List Row) (s : Survey)
    → find k (survey_rows info rows s).rest ≡ (
        if listed k rows
        then (elim (find k info.fields) [ none ↦ find k s.rest | some _ ↦ none ])
        else find k s.rest)
unfolding survey_rows survey_row listed
survey_rows-rest k info [] s = refl
survey_rows-rest k info (row ∷ rows) s = ground (
  arith,
  bytes_eq_iff (field row 0) k,
  survey_rows-rest k info rows (survey_row info row s),
  find-erase k (field row 0) s.rest,
)

-- What is to be changed for a column already, or what the rows tell.
abbrev kept : Option FieldInfo → Option FieldInfo → Option FieldInfo
kept (some f) g = some f
kept none g = g

survey_row-change :
    (k : Bytes) (info : TableInfo) (row : Row) (s : Survey)
    → find k (survey_row info row s).map_change
      ≡ kept (find k s.map_change) (changed k (find k info.fields) (row ∷ []))
unfolding survey_row changed mistyped
survey_row-change k info row s = elim (Option-cases (find (field row 0) info.fields)) [
  | inl e ↦ ground (arith, bytes_eq_iff (field row 0) k)
  | inr (f, e) ↦
      ground (arith, bytes_eq_iff (field row 0) k, find-insert k (field row 0) f s.map_change)
]

survey_rows-change :
    (k : Bytes) (info : TableInfo) (rows : List Row) (s : Survey)
    → find k (survey_rows info rows s).map_change
      ≡ kept (find k s.map_change) (changed k (find k info.fields) rows)
unfolding survey_rows changed mistyped
survey_rows-change k info [] s = ground arith
survey_rows-change k info (row ∷ rows) s =
    ground (
      arith,
      survey_rows-change k info rows (survey_row info row s),
      survey_row-change k info row s,
    )

-- After a look at the columns of a table, a field of the table is missing exactly if no column has
-- its name, and is to be changed exactly if a column with its name has another type than the field.
pub survey_lem :
    (k : Bytes) (info : TableInfo) (rows : List Row)
    → All (λ x. x ≢ []) rows
    → (find k (survey info rows).rest ≡ (if listed k rows then none else find k info.fields))
      × (find k (survey info rows).map_change ≡ changed k (find k info.fields) rows)
unfolding survey changed find
survey_lem k info rows full =
    let start : Survey = record { rest = info.fields; map_change = [] } in
    rw (read_rows-All rows full)
      (ground (arith, survey_rows-rest k info rows start), survey_rows-change k info rows start)

-- A row of the answer gives this column that type.
abbrev pub HasRow : Bytes → Bytes → List Row → Type 0
HasRow k type [] = ⊥
HasRow k type (row ∷ rows) = ((field row 0 ≡ k) × (field row 1 ≡ type)) ⊎ HasRow k type rows

mistyped-HasRow :
    (k type desc : Bytes) (rows : List Row)
    → type ≢ desc
    → HasRow k desc rows
    → mistyped k type rows ≡ true
unfolding mistyped
mistyped-HasRow k type desc [] ne h = elim h [ ]
mistyped-HasRow k type desc (row ∷ rows) ne (inl here) =
    ground (arith, bytes_eq_iff (field row 0) k, bytes_eq_iff type (field row 1))
mistyped-HasRow k type desc (row ∷ rows) ne (inr there) =
    ground (arith, mistyped-HasRow k type desc rows ne there)

-- The columns of the table are as the server itself has made them: each field has one, with the
-- type that `desc` gives for it.
abbrev pub AsDeclared : TableInfo → List Row → Type 0
AsDeclared info rows =
    (k : Bytes) (f : FieldInfo) → find k info.fields ≡ some f → HasRow k f.desc rows

-- A table that is as the server has made it is altered all the same: where the text that declares
-- a field is more than its type, each of its fields is to be changed, at every start.
pub survey-AsDeclared :
    (info : TableInfo) (rows : List Row)
    → All (λ x. x ≢ []) rows
    → AsDeclared info rows
    → ((k : Bytes) (f : FieldInfo) → find k info.fields ≡ some f → f.type ≢ f.desc)
    → (k : Bytes) → find k (survey info rows).map_change ≡ find k info.fields
unfolding changed
survey-AsDeclared info rows full same ne k = elim (Option-cases (find k info.fields)) [
  | inl e ↦ (survey_lem k info rows full).1 ∙ rw e refl
  | inr (f, e) ↦
      (survey_lem k info rows full).1
      ∙ ground (arith, mistyped-HasRow k f.type f.desc rows (ne k f e) (same k f e))
]
