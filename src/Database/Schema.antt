-- ===== src/Database/Schema.antt =====
-- The tables that the server needs and how it checks them at its start: CheckTable, CreateTable
-- and UpdateTable of IMServer/IMServer/MySqlManager.cpp. They use the first connection of the
-- pool, which is not NULL then.
pub mod Tables
pub mod Columns
pub mod Repair
use mathlib.Core.List.{flatten}
use aim_server.Common.{
  Bool, true, false, Option, none, some, List, [], ◌∷◌, ◌++◌, if◌then◌else◌, Bytes, bytes_eq,
  is_empty, text, Outcome, done, crashed,
}
use aim_server.Env.{Row}
use aim_server.Query.{read_rows, field}
use aim_server.Database.Client.{MysqlClient}
use aim_server.Database.Tool.{Link, query, execute}
use aim_server.Database.Fields.{find, insert, erase}

-- sFieldInfo and sTableInfo.
pub record FieldInfo : Type 0 where
  pub name : Bytes
  pub type : Bytes
  pub desc : Bytes

pub record TableInfo : Type 0 where
  pub name : Bytes
  pub fields : List (Bytes × FieldInfo)
  pub key : Bytes

-- The columns that the table still lacks, and those that are to be changed.
pub record Survey : Type 0 where
  pub rest : List (Bytes × FieldInfo)
  pub map_change : List (Bytes × FieldInfo)

-- One row of the answer to "desc": the name and the type of a column.
survey_row : TableInfo → Row → Survey → Survey
survey_row info row s = elim (find (field row 0) info.fields) [
  | none ↦ s
  | some f ↦ (record {
    rest = erase (field row 0) s.rest;
    map_change =
        if bytes_eq f.type (field row 1) then s.map_change else insert (field row 0) f s.map_change;
  })
]

survey_rows : TableInfo → List Row → Survey → Survey
unfolding survey_row
survey_rows info [] s = s
survey_rows info (row ∷ rows) s = survey_rows info rows (survey_row info row s)

-- The loop of CheckTable.
unfoldable pub survey : TableInfo → List Row → Survey
unfolding survey_rows
survey info rows =
    survey_rows info (read_rows rows) (record { rest = info.fields; map_change = [] })

pub add_column_sql : Bytes → FieldInfo → Bytes
add_column_sql table f =
    flatten (
      text "alter table "
      ∷ table
      ∷ text " add column "
      ∷ f.name
      ∷ text " "
      ∷ f.type
      ∷ text ";"
      ∷ [])

pub modify_column_sql : Bytes → FieldInfo → Bytes
modify_column_sql table f = flatten (
    text "alter table "
    ∷ table
    ∷ text " modify column "
    ∷ f.name
    ∷ text " "
    ∷ f.type
    ∷ text ";"
    ∷ [])

-- The columns of CreateTable; a comma stands before each but the first.
columns_sql : Bytes → List (Bytes × FieldInfo) → Bytes
columns_sql comma [] = []
columns_sql comma ((_, f) ∷ fields) =
    comma ++ (f.name ++ (text " " ++ (f.type ++ columns_sql (text ",") fields)))

pub create_table_sql : TableInfo → Bytes
unfolding columns_sql
create_table_sql info = flatten (
    text "create table if not exists "
    ∷ info.name
    ∷ text "("
    ∷ columns_sql [] info.fields
    ∷ (if is_empty info.key then [] else text "," ++ info.key)
    ∷ text ") default charset=utf8mb4,ENGINE=InnoDB;"
    ∷ [])

has_fields : TableInfo → Bool
has_fields info = elim info.fields [ [] ↦ false | _ ∷ _ ↦ true ]

module _ (m : MysqlClient) where
  pub create_table : TableInfo → Link m → Bool × Link m
  unfolding has_fields
  create_table info l =
      let created = execute m (create_table_sql info) l in
      if has_fields info then created else (false, l)

  -- A loop of CheckTable over columns: it ends at the first statement that fails.
  alter_all : (FieldInfo → Bytes) → List (Bytes × FieldInfo) → Link m → Bool × Link m
  alter_all sql [] l = (true, l)
  alter_all sql ((_, f) ∷ fields) l =
      let (ok, l') = execute m (sql f) l in
      let rest = alter_all sql fields l' in if ok then rest else (false, l')

  -- CheckTable behind the survey: first the columns that are missing, then those that differ.
  alter_table : TableInfo → Survey → Link m → Bool × Link m
  unfolding alter_all
  alter_table info s l =
      let (ok, l') = alter_all (add_column_sql info.name) s.rest l in
      if ok then alter_all (modify_column_sql info.name) s.map_change l' else (false, l')

  described : TableInfo → Outcome (Option (List Row) × Link m) → Outcome (Bool × Link m)
  unfolding create_table alter_table
  described info crashed = crashed
  described info (done (none, l)) = done (create_table info l)
  described info (done (some rows, l)) = done (alter_table info (survey info rows) l)

  pub check_table : TableInfo → Link m → Outcome (Bool × Link m)
  unfolding described
  check_table info l =
      described info (query m (flatten (text "desc " ∷ info.name ∷ text ";" ∷ [])) l)

  or_create : TableInfo → Outcome (Bool × Link m) → Outcome (Bool × Link m)
  unfolding create_table
  or_create info crashed = crashed
  or_create info (done (true, l)) = done (true, l)
  or_create info (done (false, l)) = done (create_table info l)

  -- UpdateTable, which is also what Init does with each table.
  unfoldable pub update_table : TableInfo → Link m → Outcome (Bool × Link m)
  unfolding check_table or_create
  update_table info l = or_create info (check_table info l)
