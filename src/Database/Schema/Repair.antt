-- ===== src/Database/Schema/Repair.antt =====
-- The statements that CheckTable and UpdateTable (IMServer/IMServer/MySqlManager.cpp) send for a
-- table that is there.
use mathlib.Core.List.{flatten}
use aim_server.Common.{
  ◌≡◌, refl, ap, Bool, true, false, some, List, [], ◌∷◌, ◌++◌, if◌then◌else◌, Bytes, text, map,
  done, Bool-cases, inl, inr,
}
use aim_server.Env.{Row}
use aim_server.Database.Client.{MysqlClient}
use aim_server.Database.Tool.{Link, query, execute}
use aim_server.Database.Schema.{
  FieldInfo, TableInfo, Survey, survey, add_column_sql, modify_column_sql, create_table, alter_all,
  alter_table, described, or_create, check_table, update_table,
}

-- One statement for each missing column, then one for each that differs.
pub repairs : TableInfo → Survey → List Bytes
repairs info s =
    map (λ e. add_column_sql info.name e.1) s.rest
    ++ map (λ e. modify_column_sql info.name e.1) s.map_change

-- The statement by which CheckTable asks for the columns.
abbrev pub desc_sql : TableInfo → Bytes
desc_sql info = flatten (text "desc " ∷ info.name ∷ text ";" ∷ [])

module _ (m : MysqlClient) where
  -- The statements in order, up to the first that fails.
  pub run_all : List Bytes → Link m → Bool × Link m
  run_all [] l = (true, l)
  run_all (sql ∷ rest) l =
      let (ok, l') = execute m sql l in
      let others = run_all rest l' in if ok then others else (false, l')

  -- A list of statements behind another.
  abbrev and_then : Bool × Link m → List Bytes → Bool × Link m
  and_then (true, l) sqls = run_all sqls l
  and_then (false, l) sqls = (false, l)

  run_all-append :
      (xs ys : List Bytes) (l : Link m) → run_all (xs ++ ys) l ≡ and_then (run_all xs l) ys
  unfolding run_all
  run_all-append [] ys l = refl
  run_all-append (x ∷ xs) ys l = elim (Bool-cases (execute m x l).0) [
    | inl e ↦ rw e (run_all-append xs ys (execute m x l).1)
    | inr e ↦ rw e refl
  ]

  alter_all-run_all :
      (sql : FieldInfo → Bytes) (fields : List (Bytes × FieldInfo)) (l : Link m)
      → alter_all m sql fields l ≡ run_all (map (λ e. sql e.1) fields) l
  unfolding alter_all run_all
  alter_all-run_all sql [] l = refl
  alter_all-run_all sql ((k, f) ∷ fields) l =
      rw (alter_all-run_all sql fields (execute m (sql f) l).1) refl

  if-and_then :
      (r : Bool × Link m) (sqls : List Bytes)
      → (if r.0 then run_all sqls r.1 else (false, r.1)) ≡ and_then r sqls
  if-and_then (true, l) sqls = refl
  if-and_then (false, l) sqls = refl

  -- Both loops of CheckTable are one run of the repairs.
  alter_table-run_all :
      (info : TableInfo) (s : Survey) (l : Link m)
      → alter_table m info s l ≡ run_all (repairs info s) l
  unfolding alter_table repairs
  alter_table-run_all info s l =
      let adds = map (λ (e : Bytes × FieldInfo). add_column_sql info.name e.1) s.rest in
      let mods = map (λ (e : Bytes × FieldInfo). modify_column_sql info.name e.1) s.map_change in
      rw
        (
          alter_all-run_all (add_column_sql info.name) s.rest l,
          alter_all-run_all (modify_column_sql info.name) s.map_change (run_all adds l).1,
          run_all-append adds mods l,
        )
        (if-and_then (run_all adds l) mods)

  -- For a table that is there, CheckTable sends the repairs that the survey asks for, in order, up
  -- to the first that fails, and returns whether all were run. When one fails, what Init does with
  -- the table returns true all the same, whenever "create table if not exists" succeeds.
  pub update_table_lem :
      (info : TableInfo) (l l1 : Link m) (rows : List Row)
      → query m (desc_sql info) l ≡ done (some rows, l1)
      → (check_table m info l ≡ done (run_all (repairs info (survey info rows)) l1))
        × ((l2 : Link m)
            → run_all (repairs info (survey info rows)) l1 ≡ (false, l2)
            → (create_table m info l2).0 ≡ true
            → update_table m info l ≡ done (true, (create_table m info l2).1))
  unfolding check_table described update_table or_create
  update_table_lem info l l1 rows e =
      let checked = alter_table-run_all info (survey info rows) l1 in
      (
        rw (e, described, checked) refl,
        λ l2 failed created.
            rw (e, described, checked, failed, or_create)
              (ap (λ b. done (b, (create_table m info l2).1)) created),
      )
