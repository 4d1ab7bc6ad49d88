-- ===== src/Database/Startup.antt =====
-- The start of MySqlManager and the statements of the running server: Init, CheckDatabase,
-- CreateDatabase, Query and Execute of IMServer/IMServer/MySqlManager.cpp. Here one thread runs;
-- Pool has the threads that wait for one another.
pub mod Ready
pub mod Lasting
use mathlib.Core.List.{flatten}
use aim_server.Common.{
  ℕ, zero, suc, Bool, true, false, Option, none, some, List, [], ◌∷◌, ◌++◌, length, get_or, modify,
  if◌then◌else◌, ◌==◌, ℤ, pos, Bytes, bytes_eq, text, Outcome, done, crashed,
}
use aim_server.Env.{Row}
use aim_server.Query.{read_rows, field}
use aim_server.Database.Client.{Credentials, MysqlClient}
use aim_server.Database.Tool.{MySqlTool, new_tool, Link, connect, query, execute, execute_counted}
use aim_server.Database.Pool.{acquire, release, connections}
use aim_server.Database.Schema.{TableInfo, update_table}

-- The loop of CheckDatabase: some row names the database.
names_database : Bytes → List Row → Bool
names_database dbname [] = false
names_database dbname (row ∷ rows) =
    let rest = names_database dbname rows in if bytes_eq (field row 0) dbname then true else rest

-- `if (poolSize < 1) poolSize = 1`.
pub pool_size : ℤ → ℕ
pool_size n = elim n [ pos zero ↦ 1 | pos (suc k) ↦ suc k | _ ↦ 1 ]

module _ (m : MysqlClient) where
  -- m_pool, m_idle from its back on, and the server.
  pub record MySqlManager : Type 0 where
    pub pool : List MySqlTool
    pub idle : List ℕ
    pub server : m.Server

module _ (m : MysqlClient) where
  -- The loop of Init over the connections: the pool grows by each that can be made.
  connect_all : Credentials → ℕ → List MySqlTool → m.Server → Bool × (List MySqlTool × m.Server)
  connect_all c zero pool srv = (true, (pool, srv))
  connect_all c (suc n) pool srv =
      let (ok, l) = connect m c (new_tool, srv) in
      let rest = connect_all c n (pool ++ l.0 ∷ []) l.1 in if ok then rest else (false, (pool, l.1))

  database_found : Option (List Row) × Link m → Bool × Link m
  unfolding names_database
  database_found (none, l) = (false, l)
  database_found (some rows, l) = (names_database l.0.dbname (read_rows rows), l)

  -- CheckDatabase.
  unfoldable pub check_database : Link m → Outcome (Bool × Link m)
  unfolding database_found
  check_database l = elim (query m (text "show databases;") l) [
    | crashed ↦ crashed
    | done r ↦ done (database_found r)
  ]

  one_row : Option ℕ × Link m → Bool × Link m
  one_row (none, l) = (false, l)
  one_row (some n, l) = (n == 1, l)

  -- CreateDatabase.
  create_database : Link m → Bool × Link m
  unfolding one_row
  create_database l =
      one_row (execute_counted m (flatten (text "create database " ∷ l.0.dbname ∷ text ";" ∷ [])) l)

  -- The loop of Init over m_mapTable.
  update_tables : List (Bytes × TableInfo) → Link m → Outcome (Bool × Link m)
  update_tables [] l = done (true, l)
  update_tables ((_, info) ∷ tables) l = elim (update_table m info l) [
    | crashed ↦ crashed
    | done r ↦ elim r.0 [ true ↦ update_tables tables r.1 | false ↦ done r ]
  ]

  database_made : Bool × Link m → Bool × Link m
  unfolding create_database
  database_made (true, l) = (true, l)
  database_made (false, l) = create_database l

  -- Init behind the connections, on the first of them.
  prepare : List (Bytes × TableInfo) → Link m → Outcome (Bool × Link m)
  unfolding check_database database_made update_tables
  prepare tables l = elim (check_database l) [
    | crashed ↦ crashed
    | done r ↦
        let (ok, l') = database_made r in
        elim ok [ true ↦ update_tables tables l' | false ↦ done (false, l') ]
  ]

  -- The pool when Init returns: its first connection is the one that was used.
  with_first : List MySqlTool → Bool × Link m → Bool × MySqlManager m
  with_first pool (ok, l) = (
    ok,
    record { pool = modify (λ _. l.0) pool 0; idle = connections (length pool); server = l.1 },
  )

  prepared : List MySqlTool → Outcome (Bool × Link m) → Outcome (Bool × MySqlManager m)
  unfolding with_first
  prepared pool crashed = crashed
  prepared pool (done r) = done (with_first pool r)

  opened :
      List (Bytes × TableInfo)
      → Bool × (List MySqlTool × m.Server)
      → Outcome (Bool × MySqlManager m)
  unfolding prepare prepared
  opened tables (false, (pool, srv)) =
      done (false, record { pool = pool; idle = connections (length pool); server = srv })
  opened tables (true, (pool, srv)) = prepared pool (prepare tables (get_or pool 0 new_tool, srv))

  -- MySqlManager::Init with m_mapTable, which the constructor has filled.
  unfoldable pub init :
      List (Bytes × TableInfo) → Credentials → ℤ → m.Server → Outcome (Bool × MySqlManager m)
  unfolding connect_all opened pool_size
  init tables c size srv = opened tables (connect_all c (pool_size size) [] srv)

  returned :
      {A : Type 0}
      → MySqlManager m
      → ℕ
      → List ℕ
      → Outcome (A × Link m)
      → Outcome (A × MySqlManager m)
  returned mgr c rest crashed = crashed
  returned mgr c rest (done (a, l)) =
      done (a, record { pool = modify (λ _. l.0) mgr.pool c; idle = release c rest; server = l.1 })

  -- A connection is taken, used and given back. `none` is a caller that waits in `acquire`.
  lend_from :
      {A : Type 0}
      → Option (ℕ × List ℕ)
      → (Link m → Outcome (A × Link m))
      → MySqlManager m
      → Option (Outcome (A × MySqlManager m))
  unfolding returned
  lend_from none use_link mgr = none
  lend_from (some (c, rest)) use_link mgr =
      some (returned mgr c rest (use_link (get_or mgr.pool c new_tool, mgr.server)))

  pub lend :
      {A : Type 0}
      → (Link m → Outcome (A × Link m))
      → MySqlManager m
      → Option (Outcome (A × MySqlManager m))
  unfolding acquire lend_from
  lend use_link mgr = lend_from (acquire mgr.idle) use_link mgr

  -- `if (m_pool.empty()) return ...`
  pub unless_empty : {A : Type 0} → List MySqlTool → A → A → A
  unless_empty [] early go = early
  unless_empty (_ ∷ _) early go = go

  -- MySqlManager::Query.
  pub manager_query : Bytes → MySqlManager m → Option (Outcome (Option (List Row) × MySqlManager m))
  unfolding lend unless_empty
  manager_query sql mgr =
      unless_empty mgr.pool (some (done (none, mgr))) (lend (λ l. query m sql l) mgr)

  -- MySqlManager::Execute.
  pub manager_execute : Bytes → MySqlManager m → Option (Outcome (Bool × MySqlManager m))
  unfolding lend unless_empty
  manager_execute sql mgr =
      unless_empty mgr.pool (some (done (false, mgr))) (lend (λ l. done (execute m sql l)) mgr)
