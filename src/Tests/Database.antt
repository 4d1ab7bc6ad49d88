-- ===== src/Tests/Database.antt =====
-- The theorems on the database connections at a concrete server, which answers every statement on
-- its newest connection and has closed the older ones.
use aim_server.Common.{
  ℕ, suc, ◌≤◌, ◌<◌, ◌≡◌, refl, none, [], ◌∷◌, arith, get_elem?, if◌then◌else◌, ◌==◌, text, Bool,
  Option, some, List, get_or, done, crashed, ◌⊎◌,
}
use aim_server.Env.{Row}
use aim_server.Database.Client.{Credentials, MysqlClient}
use aim_server.Database.Tool.{connected_tool, new_tool}
use aim_server.Database.Tool.Handles.{Resultless}
use aim_server.Database.Pool.{
  Pool, fresh_pool, calls, acquires, Run, here, more, waiting, holding, acquire, connections,
}
use aim_server.Database.Pool.Count.{count}
use aim_server.Database.Pool.Safety.{connection_exclusive}
use aim_server.Database.Pool.Progress.{wait_ends}
use aim_server.Database.Startup.{MySqlManager, manager_query, manager_execute}
use aim_server.Database.Startup.Lasting.{statements_end}
use aim_server.Database.Startup.Ready.{IsReady}

-- The state is the number of the newest connection.
abbrev pub busy_server : MysqlClient
busy_server = record {
  Server = ℕ;
  real_connect = λ _ n. (some (suc n), suc n);
  close = λ _ n. n;
  real_query = λ h _ n. (if h == n then none else some 2006, n);
  store_result = λ _ n. (some [], n);
  affected_rows = λ _ _. 1;
}

abbrev myim_user : Credentials
myim_user = record {
  host = text "127.0.0.1";
  user = text "root";
  password = [];
  dbname = text "myim";
  port = 3306;
}

-- Its connection is not the newest any more.
abbrev pub old_manager : MySqlManager busy_server
old_manager = record { pool = connected_tool 1 myim_user ∷ []; idle = 0 ∷ []; server = 5 }

pub old_manager-IsReady : IsReady busy_server 1 old_manager
unfolding connections
old_manager-IsReady = record { some_made = omega arith; made = refl; all_idle = refl }

-- Two threads and one connection: the first has it, the second waits for it.
abbrev crowded : Pool
crowded = record { idle = []; callers = holding 0 ∷ waiting ∷ [] }

crowded-Run : Run (fresh_pool 1 2) 3 crowded
unfolding connections acquire
crowded-Run = more (more (more here (calls 0 refl)) (acquires 0 0 [] refl refl)) (calls 1 refl)

connection_exclusive_example : ◌≡◌ {A = ℕ} 0 0 × (count 0 [] ≡ 0) × (0 < 1)
connection_exclusive_example = connection_exclusive 1 2 crowded-Run 0 0 0 refl refl

wait_ends_example :
    (c m : ℕ) × (q : Pool) × Run crowded m q × (m ≤ 2) × (get_elem? q.callers 1 ≡ some (holding c))
wait_ends_example = wait_ends 1 2 crowded-Run (omega arith) 1 refl

statements_end_example :
    ((b : Bool) × ((mgr' : MySqlManager busy_server) × (manager_execute busy_server
            (text "show tables;")
            old_manager
          ≡ some (done (b, mgr')))
        × IsReady busy_server 1 mgr'))
    × (((o : Option (List Row)) × (mgr' : MySqlManager busy_server) × (manager_query busy_server
              (text "show tables;")
              old_manager
            ≡ some (done (o, mgr')))
          × IsReady busy_server 1 mgr')
        ⊎ ((manager_query busy_server (text "show tables;") old_manager ≡ some crashed)
            × ((c : ℕ) × (c < 1)
                × Resultless busy_server
                    (text "show tables;")
                    (get_or old_manager.pool c new_tool, old_manager.server))))
statements_end_example =
    statements_end busy_server 1 old_manager (text "show tables;") old_manager-IsReady
