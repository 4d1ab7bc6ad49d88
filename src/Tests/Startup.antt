-- ===== src/Tests/Startup.antt =====
-- The theorems on the start of the process, at a server that runs everything and answers every
-- query with "1".
use aim_server.Common.{
  ℕ, ◌≡◌, refl, true, Option, none, some, List, [], ◌∷◌, Bytes, bytes_eq, text, done,
}
use aim_server.Query.{read_rows}
use aim_server.Database.Client.{MysqlClient}
use aim_server.Database.Tool.{connect, query, execute}
use aim_server.Database.Schema.{TableInfo}
use aim_server.Database.Startup
use aim_server.Database.Startup.{MySqlManager, check_database}
use aim_server.Text.Decimal.{atoi}
use aim_server.Database.Fields.{find}
use aim_server.Database.Schema.{update_table, survey}
use aim_server.Start.{credentials, requested_pool}
use aim_server.Tests.Schema.{notes}

-- Every variable is set to 1.
ones : Bytes → Option Bytes
ones key = some (text "1")

abbrev up_server : MysqlClient
up_server = record {
  Server = ℕ;
  real_connect = λ _ n. (some 0, n);
  close = λ _ n. n;
  real_query = λ _ _ n. (none, n);
  store_result = λ _ n. (some ((text "1" ∷ []) ∷ []), n);
  affected_rows = λ _ _. 1;
}

abbrev tables : List (Bytes × TableInfo)
tables = (text "t_notes", notes) ∷ []

started :
    (mgr : MySqlManager up_server) × (Startup.init up_server tables
        (credentials ones)
        (requested_pool ones)
        0
      ≡ done (true, mgr))
unfolding Startup.init check_database query connect credentials requested_pool ones read_rows text
    atoi update_table survey execute find bytes_eq
started = (_, refl)
