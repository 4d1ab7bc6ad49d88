-- ===== src/Database/Client.antt =====
-- What IMServer/IMServer/mysqltool.cpp calls of libmysqlclient, as one interface. `Server` is the
-- state of the database server and of the library behind the handles.
use aim_server.Common.{ℕ, Option, List, Bytes}
use aim_server.Env.{Row}

-- The arguments of mysql_real_connect.
pub record Credentials : Type 0 where
  pub host : Bytes
  pub user : Bytes
  pub password : Bytes
  pub dbname : Bytes
  pub port : ℕ

-- A MYSQL* is a number; NULL is `none`.
pub record MysqlClient : Type 1 where
  pub Server : Type 0
  -- mysql_init and mysql_real_connect.
  pub real_connect : Credentials → Server → Option ℕ × Server
  pub close : ℕ → Server → Server
  -- mysql_real_query of a text with its length: `none` is the result 0, and otherwise the number
  -- is what mysql_errno returns after it.
  pub real_query : ℕ → Bytes → Server → Option ℕ × Server
  -- mysql_store_result with the rows that mysql_fetch_row gives of it, or NULL.
  pub store_result : ℕ → Server → Option (List Row) × Server
  pub affected_rows : ℕ → Server → ℕ
