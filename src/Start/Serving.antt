-- ===== src/Start/Serving.antt =====
-- What holds when main (IMServer/IMServer/IMServer.cpp) begins to wait for messages.
use aim_server.Common.{
  zero, suc, ◌<◌, Bool, Option-elim, Option, arith, Bytes, ℤ, pos, negsuc, text,
}
use aim_server.Env.{Env}
use aim_server.Text.Decimal.{atoi}
use aim_server.Users.Directory.{empty_manager}
use aim_server.Users.Manager.{Store}
use aim_server.Users.Statements
use aim_server.Users.Load
use aim_server.Database.Client.{MysqlClient}
use aim_server.Database.Startup
use aim_server.Database.Startup.{MySqlManager}
use aim_server.Start.{threads_of, io_threads}

threads_of_pos : (n : ℤ) → 0 < threads_of n
unfolding threads_of
threads_of_pos (pos zero) = omega arith
threads_of_pos (pos (suc k)) = omega arith
threads_of_pos (negsuc k) = omega arith

pub io_threads_pos : (getenv : Bytes → Option Bytes) → 0 < io_threads getenv
unfolding io_threads
io_threads_pos getenv =
    Option-elim (λ n. 0 < n) (getenv (text "IMSERVER_THREADS")) (omega arith)
      (λ v. threads_of_pos (atoi v))

-- The way of main through a start on which nothing fails.
module _ (m : MysqlClient) (e : Env) (outside : MySqlManager m → e.State)
    (getenv : Bytes → Option Bytes) where
  -- The store that UserManager::init leaves.
  abbrev pub filled : MySqlManager m → Bool × Store e
  filled mgr = Load.init e (record { manager = empty_manager; ext = outside mgr })
