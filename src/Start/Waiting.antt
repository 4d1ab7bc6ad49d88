-- ===== src/Start/Waiting.antt =====
-- What main (IMServer/IMServer/IMServer.cpp) has made when it waits for messages, however it came
-- there.
use aim_server.Common.{
  ℕ, ◌<◌, ◌≡◌, ◌≢◌, ◌∙◌, sym, ap, subst, Bool, true, false, if◌then◌else◌, Option, some, List,
  Bytes, negsuc, Outcome, done, crashed,
}
use aim_server.Env.{Env, Row}
use aim_server.Query.{read_rows}
use aim_server.Users.Directory.{empty_manager}
use aim_server.Users.Directory.Invariant.{Inv}
use aim_server.Users.Manager.{Store}
use aim_server.Users.Statements
use aim_server.Users.Load
use aim_server.Users.Load.Invariant.{DistinctIds, init-Inv}
use aim_server.Database.Client.{MysqlClient}
use aim_server.Database.Schema.{TableInfo}
use aim_server.Database.Startup
use aim_server.Database.Startup.{MySqlManager, pool_size}
use aim_server.Database.Startup.Ready.{IsReady, init-IsReady}
use aim_server.Start.{
  known_options, credentials, requested_pool, ImSer, init_server, returns, serves, loaded, prepared,
  main,
}
use aim_server.Start.Serving.{io_threads_pos}

server_threads_pos : (getenv : Bytes → Option Bytes) → 0 < (init_server getenv).threads
unfolding init_server
server_threads_pos getenv = io_threads_pos getenv

if_taken : {A : Type 0} (b : Bool) (x y z : A) → (if b then x else y) ≡ z → y ≢ z → x ≡ z
if_taken true x y z h ne = h
if_taken false x y z h ne = absurd (ne h)

module _ (m : MysqlClient) (e : Env) (outside : MySqlManager m → e.State)
    (getenv : Bytes → Option Bytes) (st : Store e) (mgr : MySqlManager m) (ims : ImSer) where
  loaded_lem :
      (mgr' : MySqlManager m) (r : Bool × Store e)
      → loaded m e outside getenv mgr' r ≡ done (serves st mgr ims)
      → (r.1 ≡ st) × (mgr' ≡ mgr) × (init_server getenv ≡ ims)
  unfolding loaded
  loaded_lem mgr' (false, s) h = absurd (cc)
  loaded_lem mgr' (true, s) h = (cc, cc, cc)

  prepared_lem :
      (o : Outcome (Bool × MySqlManager m))
      → prepared m e outside getenv o ≡ done (serves st mgr ims)
      → (o ≡ done (true, mgr))
        × ((Load.init e (record { manager = empty_manager; ext = outside mgr })).1 ≡ st)
        × (init_server getenv ≡ ims)
  unfolding prepared
  prepared_lem crashed h = absurd (cc)
  prepared_lem (done (false, mgr')) h = absurd (cc)
  prepared_lem (done (true, mgr')) h =
      let (s, same, t) =
        loaded_lem mgr' (Load.init e (record { manager = empty_manager; ext = outside mgr' })) h in
      (
        ap (λ x. done (true, x)) same,
        ap (λ x. (Load.init e (record { manager = empty_manager; ext = outside x })).1) (sym same)
            ∙ s,
        t,
      )

  -- When main begins to wait for messages, the pool holds the connections that were asked for, all
  -- of them idle, there is an IO thread, and the cache has its invariant: if the rows of t_user that
  -- the server reads have distinct ids.
  pub main-serves :
      (tables : List (Bytes × TableInfo)) (options : List ℕ) (srv : m.Server) (ext : e.State)
      (rows : List Row)
      → main m e outside tables options getenv srv ≡ done (serves st mgr ims)
      → e.query Statements.Select.users (outside mgr) ≡ (some rows, ext)
      → DistinctIds (read_rows rows)
      → IsReady m (pool_size (requested_pool getenv)) mgr × Inv st.manager × (0 < ims.threads)
  unfolding main
  main-serves tables options srv ext rows h answer distinct =
      let init = Startup.init m tables (credentials getenv) (requested_pool getenv) srv in
      let running : prepared m e outside getenv init ≡ done (serves st mgr ims) =
        if_taken (known_options options) (prepared m e outside getenv init)
          (done (returns (negsuc 0))) (done (serves st mgr ims)) h (λ same. cc) in
      let (made, filled, counted) = prepared_lem init running in
      (
        init-IsReady m tables (credentials getenv) (requested_pool getenv) srv mgr made,
        subst (λ (s : Store e). Inv s.manager) filled
            (init-Inv e (outside mgr) ext rows answer distinct).1,
        subst (λ (s : ImSer). 0 < s.threads) counted (server_threads_pos getenv),
      )
