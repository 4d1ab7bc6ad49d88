-- ===== src/Database/Startup/Lasting.antt =====
-- Query and Execute of IMServer/IMServer/MySqlManager.cpp on a ready pool.
use aim_server.Common.{
  ℕ, ◌<◌, ◌≡◌, refl, ◌∙◌, Bool, false, Option, none, some, List, arith, Bytes, done, crashed,
  length, get_or, ◌⊎◌, inl, inr,
}
use aim_server.Env.{Row}
use aim_server.Database.Client.{MysqlClient}
use aim_server.Database.Tool.{new_tool, query, execute}
use aim_server.Database.Tool.Handles.{Resultless, query_ends}
use aim_server.Database.Startup.{MySqlManager, lend, manager_query, manager_execute}
use aim_server.Database.Startup.Ready.{IsReady, lend-IsReady, lend_ends, unless_empty_lem}

module _ (m : MysqlClient) (size : ℕ) (mgr : MySqlManager m) (sql : Bytes)
    (ready : IsReady m size mgr) where
  some_made : 0 < length mgr.pool
  some_made = omega (arith, ready.some_made, ready.made)

  query_lasts :
      ((o : Option (List Row)) × (mgr' : MySqlManager m) × (manager_query m sql mgr
          ≡ some (done (o, mgr')))
        × IsReady m size mgr')
      ⊎ ((manager_query m sql mgr ≡ some crashed)
          × ((c : ℕ) × (c < size) × Resultless m sql (get_or mgr.pool c new_tool, mgr.server)))
  unfolding manager_query
  query_lasts =
      let lent =
        unless_empty_lem m mgr.pool (some (done (none, mgr))) (lend m (λ l. query m sql l) mgr)
          some_made in
      elim (lend_ends m (Resultless m sql) size mgr (λ l. query m sql l) ready (query_ends m sql)) [
        | inl (o, mgr', e, ready') ↦ inl (o, mgr', lent ∙ e, ready')
        | inr (died, why) ↦ inr (lent ∙ died, why)
      ]

  execute_lasts :
      (b : Bool) × ((mgr' : MySqlManager m) × (manager_execute m sql mgr ≡ some (done (b, mgr')))
        × IsReady m size mgr')
  unfolding manager_execute
  execute_lasts =
      let (b, rest) =
        lend-IsReady m (λ (_ : Bool). Unit {0}) size mgr (λ l. done (execute m sql l)) ready
          (λ l. ((execute m sql l).0, ((execute m sql l).1, refl, tt))) in
      let (mgr', lent, ready', _) = rest in
      (
        b,
        (
          mgr',
          unless_empty_lem m mgr.pool (some (done (false, mgr)))
                (lend m (λ l. done (execute m sql l)) mgr) some_made
              ∙ lent,
          ready',
        ),
      )

  -- Whatever the server answers, on a ready pool neither Query nor Execute waits for a connection.
  -- Execute comes to an end and leaves the pool ready; so does Query, unless the statement was run
  -- on one of the connections of the pool and its result is NULL, of which Query dies.
  pub statements_end :
      ((b : Bool) × ((mgr' : MySqlManager m) × (manager_execute m sql mgr ≡ some (done (b, mgr')))
          × IsReady m size mgr'))
      × (((o : Option (List Row)) × (mgr' : MySqlManager m) × (manager_query m sql mgr
              ≡ some (done (o, mgr')))
            × IsReady m size mgr')
          ⊎ ((manager_query m sql mgr ≡ some crashed)
              × ((c : ℕ) × (c < size) × Resultless m sql (get_or mgr.pool c new_tool, mgr.server))))
  statements_end = (execute_lasts, query_lasts)
