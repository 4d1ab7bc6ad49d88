-- ===== src/Database/Tool/Laws.antt =====
-- Statements of MySQLTool (IMServer/IMServer/mysqltool.cpp) on a connection in any state.
use aim_server.Common.{
  ℕ, ◌≡◌, refl, ap, ◌⊎◌, inl, inr, Bool, true, Option, none, some, List, arith, text, Bytes,
  c_string, done, crashed,
}
use aim_server.Env.{Row}
use aim_server.Database.Client.{Credentials, MysqlClient}
use aim_server.Database.Tool.{
  MySqlTool, Link, connected_tool, own_credentials, c_credentials, cr_server_gone_error,
  mysql_query, close_old, connected, connect, reconnect, send_on, send_with, ready, again, judged,
  first, attempt, stored, stored_with, result_of, execute, execute_counted, counted, succeeded,
}

module _ (m : MysqlClient) where
  -- A statement is sent by `c_str()`.
  pub execute-c_string :
      (s t : Bytes) (l : Link m) → c_string s ≡ c_string t → execute m s l ≡ execute m t l
  unfolding execute execute_counted mysql_query
  execute-c_string s t l e =
      ap (λ z. succeeded m (counted m (attempt m (λ h srv. m.real_query h z srv) l))) e

  -- A connection can be made.
  abbrev pub Reachable : Type 0
  Reachable = (c : Credentials) (srv : m.Server) → (h : ℕ) × ((m.real_connect c srv).0 ≡ some h)

  -- What is sent on a connection that has just been made succeeds.
  abbrev pub Serves : (ℕ → m.Server → Option ℕ × m.Server) → Type 0
  Serves send =
      (c : Credentials) (srv : m.Server) (h : ℕ)
      → (m.real_connect c srv).0 ≡ some h
      → (send h (mysql_query m h (text "set names utf8;") (m.real_connect c srv).1).1).0 ≡ none

  -- What is sent on any other succeeds too, or the server has gone away.
  abbrev pub MayBeGone : (ℕ → m.Server → Option ℕ × m.Server) → Type 0
  MayBeGone send =
      (h : ℕ) (srv : m.Server)
      → ((send h srv).0 ≡ none) ⊎ ((send h srv).0 ≡ some cr_server_gone_error)

  -- The statement was run and the tool holds a connection.
  abbrev Ran : Bool × Link m → Type 0
  Ran r = (r.0 ≡ true) × ((h : ℕ) × (r.1.0.mysql ≡ some h))

  -- `connect` with a server that can be reached.
  connected_lem :
      (c : Credentials) (t : MySqlTool) (r : Option ℕ × m.Server) (h : ℕ)
      → r.0 ≡ some h
      → connected m c t r
        ≡ (true, (connected_tool h c, (mysql_query m h (text "set names utf8;") r.1).1))
  unfolding connected
  connected_lem c t (none, srv) h e = cc
  connected_lem c t (some x, srv) h e = cc

  -- What a tool that has just reconnected sends is run.
  reconnect_lem :
      (send : ℕ → m.Server → Option ℕ × m.Server) (l : Link m)
      → Reachable
      → Serves send
      → (l' : Link m) × (reconnect m l ≡ (true, l'))
        × ((send_on m send l').0 ≡ none)
        × ((h : ℕ) × ((send_on m send l').1.0.mysql ≡ some h))
  unfolding reconnect connect send_on send_with
  reconnect_lem send (t, srv) reach serves =
      let c = own_credentials t in
      let old = close_old m t.mysql srv in
      let (h, e) = reach (c_credentials c) old in
      (
        (
          connected_tool h c,
          (mysql_query m h (text "set names utf8;") (m.real_connect (c_credentials c) old).1).1,
        ),
        connected_lem c t (m.real_connect (c_credentials c) old) h e,
        serves (c_credentials c) old h e,
        (h, refl),
      )

  again-Ran :
      (send : ℕ → m.Server → Option ℕ × m.Server) (l : Link m)
      → Reachable
      → Serves send
      → Ran (again m send (reconnect m l))
  unfolding again
  again-Ran send l reach serves =
      let (l', e, sent, held) = reconnect_lem send l reach serves in
      rw (e, again, sent) (refl, held)

  judged-Ran :
      (send : ℕ → m.Server → Option ℕ × m.Server) (r : Option ℕ × Link m) (h : ℕ)
      → Reachable
      → Serves send
      → r.1.0.mysql ≡ some h
      → (r.0 ≡ none) ⊎ (r.0 ≡ some cr_server_gone_error)
      → Ran (judged m send r)
  unfolding judged cr_server_gone_error
  judged-Ran send (none, l) h reach serves held (inl e) = (refl, (h, held))
  judged-Ran send (some x, l) h reach serves held (inl e) = cc
  judged-Ran send (none, l) h reach serves held (inr e) = (refl, (h, held))
  judged-Ran send (some x, l) h reach serves held (inr e) =
      ground (arith, again-Ran send l reach serves)

  first-Ran :
      (send : ℕ → m.Server → Option ℕ × m.Server) (l : Link m)
      → Reachable
      → Serves send
      → Ran (first m send (reconnect m l))
  unfolding first
  first-Ran send l reach serves =
      let (l', e, sent, h_held) = reconnect_lem send l reach serves in
      rw e (judged-Ran send (send_on m send l') h_held.0 reach serves h_held.1 (inl sent))

  send_on-held :
      (send : ℕ → m.Server → Option ℕ × m.Server) (t : MySqlTool) (srv : m.Server) (h : ℕ)
      → t.mysql ≡ some h
      → send_on m send (t, srv) ≡ ((send h srv).0, (t, (send h srv).1))
  unfolding send_on send_with
  send_on-held send t srv h held = ap (λ o. send_with m send o (t, srv)) held

  sent-Ran :
      (send : ℕ → m.Server → Option ℕ × m.Server) (o : Option ℕ) (t : MySqlTool) (srv : m.Server)
      → Reachable
      → Serves send
      → MayBeGone send
      → t.mysql ≡ o
      → Ran (first m send (ready m o (t, srv)))
  unfolding first ready
  sent-Ran send none t srv reach serves gone held = first-Ran send (t, srv) reach serves
  sent-Ran send (some h) t srv reach serves gone held =
      rw (send_on-held send t srv h held)
        (judged-Ran send ((send h srv).0, (t, (send h srv).1)) h reach serves held (gone h srv))

  attempt-Ran :
      (send : ℕ → m.Server → Option ℕ × m.Server) (l : Link m)
      → Reachable
      → Serves send
      → MayBeGone send
      → Ran (attempt m send l)
  unfolding attempt
  attempt-Ran send (t, srv) reach serves gone = sent-Ran send t.mysql t srv reach serves gone refl

  -- What Query makes of the result of a statement that was run.
  pub stored-held :
      (t : MySqlTool) (srv : m.Server) (h : ℕ)
      → t.mysql ≡ some h
      → stored m (t, srv) ≡ result_of m t (m.store_result h srv)
  unfolding stored stored_with
  stored-held t srv h held = ap (λ o. stored_with m o (t, srv)) held

  pub result_of_lem :
      (t : MySqlTool) (r : Option (List Row) × m.Server)
      → ((rows : List Row) × (result_of m t r ≡ done (some rows, (t, r.1))))
        ⊎ ((result_of m t r ≡ crashed) × (r.0 ≡ none))
  unfolding result_of
  result_of_lem t (none, srv) = inr (refl, refl)
  result_of_lem t (some rows, srv) = inl (rows, refl)

  -- However the connection was left, a statement of Execute is run: if the server can be reached and
  -- runs it on a new connection, and if the only failure on a connection from before is that the
  -- server has gone away.
  pub statement_runs :
      (sql : Bytes) (l : Link m)
      → Reachable
      → Serves (λ h srv. mysql_query m h sql srv)
      → MayBeGone (λ h srv. mysql_query m h sql srv)
      → (execute m sql l).0 ≡ true
  unfolding execute execute_counted
  statement_runs sql l reach serves gone =
      let (ran, _) = attempt-Ran (λ h srv. mysql_query m h sql srv) l reach serves gone in
      rw (execute, execute_counted, succeeded, counted, ran) refl
