-- ===== src/Database/Tool.antt =====
-- One connection to the database: class MySQLTool (IMServer/IMServer/mysqltool.h and .cpp).
pub mod Laws
pub mod Handles
use aim_server.Common.{
  ℕ, ◌%◌, ◌^◌, Bool, true, false, Option, none, some, List, [], ◌==◌, if◌then◌else◌, Bytes, text,
  c_string, Outcome, done, crashed,
}
use aim_server.Env.{Row}
use aim_server.Database.Client.{Credentials, MysqlClient}

-- m_mysql and the credentials of the last connection. No method reads or writes m_port behind the
-- constructor.
pub record MySqlTool : Type 0 where
  pub mysql : Option ℕ
  pub host : Bytes
  pub user : Bytes
  pub password : Bytes
  pub dbname : Bytes

-- The constructor.
abbrev pub new_tool : MySqlTool
new_tool = record { mysql = none; host = []; user = []; password = []; dbname = [] }

-- CR_SERVER_GONE_ERROR of mysql/errmsg.h.
unfoldable pub cr_server_gone_error : ℕ
cr_server_gone_error = 2006

-- The default of the last parameter of `connect`.
pub default_port : ℕ
default_port = 3306

-- What `c_str()` leaves of the texts for mysql_real_connect.
pub c_credentials : Credentials → Credentials
c_credentials c = record {
  host = c_string c.host;
  user = c_string c.user;
  password = c_string c.password;
  dbname = c_string c.dbname;
  port = c.port;
}

-- The members that `connect` sets once it has a handle.
abbrev pub connected_tool : ℕ → Credentials → MySqlTool
connected_tool h c = record {
  mysql = some h;
  host = c.host;
  user = c.user;
  password = c.password;
  dbname = c.dbname;
}

-- `connect(m_host, m_user, m_password, m_dbname)` leaves the port to its default.
pub own_credentials : MySqlTool → Credentials
unfolding default_port
own_credentials t = record {
  host = t.host;
  user = t.user;
  password = t.password;
  dbname = t.dbname;
  port = default_port;
}

module _ (m : MysqlClient) where
  -- A tool, and the server that it talks to.
  abbrev pub Link : Type 0
  Link = MySqlTool × m.Server

  -- mysql_query: the text ends at the first NUL.
  unfoldable pub mysql_query : ℕ → Bytes → m.Server → Option ℕ × m.Server
  mysql_query h sql = m.real_query h (c_string sql)

  close_old : Option ℕ → m.Server → m.Server
  close_old none srv = srv
  close_old (some h) srv = m.close h srv

  -- The end of `connect`: the new handle, or NULL. The result of "set names" is not looked at.
  connected : Credentials → MySqlTool → Option ℕ × m.Server → Bool × Link
  unfolding mysql_query
  connected c t (none, srv) = (false, (record t { mysql = none }, srv))
  connected c t (some h, srv) =
      (true, (connected_tool h c, (mysql_query h (text "set names utf8;") srv).1))

  unfoldable pub connect : Credentials → Link → Bool × Link
  unfolding close_old connected c_credentials
  connect c (t, srv) = connected c t (m.real_connect (c_credentials c) (close_old t.mysql srv))

  -- The connection to the server that the tool was connected to last.
  pub reconnect : Link → Bool × Link
  unfolding connect own_credentials
  reconnect (t, srv) = connect (own_credentials t) (t, srv)

  -- A statement on the handle of the tool, which is not NULL here.
  send_with : (ℕ → m.Server → Option ℕ × m.Server) → Option ℕ → Link → Option ℕ × Link
  send_with send none l = (none, l)
  send_with send (some h) (t, srv) = let (e, srv') = send h srv in (e, (t, srv'))

  send_on : (ℕ → m.Server → Option ℕ × m.Server) → Link → Option ℕ × Link
  unfolding send_with
  send_on send l = send_with send l.0.mysql l

  -- The second attempt, on the connection that has just been made.
  again : (ℕ → m.Server → Option ℕ × m.Server) → Bool × Link → Bool × Link
  unfolding send_on
  again send (false, l) = (false, l)
  again send (true, l) =
      let (e, l') = send_on send l in elim e [ none ↦ (true, l') | some _ ↦ (false, l') ]

  -- What Query and Execute do after the first attempt: only a server that has gone away is tried
  -- again, once.
  judged : (ℕ → m.Server → Option ℕ × m.Server) → Option ℕ × Link → Bool × Link
  unfolding again reconnect cr_server_gone_error
  judged send (none, l) = (true, l)
  judged send (some errno, l) =
      if errno == cr_server_gone_error then again send (reconnect l) else (false, l)

  -- The first attempt, on a tool that is connected if it can be.
  first : (ℕ → m.Server → Option ℕ × m.Server) → Bool × Link → Bool × Link
  unfolding send_on judged
  first send (false, l) = (false, l)
  first send (true, l) = judged send (send_on send l)

  -- `if (m_mysql == NULL)`: the tool connects, if it can.
  ready : Option ℕ → Link → Bool × Link
  unfolding reconnect
  ready none l = reconnect l
  ready (some _) l = (true, l)

  -- The common part of Query and Execute: whether the statement was run.
  pub attempt : (ℕ → m.Server → Option ℕ × m.Server) → Link → Bool × Link
  unfolding first ready
  attempt send l = first send (ready l.0.mysql l)

  -- `new QueryResult(result, ...)` reads the fields of the result first, of NULL too.
  pub result_of : MySqlTool → Option (List Row) × m.Server → Outcome (Option (List Row) × Link)
  result_of t (none, srv) = crashed
  result_of t (some rows, srv) = done (some rows, (t, srv))

  stored_with : Option ℕ → Link → Outcome (Option (List Row) × Link)
  unfolding result_of
  stored_with none l = crashed
  stored_with (some h) (t, srv) = result_of t (m.store_result h srv)

  pub stored : Link → Outcome (Option (List Row) × Link)
  unfolding stored_with
  stored l = stored_with l.0.mysql l

  -- MySQLTool::Query.
  unfoldable pub query : Bytes → Link → Outcome (Option (List Row) × Link)
  unfolding attempt stored
  query sql l =
      let (ran, l') = attempt (λ h srv. m.real_query h sql srv) l in
      if ran then stored l' else done (none, l')

  -- `nAffectedCount = mysql_affected_rows(m_mysql)`, an uint32_t.
  affected : Link → ℕ
  affected (t, srv) = elim t.mysql [ none ↦ 0 | some h ↦ m.affected_rows h srv % 2 ^ 32 ]

  counted : Bool × Link → Option ℕ × Link
  unfolding affected
  counted (false, l) = (none, l)
  counted (true, l) = (some (affected l), l)

  -- MySQLTool::Execute: nAffectedCount if it returns true. No caller reads nErrno.
  pub execute_counted : Bytes → Link → Option ℕ × Link
  unfolding attempt mysql_query counted
  execute_counted sql l = counted (attempt (λ h srv. mysql_query h sql srv) l)

  succeeded : Option ℕ × Link → Bool × Link
  succeeded (none, l) = (false, l)
  succeeded (some _, l) = (true, l)

  -- MySQLTool::Execute without the out parameters.
  unfoldable pub execute : Bytes → Link → Bool × Link
  unfolding execute_counted succeeded
  execute sql l = succeeded (execute_counted sql l)
