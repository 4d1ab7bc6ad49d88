-- ===== src/Tests/Sessions.antt =====
-- Each theorem about sessions beside each other, applied to a server with one session that a
-- second connection comes to.
use aim_server.Common.{◌≡◌, refl, done, [], bytes_eq, bytes_lt, pos, eqb, text}
use aim_server.Session.State.{
  ClientSession, World, session_at, reply, put, new_session, insert_session, update_session,
}
use aim_server.Session.Dispatch.{
  receive, dispatch, on_message_received, on_heartbeat, on_connection,
}
use aim_server.Session.Isolation.Table.{IsTable}
use aim_server.Session.Isolation.Events.{
  Run, stays, goes, connects, receives, Run-IsTable, session_at-receive,
}
use aim_server.Fixtures.{live, codec, world, command}

abbrev joined : World live
joined = on_connection live codec (text "new") world

-- The new session behind its first message.
abbrev greeted : ClientSession
greeted = record (new_session (text "new")) { seq = (command (pos 1000)).seq }

abbrev answered_world : World live
answered_world = reply greeted (pos 1000) [] (put greeted joined)

heartbeat_received :
    receive live codec (text "new") (command (pos 1000)) joined ≡ done answered_world
unfolding receive on_message_received dispatch on_heartbeat on_connection new_session session_at
    insert_session update_session bytes_eq bytes_lt text eqb
heartbeat_received = refl

world-IsTable : IsTable world.sessions
unfolding bytes_lt text
world-IsTable = (((refl, tt), (tt, tt)), (refl, (refl, tt)))

visited : Run live codec world answered_world
visited =
    goes (goes stays (connects (text "new")))
      (receives (text "new") (command (pos 1000)) heartbeat_received)

Run-IsTable_example : IsTable answered_world.sessions
Run-IsTable_example = Run-IsTable live codec visited world-IsTable

session_at-receive_example :
    session_at (text "b") answered_world.sessions ≡ session_at (text "b") joined.sessions
unfolding bytes_eq text
session_at-receive_example =
    session_at-receive live codec (text "new") (text "b") (command (pos 1000)) joined answered_world
      (Run-IsTable live codec (goes stays (connects (text "new"))) world-IsTable) heartbeat_received
      refl
