-- ===== src/Session/Isolation/Events.antt =====
-- The events of the server: connections that come and go, messages, and the assistant's replies
-- (IMServer/IMServer/ClientSession.cpp, IMServer/IMServer/IMSer.cpp).
use aim_server.Common.{
  ◌≡◌, refl, subst, Bool, false, [], Bytes, bytes_eq, ℕ, Option-elim, if-elim, done, get_elem?,
}
use aim_server.Env.{Env, Rpc}
use aim_server.Proto.{Protobuf, MessageContainer}
use aim_server.Session.State.{World, AgentCall, session_at, new_session}
use aim_server.Session.Dispatch.{receive, on_connection, on_close, on_agent_reply}
use aim_server.Session.Assistant.{ProcessMessageReq, ProcessMessageRsp, finish_call}
use aim_server.Session.Isolation.Pushes.{same, Within}
use aim_server.Session.Isolation.Table.{
  IsTable, Touches-IsTable, session_at-Touches, insert_session-IsTable, erase_session-IsTable,
}
use aim_server.Session.Isolation.Receiving.{receive-Touches}

module _ (e : Env) (pb : Protobuf) where
  -- An event of the server and the world behind it, if the process goes on: a connection comes or
  -- goes, a message arrives, or a call of the assistant ends.
  pub data Event (w : World e) : World e → Type 0 where
    connects : (id : Bytes) → Event w (on_connection e pb id w)
    closes : (id : Bytes) → Event w (on_close e pb id w)
    receives :
        (id : Bytes) (msg : MessageContainer) {w' : World e}
        → receive e pb id msg w ≡ done w'
        → Event w w'
    ends :
        (i : ℕ) (service : ProcessMessageReq → Rpc ProcessMessageRsp) {w' : World e}
        → finish_call e pb i service w ≡ done w'
        → Event w w'

  -- Any number of events.
  pub data Run (w : World e) : World e → Type 0 where
    stays : Run w w
    goes : {v v' : World e} → Run w v → Event v v' → Run w v'

  on_agent_reply-Touches :
      (id : Bytes) (call : AgentCall) (ok : Bool) (reply : Bytes) (w : World e)
      → Within id w.sessions (on_agent_reply e pb call ok reply w)
  unfolding on_agent_reply
  on_agent_reply-Touches id call ok reply w =
      if-elim (Within id w.sessions) call.freed _ _ (λ _. tt)
        (λ _.
          Option-elim (Within id w.sessions) (session_at call.caller w.sessions) tt
            (λ s. Option-elim (Within id w.sessions) s.user tt (λ u. same)))

  finish_call-Touches :
      (id : Bytes) (i : ℕ) (service : ProcessMessageReq → Rpc ProcessMessageRsp) (w : World e)
      → Within id w.sessions (finish_call e pb i service w)
  unfolding finish_call
  finish_call-Touches id i service w =
      Option-elim (Within id w.sessions) (get_elem? w.agent_calls i) same
        (λ call. on_agent_reply-Touches id call _ _ _)

  event-IsTable : {w w' : World e} → Event w w' → IsTable w.sessions → IsTable w'.sessions
  unfolding on_connection on_close new_session
  event-IsTable {w = w} (connects id) h =
      insert_session-IsTable id (new_session id) w.sessions refl h
  event-IsTable {w = w} (closes id) h = erase_session-IsTable id w.sessions h
  event-IsTable {w = w} (receives id msg {w'} e1) h =
      Touches-IsTable id w.sessions w'.sessions
        (subst (Within id w.sessions) e1 (receive-Touches e pb id msg w h.1)) h
  event-IsTable {w = w} (ends i service {w'} e1) h =
      Touches-IsTable [] w.sessions w'.sessions
        (subst (Within [] w.sessions) e1 (finish_call-Touches [] i service w)) h

  -- Whatever events there are, in whatever order, the keys of the session table ascend, and each
  -- session stands under its own id, if this is so at the beginning.
  pub Run-IsTable : {w w' : World e} → Run w w' → IsTable w.sessions → IsTable w'.sessions
  Run-IsTable stays h = h
  Run-IsTable (goes r ev) h = event-IsTable ev (Run-IsTable r h)

  -- On a session table whose keys ascend and that holds each session under its own id, a message
  -- that arrives on one connection and does not kill the process changes the session object of no
  -- other connection.
  pub session_at-receive :
      (id k : Bytes) (msg : MessageContainer) (w w' : World e)
      → IsTable w.sessions
      → receive e pb id msg w ≡ done w'
      → bytes_eq id k ≡ false
      → session_at k w'.sessions ≡ session_at k w.sessions
  session_at-receive id k msg w w' h e1 apart =
      session_at-Touches id k w.sessions w'.sessions
        (subst (Within id w.sessions) e1 (receive-Touches e pb id msg w h.1)) apart
