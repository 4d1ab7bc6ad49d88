-- ===== src/Session/Isolation/Receiving.antt =====
-- The switch of OnMessageReceived, and the session table (IMServer/IMServer/ClientSession.cpp).
use aim_server.Common.{◌≡◌, refl, none, some, Option, List, Bytes, pos, eqb, if-elim, done}
use aim_server.Env.{Env}
use aim_server.Proto.{Protobuf, MessageContainer}
use aim_server.Session.State.{ClientSession, World, put, session_at}
use aim_server.Session.Dispatch.{on_heartbeat, dispatch, on_message_received, receive}
use aim_server.Session.Isolation.Pushes.{Touches, same, changed, Within}
use aim_server.Session.Isolation.Friends.{
  on_get_friend_list-Touches, on_find_user-Touches, on_operate_friend-Touches,
  on_send_request-Touches,
}
use aim_server.Session.Isolation.Groups.{
  on_create_group-Touches, on_get_group_members-Touches, on_kick_group_member-Touches,
  on_rename_group-Touches, on_set_group_admin-Touches, on_pending_requests-Touches,
  on_handle_request-Touches,
}
use aim_server.Session.Isolation.Accounts.{
  on_register-Touches, on_login-Touches, on_update_user_info-Touches, on_modify_password-Touches,
}
use aim_server.Session.Isolation.Chats.{
  on_chat-Touches, on_multi_chat-Touches, on_get_chat_history-Touches, on_send_email_code-Touches,
  on_upgrade_vip-Touches, on_avatar_upload-Touches,
}
use aim_server.Session.Isolation.Table.{IsKeyed, session_at-IsKeyed}

module _ (e : Env) (pb : Protobuf) where
  dispatch-Touches :
      (id : Bytes) (m : List (Bytes × ClientSession)) (s : ClientSession) (msg : MessageContainer)
      (w : World e)
      → s.sessionid ≡ id
      → Touches id m w.sessions
      → Within id m (dispatch e pb s msg w)
  unfolding dispatch on_heartbeat
  dispatch-Touches id m s msg w own h =
      if-elim (Within id m) (eqb msg.cmd (pos 1000)) _ _ (λ _. h)
        λ _.
          if-elim (Within id m) (eqb msg.cmd (pos 1001)) _ _
            (λ _. on_register-Touches e pb id m s msg w own h)
            λ _.
              if-elim (Within id m) (eqb msg.cmd (pos 1002)) _ _
                (λ _. on_login-Touches e pb id m s msg w own h)
                λ _.
                  if-elim (Within id m) (eqb msg.cmd (pos 1003)) _ _
                    (λ _. on_get_friend_list-Touches e pb id m s msg w h)
                    λ _.
                      if-elim (Within id m) (eqb msg.cmd (pos 1004)) _ _
                        (λ _. on_find_user-Touches e pb id m s msg w h)
                        λ _.
                          if-elim (Within id m) (eqb msg.cmd (pos 1005)) _ _
                            (λ _. on_operate_friend-Touches e pb id m s msg w h)
                            λ _.
                              if-elim (Within id m) (eqb msg.cmd (pos 1007)) _ _
                                (λ _. on_update_user_info-Touches e pb id m s msg w own h)
                                λ _.
                                  if-elim (Within id m) (eqb msg.cmd (pos 1008)) _ _
                                    (λ _. on_modify_password-Touches e pb id m s msg w own h)
                                    λ _.
                                      if-elim (Within id m) (eqb msg.cmd (pos 1009)) _ _
                                        (λ _. on_create_group-Touches e pb id m s msg w h)
                                        λ _.
                                          if-elim (Within id m) (eqb msg.cmd (pos 1010)) _ _
                                            (λ _. on_get_group_members-Touches e pb id m s msg w h)
                                            λ _.
                                              if-elim (Within id m) (eqb msg.cmd (pos 1011)) _ _
                                                (λ _.
                                                  on_get_chat_history-Touches e pb id m s msg w own
                                                    h)
                                                λ _.
                                                  if-elim (Within id m) (eqb msg.cmd (pos 1012)) _ _
                                                    (λ _.
                                                      on_avatar_upload-Touches e pb id m s msg w own
                                                        h)
                                                    λ _.
                                                      if-elim (Within id m) (eqb msg.cmd (pos 1013))
                                                        _ _
                                                        (λ _.
                                                          on_send_email_code-Touches e pb id m s msg
                                                            w own h)
                                                        λ _.
                                                          if-elim (Within id m)
                                                            (eqb msg.cmd (pos 1014)) _ _
                                                            (λ _.
                                                            on_upgrade_vip-Touches e pb id m s msg w
                                                            own h)
                                                            λ _.
                                                            if-elim (Within id m)
                                                            (eqb msg.cmd (pos 1015)) _ _
                                                            (λ _.
                                                            on_send_request-Touches e pb id m s msg
                                                            w h)
                                                            λ _.
                                                            if-elim (Within id m)
                                                            (eqb msg.cmd (pos 1016)) _ _
                                                            (λ _.
                                                            on_pending_requests-Touches e pb id m s
                                                            msg w h)
                                                            λ _.
                                                            if-elim (Within id m)
                                                            (eqb msg.cmd (pos 1017)) _ _
                                                            (λ _.
                                                            on_handle_request-Touches e pb id m s
                                                            msg w h)
                                                            λ _.
                                                            if-elim (Within id m)
                                                            (eqb msg.cmd (pos 1019)) _ _
                                                            (λ _.
                                                            on_kick_group_member-Touches e pb id m s
                                                            msg w h)
                                                            λ _.
                                                            if-elim (Within id m)
                                                            (eqb msg.cmd (pos 1020)) _ _
                                                            (λ _.
                                                            on_rename_group-Touches e pb id m s msg
                                                            w h)
                                                            λ _.
                                                            if-elim (Within id m)
                                                            (eqb msg.cmd (pos 1021)) _ _
                                                            (λ _.
                                                            on_set_group_admin-Touches e pb id m s
                                                            msg w h)
                                                            λ _.
                                                            if-elim (Within id m)
                                                            (eqb msg.cmd (pos 1100)) _ _
                                                            (λ _.
                                                            on_chat-Touches e pb id m s msg w own h)
                                                            λ _.
                                                            if-elim (Within id m)
                                                            (eqb msg.cmd (pos 1101)) _ _
                                                            (λ _.
                                                            on_multi_chat-Touches e pb id m s msg w
                                                            own h)
                                                            λ _. h

  -- A message that arrives for what the table holds under an id.
  received-Touches :
      (id : Bytes) (msg : MessageContainer) (w : World e) (o : Option ClientSession)
      → IsKeyed w.sessions
      → session_at id w.sessions ≡ o
      → Within id w.sessions (elim o [ none ↦ done w | some s ↦ on_message_received e pb s msg w ])
  unfolding on_message_received
  received-Touches id msg w none keyed found = same
  received-Touches id msg w (some s) keyed found =
      let own = session_at-IsKeyed id s w.sessions keyed found in
      let s' = record s { seq = msg.seq } in
      dispatch-Touches id w.sessions s' msg (put s' w) own (changed s' own same)

  -- A message touches no session but that of its connection.
  pub receive-Touches :
      (id : Bytes) (msg : MessageContainer) (w : World e)
      → IsKeyed w.sessions
      → Within id w.sessions (receive e pb id msg w)
  unfolding receive
  receive-Touches id msg w keyed = received-Touches id msg w (session_at id w.sessions) keyed refl
