-- ===== src/Session/Dispatch.antt =====
-- ClientSession::OnMessageReceived, the table of sessions (IMSer::OnConnection and OnClose), and
-- the reply of the assistant that comes in later.
pub mod Crashes
pub mod Answers
use aim_server.Common.{
  Bool, true, false, Option, none, some, List, [], ◌∷◌, ◌++◌, if◌then◌else◌, Bytes, bytes_eq, ◌||◌,
  map, ℤ, pos, negsuc, eqb, text,
}
use aim_server.Env.{Env}
use aim_server.Proto.{Protobuf, MessageContainer, ChatMsg}
use aim_server.Session.State.{
  ClientSession, World, AgentCall, Outcome, done, crashed, reply, send, put, on_ext, new_session,
  insert_session, erase_session, session_at,
}
use aim_server.Session.Account.{on_register, on_login, on_update_user_info, on_modify_password}
use aim_server.Session.Groups.{
  on_create_group, on_get_group_members, on_kick_group_member, on_rename_group, on_set_group_admin,
}
use aim_server.Session.Friends.{
  on_get_friend_list, on_find_user, on_operate_friend, on_send_request,
}
use aim_server.Session.Approvals.{on_pending_requests, on_handle_request}
use aim_server.Session.Chat.{forward, on_chat, on_multi_chat, on_get_chat_history}
use aim_server.Session.Services.{on_send_email_code, on_upgrade_vip, on_avatar_upload}

module _ (e : Env) (pb : Protobuf) where
  -- OnHeartbeatResponse (cmd 1000).
  unfoldable pub on_heartbeat : ClientSession → MessageContainer → World e → Outcome (World e)
  on_heartbeat s msg w = done (reply s (pos 1000) [] w)

  -- The switch of OnMessageReceived; an unknown command is logged and dropped.
  unfoldable pub dispatch : ClientSession → MessageContainer → World e → Outcome (World e)
  unfolding on_heartbeat
  dispatch s msg w =
      if eqb msg.cmd (pos 1000)
      then on_heartbeat s msg w
      else if eqb msg.cmd (pos 1001)
      then on_register e pb s msg w
      else if eqb msg.cmd (pos 1002)
      then on_login e pb s msg w
      else if eqb msg.cmd (pos 1003)
      then on_get_friend_list e pb s msg w
      else if eqb msg.cmd (pos 1004)
      then on_find_user e pb s msg w
      else if eqb msg.cmd (pos 1005)
      then on_operate_friend e pb s msg w
      else if eqb msg.cmd (pos 1007)
      then on_update_user_info e pb s msg w
      else if eqb msg.cmd (pos 1008)
      then on_modify_password e pb s msg w
      else if eqb msg.cmd (pos 1009)
      then on_create_group e pb s msg w
      else if eqb msg.cmd (pos 1010)
      then on_get_group_members e pb s msg w
      else if eqb msg.cmd (pos 1011)
      then on_get_chat_history e pb s msg w
      else if eqb msg.cmd (pos 1012)
      then on_avatar_upload e pb s msg w
      else if eqb msg.cmd (pos 1013)
      then on_send_email_code e pb s msg w
      else if eqb msg.cmd (pos 1014)
      then on_upgrade_vip e pb s msg w
      else if eqb msg.cmd (pos 1015)
      then on_send_request e pb s msg w
      else if eqb msg.cmd (pos 1016)
      then on_pending_requests e pb s msg w
      else if eqb msg.cmd (pos 1017)
      then on_handle_request e pb s msg w
      else if eqb msg.cmd (pos 1019)
      then on_kick_group_member e pb s msg w
      else if eqb msg.cmd (pos 1020)
      then on_rename_group e pb s msg w
      else if eqb msg.cmd (pos 1021)
      then on_set_group_admin e pb s msg w
      else if eqb msg.cmd (pos 1100)
      then on_chat e pb s msg w
      else if eqb msg.cmd (pos 1101)
      then on_multi_chat e pb s msg w
      else done w

  -- OnMessageReceived of a session: m_seq follows the message, then the switch.
  unfoldable pub on_message_received :
      ClientSession → MessageContainer → World e → Outcome (World e)
  unfolding dispatch
  on_message_received s msg w = let s' = record s { seq = msg.seq } in dispatch s' msg (put s' w)

  -- A message that arrives on the connection with a session id. After OnClose none does.
  unfoldable pub receive : Bytes → MessageContainer → World e → Outcome (World e)
  unfolding on_message_received
  receive id msg w = elim (session_at id w.sessions) [
    | none ↦ done w
    | some s ↦ on_message_received s msg w
  ]

  -- A pending call when the session object of an id is destroyed.
  unfoldable pub freed_with : Bytes → AgentCall → AgentCall
  freed_with id call = record call { freed = call.freed || bytes_eq call.caller id }

  -- OnConnection for a connection that is up, and OnClose, which drops the last reference to the
  -- session object of the connection.
  unfoldable pub on_connection : Bytes → World e → World e
  on_connection id w = record w { sessions = insert_session id (new_session id) w.sessions }

  unfoldable pub on_close : Bytes → World e → World e
  unfolding freed_with
  on_close id w = record w {
    sessions = erase_session id w.sessions;
    agent_calls = map (freed_with id) w.agent_calls;
  }

  -- The callback of AgentGrpcClient::sendMessage: the reply goes to the session that asked, as a
  -- message from the assistant to the session's user of that moment. On an object that has been
  -- destroyed its behaviour is undefined, for which `crashed` stands.
  unfoldable pub on_agent_reply : AgentCall → Bool → Bytes → World e → Outcome (World e)
  on_agent_reply call ok text_in w =
      if call.freed then crashed else elim (session_at call.caller w.sessions) [
        | none ↦ crashed
        | some s ↦ elim s.user [
          | none ↦ crashed
          | some u ↦
              let (now, w') = on_ext e.time w in
              done (
                send s.sessionid
                  (forward s.seq u.userid (
                    pb.serialize_chat_msg (record {
                      senderid = negsuc 0;
                      targetid = u.userid;
                      content = if ok then text_in else text "[Agent不可用] " ++ text_in;
                      timestamp = now;
                      skill = [];
                      context = [];
                      msg_type = pos 0;
                      media_url = [];
                      duration = pos 0;
                      file_size = pos 0;
                      thumb_url = [];
                      file_name = [];
                    })))
                  w')
        ]
      ]
