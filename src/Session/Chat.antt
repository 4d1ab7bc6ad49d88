-- ===== src/Session/Chat.antt =====
-- The handlers for chat messages and their history (IMServer/IMServer/ClientSession.cpp).
pub mod Delivery
pub mod Later
use aim_server.Common.{
  Bool, true, false, not, ◌&&◌, Option, none, some, List, [], ◌∷◌, ◌++◌, if◌then◌else◌, Bytes, ℤ,
  pos, negsuc, eqb, ltb_ℤ, text,
}
use aim_server.Env.{Env}
use aim_server.Offline.{add_chat_msg_cache}
use aim_server.Proto.{
  Protobuf, MessageContainer, ChatMsg, ChatHistoryReq, ChatHistoryRsp, MultiChatTargets,
}
use aim_server.Users.User.{User, group_boundary}
use aim_server.Users.Manager.{Store, friend_infos}
use aim_server.Users.History.{save_chat_msg_to_db, get_chat_history}
use aim_server.Session.State.{
  ClientSession, World, AgentCall, Outcome, done, crashed, reply, send, put, on_ext, find_session,
}

-- AGENT_USERID.
pub agent_userid : ℤ
agent_userid = negsuc 0

-- The container that OnChatResponse forwards.
abbrev pub forward : ℤ → ℤ → Bytes → MessageContainer
forward seq target payload = record {
  cmd = pos 1100;
  seq = seq;
  target_id = target;
  targets = [];
  payload = payload;
}

module _ (e : Env) (pb : Protobuf) where
  -- `chatMsg` behind ParseFromString, whose result is not looked at.
  pub chat_of : Bytes → ChatMsg
  chat_of payload = elim (pb.parse_chat_msg payload) [
    | none ↦ pb.partial_chat_msg payload
    | some m ↦ m
  ]

  -- Over the queue if a publisher is set, else, or if that fails, into the database.
  unfoldable pub persist : ℤ → ℤ → ChatMsg → World e → World e
  persist sender target chat w =
      let (published, w1) =
        on_ext (e.publish (text "chat") (pb.json_chat_event sender target chat)) w in
      let saved = λ (v : World e). (on_ext (save_chat_msg_to_db e sender target chat) v).1 in
      if w.clients.mq_publisher then (if published then w1 else saved w1) else saved w

  -- To the session of a user, or into the store of messages for users who are not connected.
  unfoldable pub deliver : ℤ → MessageContainer → World e → World e
  deliver to msg w = elim (find_session to w.sessions) [
    | none ↦ (on_ext (add_chat_msg_cache e to (pb.serialize_message_container msg)) w).1
    | some t ↦ send t.sessionid msg w
  ]

  -- To every member of a group but the sender.
  unfoldable pub deliver_others : ℤ → List User → MessageContainer → World e → World e
  deliver_others sender [] msg w = w
  deliver_others sender (u ∷ us) msg w =
      deliver_others sender us msg (if eqb u.userid sender then w else deliver u.userid msg w)

  -- A message for the assistant: the call goes out on a thread of its own.
  unfoldable pub ask_agent : Bytes → ℤ → ChatMsg → World e → World e
  ask_agent caller userid chat w =
      if w.clients.agent
      then record w {
        agent_calls =
            w.agent_calls
            ++ record {
              freed = false;
              caller = caller;
              userid = userid;
              content = chat.content;
              skill = chat.skill;
              context = chat.context;
            }
              ∷ [];
      }
      else w

  -- A message to a user or to a group, behind the storing.
  unfoldable pub route : ℤ → ℤ → MessageContainer → World e → World e
  unfolding deliver
  route sender target msg w =
      if ltb_ℤ target group_boundary
      then deliver target msg w
      else elim (friend_infos target w.store.manager) [
        | none ↦ w
        | some members ↦ deliver_others sender members msg w
      ]

  -- OnChatResponse for a session with a user, who is the sender.
  unfoldable pub chat : ClientSession → ℤ → ℤ → Bytes → World e → World e
  unfolding ask_agent
  chat s sender target payload w =
      let w' = put (record s { target = target }) w in
      let parsed = chat_of payload in
      if eqb target agent_userid
      then ask_agent s.sessionid sender parsed w'
      else route sender target (forward s.seq target payload) (persist sender target parsed w')

  -- OnChatResponse (cmd 1100): its first log line reads m_user->userid.
  unfoldable pub on_chat : ClientSession → MessageContainer → World e → Outcome (World e)
  unfolding chat
  on_chat s msg w = elim s.user [
    | none ↦ crashed
    | some u ↦ done (chat s u.userid msg.target_id msg.payload w)
  ]

  -- The loop of OnMultiChatResponse.
  unfoldable pub chat_all : ClientSession → ℤ → List ℤ → Bytes → World e → World e
  chat_all s sender [] payload w = w
  chat_all s sender (target ∷ targets) payload w =
      chat_all s sender targets payload (chat s sender target payload w)

  -- OnMultiChatResponse (cmd 1101): both log lines read m_user->userid.
  unfoldable pub on_multi_chat : ClientSession → MessageContainer → World e → Outcome (World e)
  unfolding chat_all
  on_multi_chat s msg w = elim s.user [
    | none ↦ crashed
    | some u ↦
        let s' = record s { targets = msg.targets } in
        elim (pb.parse_multi_chat_targets msg.payload) [
          | none ↦ done (put s' w)
          | some req ↦ done (chat_all s' u.userid req.targets req.content (put s' w))
        ]
  ]

  -- OnGetChatHistoryResponse (cmd 1011): its last log line reads m_user->userid.
  unfoldable pub on_get_chat_history :
      ClientSession → MessageContainer → World e → Outcome (World e)
  on_get_chat_history s msg w =
      let answer =
        λ (rsp : ChatHistoryRsp). reply {e = e} s (pos 1011) (pb.serialize_chat_history_rsp rsp) in
      let refusal = λ (code : ℤ) (m : Bytes).
        answer (record { code = code; msg = m; targetid = pos 0; messages = [] }) in
      elim s.user [
        | none ↦ crashed
        | some u ↦ elim (pb.parse_chat_history_req msg.payload) [
          | none ↦ done (refusal (pos 101) (text "protobuf parse failed!") w)
          | some req ↦
              let (found, w') = on_ext (get_chat_history e u.userid req.targetid (pos 50)) w in
              elim found [
                | none ↦ done (refusal (pos 100) (text "get chat history failed!") w')
                | some msgs ↦ done (
                    answer
                      (record {
                        code = pos 0;
                        msg = text "ok";
                        targetid = req.targetid;
                        messages = msgs;
                      })
                      w')
              ]
        ]
      ]
