-- ===== src/Session/Assistant/Replies.antt =====
-- When the reply of the assistant reaches the client that asked
-- (IMServer/IMServer/ClientSession.cpp and AgentGrpcClient.cpp).
use aim_server.Common.{
  ◌≡◌, Bool, [], ◌∷◌, ◌++◌, if◌then◌else◌, Bytes, ℤ, pos, negsuc, text, false, Outcome, done,
}
use aim_server.Env.{Env, Rpc}
use aim_server.Proto.{Protobuf, MessageContainer, ChatMsg}
use aim_server.Users.User.{User}
use aim_server.Session.State.{ClientSession, World, AgentCall, put, send}
use aim_server.Session.Chat.{forward, chat_of}
use aim_server.Session.Dispatch.{on_close, on_connection}
use aim_server.Session.Assistant.{
  ProcessMessageReq, ProcessMessageRsp, process_message, process_message_req,
}

-- The message from the assistant with a text at a time.
abbrev pub assistant_chat : ℤ → Bytes → ℤ → ChatMsg
assistant_chat userid content now = record {
  senderid = negsuc 0;
  targetid = userid;
  content = content;
  timestamp = now;
  skill = [];
  context = [];
  msg_type = pos 0;
  media_url = [];
  duration = pos 0;
  file_size = pos 0;
  thumb_url = [];
  file_name = [];
}

-- What the client reads of a result of processMessageSync.
abbrev pub shown : Bool × Bytes → Bytes
shown r = if r.0 then r.1 else text "[Agent不可用] " ++ r.1

module _ (e : Env) (pb : Protobuf) where
  -- The reply is on its way to a session: a chat message with the session's number, and nothing
  -- else but the time has been asked for.
  pub Replied :
      AgentCall
      → (ProcessMessageReq → Rpc ProcessMessageRsp)
      → ClientSession
      → User
      → Outcome (World e)
      → Type 0
  Replied call service t u o =
      (now : ℤ) × (w' : World e) × (o
        ≡ done (
            send t.sessionid
              (forward t.seq u.userid (
                pb.serialize_chat_msg (
                  assistant_chat u.userid
                    (shown (process_message (service (process_message_req call)))) now)))
              w'))

  -- The call that a chat with the assistant starts.
  abbrev pub call_of : ClientSession → User → MessageContainer → AgentCall
  call_of s u msg = record {
    freed = false;
    caller = s.sessionid;
    userid = u.userid;
    content = (chat_of e pb msg.payload).content;
    skill = (chat_of e pb msg.payload).skill;
    context = (chat_of e pb msg.payload).context;
  }

  abbrev pub asked_world : ClientSession → User → MessageContainer → World e → World e
  asked_world s u msg w = record (put (record s { target = msg.target_id }) w) {
    agent_calls = w.agent_calls ++ call_of s u msg ∷ [];
  }

  -- The connection is closed, and another one comes whose session stands at the same address.
  abbrev pub replaced : Bytes → World e → World e
  replaced id w = on_connection e pb id (on_close e pb id w)
