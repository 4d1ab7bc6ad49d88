-- ===== src/Session/Assistant.antt =====
-- The assistant: sendMessage with its thread, processMessageSync and isHealthy of
-- IMServer/IMServer/AgentGrpcClient.cpp, and the callback that OnChatResponse of
-- IMServer/IMServer/ClientSession.cpp hands to it.
pub mod Replies
use aim_server.Common.{
  ℕ, zero, suc, Bool, true, false, Option, none, some, List, [], ◌∷◌, ◌++◌, if◌then◌else◌, Bytes, ℤ,
  pos, negsuc, eqb, text, get_elem?, is_empty,
}
use aim_server.Env.{Env, Rpc, failed, answered}
use aim_server.Proto.{Protobuf}
use aim_server.Session.State.{World, AgentCall, Outcome, done}
use aim_server.Session.Chat.{agent_userid}
use aim_server.Session.Dispatch.{on_agent_reply}

-- agent::ProcessMessageReq and agent::ProcessMessageRsp.
pub record ProcessMessageReq : Type 0 where
  pub user_id : ℤ
  pub target_id : ℤ
  pub content : Bytes
  pub chat_type : ℤ
  pub skill : Bytes
  pub context : List Bytes

pub record ProcessMessageRsp : Type 0 where
  pub code : ℤ
  pub msg : Bytes
  pub reply : Bytes

-- The request that processMessageSync builds; a skill that is empty is not set.
pub process_message_req : AgentCall → ProcessMessageReq
process_message_req call = record {
  user_id = call.userid;
  target_id = agent_userid;
  content = call.content;
  chat_type = pos 1;
  skill = if is_empty call.skill then [] else call.skill;
  context = call.context;
}

-- The result of processMessageSync and replyOut.
pub process_message : Rpc ProcessMessageRsp → Bool × Bytes
process_message (failed m) = (false, text "Agent 服务不可用: " ++ m)
process_message (answered rsp) =
    if eqb rsp.code (pos 0) then (true, rsp.reply) else (false, rsp.msg)

-- isHealthy, from HealthCheckRsp::healthy.
pub is_healthy : Rpc Bool → Bool
is_healthy (failed m) = false
is_healthy (answered healthy) = healthy

pub without : ℕ → List AgentCall → List AgentCall
without i [] = []
without zero (c ∷ cs) = cs
without (suc i) (c ∷ cs) = c ∷ without i cs

module _ (e : Env) (pb : Protobuf) where
  -- The end of the thread that sendMessage has started for a call, with what the service answers.
  -- There is no such thread if there is no such call.
  unfoldable pub finish_call :
      ℕ → (ProcessMessageReq → Rpc ProcessMessageRsp) → World e → Outcome (World e)
  unfolding process_message_req process_message without
  finish_call i service w = elim (get_elem? w.agent_calls i) [
    | none ↦ done w
    | some call ↦
        let (ok, reply) = process_message (service (process_message_req call)) in
        on_agent_reply e pb call ok reply (record w { agent_calls = without i w.agent_calls })
  ]
