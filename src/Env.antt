-- ===== src/Env.antt =====
-- What the server calls and the repository does not implement, as one interface: the database
-- behind MySqlManager, the answers of the three Go services over gRPC, the message queue, the
-- clock and std::random_device. `State` is the state of that outside world; every call may
-- change it.
use aim_server.Common.{ℕ, Bool, Option, List, Bytes, ℤ}

-- One row of a result, a text for each column; SQL NULL is the empty text.
abbrev pub Row : Type 0
Row = List Bytes

-- The end of a gRPC call: a status that is not ok with its message, or the response.
pub data Rpc (A : Type 0) : Type 0 where
  failed : Bytes → Rpc A
  answered : A → Rpc A

-- mail::SendCodeRsp.
pub record SendCodeRsp : Type 0 where
  pub code : ℤ
  pub msg : Bytes
  pub cooldown_seconds : ℤ

-- mail::VerifyCodeRsp.
pub record VerifyCodeRsp : Type 0 where
  pub code : ℤ
  pub msg : Bytes

-- avatar::UploadRsp.
pub record UploadRsp : Type 0 where
  pub code : ℤ
  pub msg : Bytes
  pub url : Bytes

-- agent::VipStatusRsp.
pub record VipStatusRsp : Type 0 where
  pub code : ℤ
  pub msg : Bytes
  pub is_vip : Bool

pub record Env : Type 1 where
  pub State : Type 0
  -- MySqlManager::Execute and MySqlManager::Query, which return false or NULL on failure.
  pub execute : Bytes → State → Bool × State
  pub query : Bytes → State → Option (List Row) × State
  -- The values that std::random_device returns during one call of HashPassword.
  pub draws : State → (ℕ → ℕ) × State
  -- `time(nullptr)`.
  pub time : State → ℤ × State
  -- The stubs of mail.proto, avatar.proto and agent.proto.
  pub stub_send_code : Bytes → State → Rpc SendCodeRsp × State
  pub stub_verify_code : Bytes → Bytes → State → Rpc VerifyCodeRsp × State
  pub stub_upload : ℤ → Bytes → Bytes → State → Rpc UploadRsp × State
  pub stub_vip_status : ℤ → State → Rpc VipStatusRsp × State
  pub stub_upgrade_vip : ℤ → Bytes → ℤ → State → Rpc VipStatusRsp × State
  -- RabbitMqPublisher::Publish.
  pub publish : Bytes → Bytes → State → Bool × State
