-- ===== src/Session/State.antt =====
-- The state of the server as a handler sees it, and what the handlers share: the session table of
-- IMSer, sending, and the pushes to other sessions.
pub mod Laws
pub mod Keys
use aim_server.Common.{
  ℕ, Bool, true, false, Option, none, some, List, [], ◌∷◌, ◌++◌, if◌then◌else◌, Bytes, bytes_eq,
  bytes_lt, is_empty, ℤ, pos, negsuc, eqb,
}
pub use aim_server.Common.{Outcome, done, crashed}
use aim_server.Env.{Env}
use aim_server.Proto.{MessageContainer, CommonRsp, UserInfo, Protobuf}
use aim_server.Users.User.{User}
use aim_server.Users.Manager.{Store}

-- The connection of a session is named by its session id, the address of the TcpConnection.
pub record ClientSession : Type 0 where
  pub sessionid : Bytes
  pub seq : ℤ
  pub user : Option User
  pub target : ℤ
  pub targets : Bytes

-- Which of IMSer's client pointers are set.
pub record Clients : Type 0 where
  pub agent : Bool
  pub avatar : Bool
  pub mail : Bool
  pub mq_publisher : Bool

-- A call of AgentGrpcClient::sendMessage whose reply has not come. Its callback keeps a pointer to
-- the session object with the id `caller`; `freed` says that this object has been destroyed.
pub record AgentCall : Type 0 where
  pub freed : Bool
  pub caller : Bytes
  pub userid : ℤ
  pub content : Bytes
  pub skill : Bytes
  pub context : List Bytes

-- `out` holds the messages handed to the codec of a connection, in order.
pub record World (e : Env) : Type 0 where
  pub store : Store e
  pub clients : Clients
  pub sessions : List (Bytes × ClientSession)
  pub out : List (Bytes × MessageContainer)
  pub agent_calls : List AgentCall

-- ClientSession::UserID.
pub user_id : ClientSession → ℤ
user_id s = elim s.user [ none ↦ negsuc 0 | some u ↦ u.userid ]

-- ClientSession's constructor.
unfoldable pub new_session : Bytes → ClientSession
new_session id = record { sessionid = id; seq = pos 0; user = none; target = pos 0; targets = [] }

-- `m_mapclient.insert`: in the order of the keys, and nothing if the key is there.
unfoldable pub insert_session :
    Bytes → ClientSession → List (Bytes × ClientSession) → List (Bytes × ClientSession)
insert_session k s [] = (k, s) ∷ []
insert_session k s ((j, t) ∷ m) =
    let rest = insert_session k s m in
    if bytes_eq j k then (j, t) ∷ m else if bytes_lt k j then (k, s) ∷ (j, t) ∷ m else (j, t) ∷ rest

-- `m_mapclient.erase`.
unfoldable pub erase_session : Bytes → List (Bytes × ClientSession) → List (Bytes × ClientSession)
erase_session k [] = []
erase_session k ((j, t) ∷ m) =
    let rest = erase_session k m in if bytes_eq j k then m else (j, t) ∷ rest

-- The session object of a key.
unfoldable pub session_at : Bytes → List (Bytes × ClientSession) → Option ClientSession
session_at k [] = none
session_at k ((j, t) ∷ m) = if bytes_eq j k then some t else session_at k m

-- A change of the session object that the table holds under its key.
unfoldable pub update_session :
    ClientSession → List (Bytes × ClientSession) → List (Bytes × ClientSession)
update_session s [] = []
update_session s ((j, t) ∷ m) =
    let rest = update_session s m in if bytes_eq j s.sessionid then (j, s) ∷ m else (j, t) ∷ rest

-- IMSer::GetSessionByID: the first session of that user.
unfoldable pub find_session : ℤ → List (Bytes × ClientSession) → Option ClientSession
find_session id [] = none
find_session id ((j, t) ∷ m) = if eqb (user_id t) id then some t else find_session id m

abbrev pub common : ℤ → Bytes → CommonRsp
common code msg = record { code = code; msg = msg }

-- The fields that several handlers copy from a User into a UserInfo; the others keep the default.
abbrev pub user_info : User → UserInfo
user_info u = record {
  userid = u.userid;
  username = u.username;
  nickname = u.nickname;
  facetype = u.facetype;
  customface = u.customface;
  gender = u.gender;
  birthday = u.birthday;
  signature = u.signature;
  address = u.address;
  phonenumber = u.phonenumber;
  mail = u.mail;
  status = pos 0;
  clienttype = pos 0;
  ownerid = pos 0;
  grouprole = pos 0;
}

-- A container without target.
abbrev pub container : ℤ → ℤ → Bytes → MessageContainer
container cmd seq payload = record {
  cmd = cmd;
  seq = seq;
  target_id = pos 0;
  targets = [];
  payload = payload;
}

module _ {e : Env} where
  -- IMCodec::send.
  abbrev pub send : Bytes → MessageContainer → World e → World e
  send conn msg w = record w { out = w.out ++ (conn, msg) ∷ [] }

  -- The response at the end of a handler.
  abbrev pub reply : ClientSession → ℤ → Bytes → World e → World e
  reply s cmd payload = send s.sessionid (container cmd s.seq payload)

  -- A change of the session that handles a message.
  abbrev pub put : ClientSession → World e → World e
  put s w = record w { sessions = update_session s w.sessions }

  abbrev pub on_store {ℓ} : {A : Type ℓ} → (Store e → A × Store e) → World e → A × World e
  on_store f w = let (a, st) = f w.store in (a, record w { store = st })

  abbrev pub on_ext {ℓ} : {A : Type ℓ} → (e.State → A × e.State) → World e → A × World e
  on_ext f w = let (a, x) = f w.store.ext in (a, record w { store = record w.store { ext = x } })

module _ {e : Env} (pb : Protobuf) where
  -- IMCodec::sendRaw: bytes that do not parse are dropped.
  unfoldable pub send_raw : Bytes → Bytes → World e → World e
  send_raw conn blob w = elim (pb.parse_message_container blob) [
    | none ↦ w
    | some msg ↦ send conn msg w
  ]

  unfoldable pub send_raw_all : Bytes → List Bytes → World e → World e
  send_raw_all conn [] w = w
  send_raw_all conn (b ∷ bs) w = send_raw_all conn bs (send_raw conn b w)

  -- SendUserStatusChangeMsg of a session (cmd 1006).
  unfoldable pub send_user_status_change_msg : ClientSession → ℤ → ℤ → Bytes → World e → World e
  send_user_status_change_msg t userid type customface = send t.sessionid (
      container (pos 1006) (pos 0) (
        pb.serialize_user_status_change_notify
          (record { type = type; userid = userid; customface = customface })))

  -- The same to whoever is connected as a user.
  unfoldable pub notify_user : ℤ → ℤ → ℤ → Bytes → World e → World e
  notify_user to userid type customface w = elim (find_session to w.sessions) [
    | none ↦ w
    | some t ↦ send_user_status_change_msg t userid type customface w
  ]

  unfoldable pub notify_users : List User → ℤ → ℤ → Bytes → World e → World e
  notify_users [] userid type customface w = w
  notify_users (u ∷ us) userid type customface w =
      notify_users us userid type customface (notify_user u.userid userid type customface w)

  -- The same to all but one of a list.
  unfoldable pub notify_others : ℤ → List User → ℤ → ℤ → Bytes → World e → World e
  notify_others self [] userid type customface w = w
  notify_others self (u ∷ us) userid type customface w =
      notify_others self us userid type customface
        (if eqb u.userid self then w else notify_user u.userid userid type customface w)
