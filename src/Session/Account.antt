-- ===== src/Session/Account.antt =====
-- The handlers for accounts: registration, login, profile and password
-- (IMServer/IMServer/ClientSession.cpp), with MailGrpcClient::VerifyCode and
-- AgentGrpcClient::queryVipStatus.
pub mod Login
pub mod Passwords
use aim_server.Common.{
  ℕ, ◌≤◌, Bool, true, false, not, ◌&&◌, ◌||◌, Option, none, some, List, [], ◌∷◌, ◌++◌,
  if◌then◌else◌, ltb, leb, ◌==◌, Bytes, is_empty, bytes_eq, ℤ, pos, eqb, text, length,
}
use aim_server.Env.{Env, Rpc, failed, answered, VerifyCodeRsp, VipStatusRsp}
use aim_server.Password.{verify_password}
use aim_server.Offline.{get_notify_msg_cache, get_chat_msg_cache}
use aim_server.Proto.{
  Protobuf, MessageContainer, CommonRsp, RegisterReq, LoginReq, LoginRsp, UpdateUserInfoReq,
  ModifyPasswordReq,
}
use aim_server.Users.User.{User, new_user}
use aim_server.Users.Manager.{
  Store, add_user, user_by_name, friend_infos, set_user_status, update_user_info, with_info,
  modify_user_password,
}
use aim_server.Session.State.{
  ClientSession, Clients, World, Outcome, done, crashed, common, user_info, reply, put, on_store,
  on_ext, send_raw_all, notify_users,
}

unfoldable pub is_name_char : ℕ → Bool
is_name_char c =
    (leb b'A' c && leb c b'Z')
    || ((leb b'a' c && leb c b'z') || ((leb b'0' c && leb c b'9') || (c == b'_')))

unfoldable pub all_name_chars : Bytes → Bool
all_name_chars [] = true
all_name_chars (c ∷ s) = is_name_char c && all_name_chars s

-- IsValidUsername.
unfoldable pub is_valid_username : Bytes → Bool
unfolding is_name_char all_name_chars
is_valid_username name =
    if ltb (length name) 3 || ltb 20 (length name) then false else all_name_chars name

-- MailGrpcClient::VerifyCode: `ok` and `msg` of its result.
unfoldable pub verify_code : (e : Env) → Bytes → Bytes → e.State → (Bool × Bytes) × e.State
verify_code e email code ext =
    let (rpc, ext') = e.stub_verify_code email code ext in
    elim rpc [
      | failed m ↦ ((false, text "gRPC error: " ++ m), ext')
      | answered rsp ↦ ((eqb rsp.code (pos 0), rsp.msg), ext')
    ]

-- AgentGrpcClient::queryVipStatus: whether it succeeds, and the status.
pub query_vip_status : (e : Env) → ℤ → e.State → (Bool × Bool) × e.State
query_vip_status e userid ext =
    let (rpc, ext') = e.stub_vip_status userid ext in
    elim rpc [
      | failed m ↦ ((false, false), ext')
      | answered rsp ↦ ((eqb rsp.code (pos 0), rsp.is_vip), ext')
    ]

-- The response to AddUser's result.
unfoldable pub add_user_rsp : ℕ → CommonRsp
add_user_rsp r =
    if r == 1
    then common (pos 105) (text "用户名已被占用")
    else if r == 2
    then common (pos 107) (text "该邮箱已注册")
    else if not (r == 0)
    then common (pos 100) (text "register failed!")
    else common (pos 0) (text "ok")

-- The account that a registration asks for.
abbrev pub account_of : RegisterReq → User
account_of req = record new_user {
  username = req.username;
  nickname = req.nickname;
  password = req.password;
  mail = req.email;
}

module _ (e : Env) where
  -- OnRegisterResponse behind the checks of the request.
  unfoldable pub register_verified : RegisterReq → World e → CommonRsp × World e
  register_verified req w =
      let (verdict, w1) = on_ext (verify_code e req.email req.code) w in
      let (ok, msg) = verdict in
      let (r, w2) = on_store (add_user e (account_of req)) w1 in
      if not w.clients.mail
      then (common (pos 104) (text "邮件服务未配置"), w)
      else if not ok
      then (common (pos 104) (if is_empty msg then text "验证码错误或已过期" else msg), w1)
      else (add_user_rsp r, w2)

  unfoldable pub register : Option RegisterReq → World e → CommonRsp × World e
  unfolding register_verified
  register none w = (common (pos 101) (text "protobuf parse failed!"), w)
  register (some req) w =
      if is_empty req.username
        || (is_empty req.nickname
            || (is_empty req.password || (is_empty req.email || is_empty req.code)))
      then (common (pos 102) (text "data field missing!"), w)
      else if not (is_valid_username req.username)
      then (common (pos 106) (text "用户名为3-20位字母、数字或下划线"), w)
      else if ltb 60 (length req.nickname)
      then (common (pos 106) (text "昵称过长"), w)
      else register_verified req w

  -- OnRegisterResponse (cmd 1001).
  unfoldable pub on_register :
      Protobuf → ClientSession → MessageContainer → World e → Outcome (World e)
  on_register pb s msg w =
      let (rsp, w') = register (pb.parse_register_req msg.payload) w in
      done (reply s (pos 1001) (pb.serialize_common_rsp rsp) w')

  abbrev no_user : ℤ → Bytes → LoginRsp
  no_user code msg = record { code = code; msg = msg; user = none; is_vip = false }

  -- The VIP status in a login response: false where the agent cannot be asked.
  unfoldable pub vip_of : ℤ → World e → Bool × World e
  vip_of userid w =
      let (answer, w') = on_ext (query_vip_status e userid) w in
      let (ok, vip) = answer in if w.clients.agent then (ok && vip, w') else (false, w)

  -- The checks of OnLoginResponse, and the session afterwards: m_user is set as soon as the name
  -- is known.
  unfoldable pub login :
      Option LoginReq → ClientSession → World e → LoginRsp × ClientSession × World e
  unfolding vip_of
  login none s w = (no_user (pos 101) (text "protobuf parse failed!"), s, w)
  login (some req) s w =
      if is_empty req.username || is_empty req.password
      then (no_user (pos 102) (text "data field missing!"), s, w)
      else elim (user_by_name req.username w.store.manager.cached_users) [
        | none ↦ (no_user (pos 103) (text "user is not exist or password is incorrect!"), s, w)
        | some u ↦
            let named = record s { user = some u } in
            let online = record s { user = some (record u { status = pos 1 }) } in
            let (vip, w1) = vip_of u.userid w in
            let (_, w2) = on_store (set_user_status e u.userid (pos 1)) w1 in
            if not (verify_password req.password u.password)
            then (
              no_user (pos 104) (text "user is not exist or password is incorrect!"),
              named,
              put named w,
            )
            else (
              record { code = pos 0; msg = text "ok"; user = some (user_info u); is_vip = vip },
              online,
              put online w2,
            )
      ]

  -- What OnLoginResponse reads from a store of messages and sends on.
  unfoldable pub send_read :
      Protobuf → ClientSession → (e.State → List Bytes × e.State) → World e → World e
  send_read pb s read w = let (blobs, w') = on_ext read w in send_raw_all pb s.sessionid blobs w'

  -- The notice to the friends.
  unfoldable pub tell_friends : Protobuf → User → World e → World e
  tell_friends pb u w = elim (friend_infos u.userid w.store.manager) [
    | none ↦ w
    | some friends ↦ notify_users pb friends u.userid (pos 1) [] w
  ]

  -- What follows the response of a successful login: stored notices, stored messages, and the
  -- notice to the friends.
  unfoldable pub after_login : Protobuf → ClientSession → User → World e → World e
  unfolding send_read tell_friends
  after_login pb s u w = tell_friends pb u (
      send_read pb s (get_chat_msg_cache e u.userid)
        (send_read pb s (get_notify_msg_cache e u.userid) w))

  -- The response of OnLoginResponse and what follows it. The log line at its end reads
  -- m_user->userid.
  unfoldable pub finish_login : Protobuf → LoginRsp × ClientSession × World e → Outcome (World e)
  finish_login pb (rsp, s, w) =
      let answered_w = reply s (pos 1002) (pb.serialize_login_rsp rsp) w in
      elim s.user [
        | none ↦ crashed
        | some u ↦
            if eqb rsp.code (pos 0) then done (after_login pb s u answered_w) else done answered_w
      ]

  -- OnLoginResponse (cmd 1002).
  unfoldable pub on_login :
      Protobuf → ClientSession → MessageContainer → World e → Outcome (World e)
  unfolding finish_login
  on_login pb s msg w = finish_login pb (login (pb.parse_login_req msg.payload) s w)

  -- The new values of OnUpdateUserInfoResponse: a field at its default keeps the old value.
  abbrev pub or_old : Bytes → Bytes → Bytes
  or_old new old = if is_empty new then old else new

  abbrev pub or_old_int : ℤ → ℤ → ℤ
  or_old_int new old = if eqb new (pos 0) then old else new

  pub merged_info : UpdateUserInfoReq → User → User
  merged_info req u = record new_user {
    nickname = or_old req.nickname u.nickname;
    facetype = or_old_int req.facetype u.facetype;
    customface = or_old req.customface u.customface;
    gender = or_old_int req.gender u.gender;
    birthday = or_old_int req.birthday u.birthday;
    signature = or_old req.signature u.signature;
    address = or_old req.address u.address;
    phonenumber = or_old req.phonenumber u.phonenumber;
    mail = or_old req.mail u.mail;
  }

  -- OnUpdateUserInfoResponse (cmd 1007).
  unfoldable pub on_update_user_info :
      Protobuf → ClientSession → MessageContainer → World e → Outcome (World e)
  on_update_user_info pb s msg w =
      let answer = λ (rsp : CommonRsp). reply {e = e} s (pos 1007) (pb.serialize_common_rsp rsp) in
      elim (pb.parse_update_user_info_req msg.payload) [
        | none ↦ done (answer (common (pos 101) (text "protobuf parse failed!")) w)
        | some req ↦ elim s.user [
          | none ↦ crashed
          | some u ↦
              let new = merged_info req u in
              let (ok, w') = on_store (update_user_info e u.userid new) w in
              if ok
              then done (
                  answer (common (pos 0) (text "ok"))
                    (put (record s { user = some (with_info new u) }) w'))
              else done (answer (common (pos 100) (text "update user info failed!")) w')
        ]
      ]

  -- OnModifyPasswordResponse (cmd 1008) behind the parsing, for a session with a user.
  unfoldable pub modify_password : ModifyPasswordReq → User → World e → CommonRsp × World e
  modify_password req u w =
      let (ok, w') = on_store (modify_user_password e u.userid req.newpassword) w in
      if not (verify_password req.oldpassword u.password)
      then (common (pos 103) (text "old password is incorrect!"), w)
      else if ok
      then (common (pos 0) (text "ok"), w')
      else (common (pos 100) (text "modify password failed!"), w')

  unfoldable pub on_modify_password :
      Protobuf → ClientSession → MessageContainer → World e → Outcome (World e)
  unfolding modify_password
  on_modify_password pb s msg w =
      let answer = λ (rsp : CommonRsp). reply {e = e} s (pos 1008) (pb.serialize_common_rsp rsp) in
      elim (pb.parse_modify_password_req msg.payload) [
        | none ↦ done (answer (common (pos 101) (text "protobuf parse failed!")) w)
        | some req ↦
            if is_empty req.oldpassword || is_empty req.newpassword
            then done (answer (common (pos 102) (text "invalid parameter!")) w)
            else elim s.user [
              | none ↦ crashed
              | some u ↦ let (rsp, w') = modify_password req u w in done (answer rsp w')
            ]
      ]
