-- ===== src/Session/Friends.antt =====
-- The handlers for friends and for the requests that wait for approval
-- (IMServer/IMServer/ClientSession.cpp).
use aim_server.Common.{
  not, ◌||◌, Option, none, some, List, [], ◌∷◌, if◌then◌else◌, Bytes, bytes_eq, ℤ, pos, eqb, ltb_ℤ,
  leb_ℤ, text,
}
use aim_server.Env.{Env}
use aim_server.Proto.{
  Protobuf, MessageContainer, CommonRsp, UserInfo, FriendListRsp, FindUserReq, FindUserRsp,
  OperateFriendReq, SendRequestReq,
}
use aim_server.Text.Decimal.{stoi}
use aim_server.Users.User.{User, group_boundary}
use aim_server.Users.Directory.{UserManager, find_user}
use aim_server.Users.Manager.{
  make_friend_relationship, delete_friend_to_user, friend_infos, is_friend, user_by_name, knows,
}
use aim_server.Users.Requests.{add_friend_request}
use aim_server.Session.State.{
  ClientSession, World, Outcome, done, crashed, common, user_info, container, send, reply, on_store,
  on_ext, find_session, notify_user,
}
use aim_server.Session.Groups.{smaller, greater}

friend_entries : List User → List UserInfo
friend_entries [] = []
friend_entries (u ∷ us) =
    record (user_info u) {
      clienttype = pos 1;
      status = if eqb u.status (pos 0) then pos 0 else pos 1;
      ownerid = u.ownerid;
    }
    ∷ friend_entries us

-- OnGetFriendListResponse for a session with a user.
pub friend_list : ℤ → UserManager → FriendListRsp
friend_list userid m = record {
  code = pos 0;
  msg = text "ok";
  friends = elim (friend_infos userid m) [ none ↦ [] | some us ↦ friend_entries us ];
}

-- The answer of OnFindUserResponse to what the search has found.
pub found_user : Option User → FindUserRsp
found_user none = record { code = pos 103; msg = text "user not found!"; user = none }
found_user (some u) =
    if leb_ℤ group_boundary u.userid
    then record { code = pos 105; msg = text "cannot search for group!"; user = none }
    else record {
      code = pos 0;
      msg = text "ok";
      user = some (record (user_info u) { status = u.status });
    }

-- The search; an exception of stoi is a crash.
pub find_user_rsp : FindUserReq → UserManager → Outcome FindUserRsp
find_user_rsp req m =
    if bytes_eq req.type (text "username")
    then done (found_user (user_by_name req.keyword m.cached_users))
    else if bytes_eq req.type (text "userid")
    then elim (stoi req.keyword) [ none ↦ crashed | some id ↦ done (found_user (find_user id m)) ]
    else done (found_user none)

module _ (e : Env) (pb : Protobuf) where
  -- cmd 1003.
  unfoldable pub on_get_friend_list : ClientSession → MessageContainer → World e → Outcome (World e)
  on_get_friend_list s msg w = elim s.user [
    | none ↦ crashed
    | some u ↦
        done (
          reply s (pos 1003) (pb.serialize_friend_list_rsp (friend_list u.userid w.store.manager))
            w)
  ]

  -- OnFindUserResponse (cmd 1004).
  unfoldable pub on_find_user : ClientSession → MessageContainer → World e → Outcome (World e)
  on_find_user s msg w =
      let answer =
        λ (rsp : FindUserRsp). reply {e = e} s (pos 1004) (pb.serialize_find_user_rsp rsp) in
      elim (pb.parse_find_user_req msg.payload) [
        | none ↦
            done (
              answer (record { code = pos 101; msg = text "protobuf parse failed!"; user = none })
                w)
        | some req ↦ elim (find_user_rsp req w.store.manager) [
          | crashed ↦ crashed
          | done rsp ↦ done (answer rsp w)
        ]
      ]

  -- Type 1 of OnOperateFriendResponse: friendship at once.
  unfoldable pub add_friend : ℤ → ℤ → World e → CommonRsp × World e
  add_friend userid friendid w =
      let (ok, w') =
        on_store (make_friend_relationship e (smaller userid friendid) (greater userid friendid))
          w in
      if ok
      then (common (pos 0) (text "ok"), notify_user pb friendid userid (pos 4) [] w')
      else (common (pos 100) (text "add friend failed!"), w')

  -- Type 2: the friendship ends, and DeleteFriend tells the other user.
  unfoldable pub delete_friend : ℤ → ℤ → World e → CommonRsp × World e
  delete_friend userid friendid w =
      let (ok, w') = on_store (delete_friend_to_user e userid friendid) w in
      if ok
      then (common (pos 0) (text "ok"), notify_user pb friendid userid (pos 3) [] w')
      else (common (pos 100) (text "delete friend failed!"), w')

  -- Type 3: a user enters a group at once.
  unfoldable pub invite_to_group : ℤ → ℤ → World e → CommonRsp × World e
  invite_to_group friendid groupid w =
      let (ok, w') =
        on_store (make_friend_relationship e (smaller friendid groupid) (greater friendid groupid))
          w in
      if ltb_ℤ groupid group_boundary
      then (common (pos 104) (text "invalid group id!"), w)
      else if ok
      then (common (pos 0) (text "ok"), w')
      else (common (pos 100) (text "invite to group failed!"), w')

  -- OnOperateFriendResponse behind the parsing.
  unfoldable pub operate_friend :
      OperateFriendReq → ℤ → Option User → World e → Outcome (CommonRsp × World e)
  unfolding add_friend delete_friend invite_to_group
  operate_friend req target_id user w =
      if eqb req.type (pos 1)
      then if leb_ℤ group_boundary req.friendid
        then done (common (pos 106) (text "cannot add group as friend!"), w)
        else elim user [ none ↦ crashed | some u ↦ done (add_friend u.userid req.friendid w) ]
      else if eqb req.type (pos 2)
      then elim user [ none ↦ crashed | some u ↦ done (delete_friend u.userid req.friendid w) ]
      else if eqb req.type (pos 3)
      then done (invite_to_group req.friendid target_id w)
      else done (common (pos 103) (text "unknown operation type!"), w)

  -- cmd 1005.
  unfoldable pub on_operate_friend : ClientSession → MessageContainer → World e → Outcome (World e)
  unfolding operate_friend
  on_operate_friend s msg w =
      let answer = λ (rsp : CommonRsp). reply {e = e} s (pos 1005) (pb.serialize_common_rsp rsp) in
      elim (pb.parse_operate_friend_req msg.payload) [
        | none ↦ done (answer (common (pos 101) (text "protobuf parse failed!")) w)
        | some req ↦ elim (operate_friend req msg.target_id s.user w) [
          | crashed ↦ crashed
          | done (rsp, w') ↦ done (answer rsp w')
        ]
      ]

  -- PushNewRequest (cmd 1018) to whoever is connected as a user.
  unfoldable pub push_new_request : ℤ → ℤ → User → ℤ → ℤ → Bytes → Bytes → World e → World e
  push_new_request to reqid from reqtype groupid groupname message w =
      elim (find_session to w.sessions) [
        | none ↦ w
        | some t ↦
            let (now, w') = on_ext e.time w in
            let toid : ℤ = elim t.user [ none ↦ pos 0 | some u ↦ u.userid ] in
            send t.sessionid
              (container (pos 1018) (pos 0) (
                pb.serialize_friend_request (record {
                  reqid = reqid;
                  fromid = from.userid;
                  fromname = from.nickname;
                  fromface = from.customface;
                  toid = toid;
                  reqtype = reqtype;
                  groupid = groupid;
                  groupname = groupname;
                  timestamp = now;
                  message = message;
                })))
              w'
      ]

  -- A request is stored, and its receiver hears of it.
  unfoldable pub store_request :
      ℤ → User → ℤ → ℤ → Bytes → Bytes → Bytes → Bytes → World e → CommonRsp × World e
  unfolding push_new_request
  store_request to from reqtype groupid groupname message sent not_sent w =
      let (id, w') = on_ext (add_friend_request e from.userid to reqtype groupid message) w in
      elim id [
        | none ↦ (common (pos 100) not_sent, w')
        | some reqid ↦ (
          common (pos 0) sent,
          push_new_request to reqid from reqtype groupid groupname message w',
        )
      ]

  -- OnSendRequestResponse for a friendship.
  unfoldable pub request_friend : SendRequestReq → User → World e → CommonRsp × World e
  unfolding store_request
  request_friend req u w =
      if eqb req.targetid u.userid
      then (common (pos 102) (text "不能添加自己"), w)
      else if leb_ℤ group_boundary req.targetid
      then (common (pos 103) (text "不能把群加为好友"), w)
      else if not (knows w.store.manager req.targetid)
      then (common (pos 104) (text "用户不存在"), w)
      else if is_friend u.userid req.targetid w.store.manager
      then (common (pos 105) (text "对方已是你的好友"), w)
      else store_request req.targetid u (pos 1) (pos 0) [] req.message (text "好友请求已发送，等待对方同意")
          (text "发送请求失败") w

  -- For an invitation into a group.
  unfoldable pub request_invitation : SendRequestReq → User → World e → CommonRsp × World e
  unfolding store_request
  request_invitation req u w = elim (find_user req.groupid w.store.manager) [
    | none ↦ (common (pos 104) (text "群不存在"), w)
    | some g ↦
        if ltb_ℤ req.groupid group_boundary
        then (common (pos 104) (text "群不存在"), w)
        else if not (knows w.store.manager req.targetid) || leb_ℤ group_boundary req.targetid
        then (common (pos 104) (text "用户不存在"), w)
        else if is_friend req.targetid req.groupid w.store.manager
        then (common (pos 105) (text "对方已在群中"), w)
        else store_request req.targetid u (pos 2) req.groupid g.nickname req.message
            (text "入群邀请已发送，等待对方同意") (text "发送邀请失败") w
  ]

  -- For an application to a group, which its owner decides.
  unfoldable pub request_entry : SendRequestReq → User → World e → CommonRsp × World e
  unfolding store_request
  request_entry req u w = elim (find_user req.groupid w.store.manager) [
    | none ↦ (common (pos 104) (text "群不存在"), w)
    | some g ↦
        if ltb_ℤ req.groupid group_boundary
        then (common (pos 104) (text "群不存在"), w)
        else if is_friend u.userid req.groupid w.store.manager
        then (common (pos 105) (text "你已在群中"), w)
        else if eqb g.ownerid u.userid
        then (common (pos 106) (text "你是群主，无需申请"), w)
        else store_request g.ownerid u (pos 3) req.groupid g.nickname req.message
            (text "入群申请已发送，等待群主同意") (text "发送申请失败") w
  ]

  unfoldable pub send_request : SendRequestReq → User → World e → CommonRsp × World e
  unfolding request_friend request_invitation request_entry
  send_request req u w =
      if eqb req.reqtype (pos 1)
      then request_friend req u w
      else if eqb req.reqtype (pos 2)
      then request_invitation req u w
      else if eqb req.reqtype (pos 3)
      then request_entry req u w
      else (common (pos 103) (text "未知请求类型"), w)

  -- OnSendRequestResponse (cmd 1015).
  unfoldable pub on_send_request : ClientSession → MessageContainer → World e → Outcome (World e)
  unfolding send_request
  on_send_request s msg w =
      let answer = λ (rsp : CommonRsp). reply {e = e} s (pos 1015) (pb.serialize_common_rsp rsp) in
      elim s.user [
        | none ↦ done (answer (common (pos 1) (text "未登录")) w)
        | some u ↦ elim (pb.parse_send_request_req msg.payload) [
          | none ↦ done (answer (common (pos 101) (text "解析请求失败")) w)
          | some req ↦ let (rsp, w') = send_request req u w in done (answer rsp w')
        ]
      ]
