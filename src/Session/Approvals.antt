-- ===== src/Session/Approvals.antt =====
-- The requests that wait for a user: listing them and deciding them
-- (IMServer/IMServer/ClientSession.cpp).
pub mod Decisions
pub mod Stored
use aim_server.Common.{
  Bool, true, false, not, Option, none, some, List, [], ◌∷◌, if◌then◌else◌, Bytes, ℤ, pos, eqb,
  text,
}
use aim_server.Env.{Env}
use aim_server.Proto.{
  Protobuf, MessageContainer, CommonRsp, FriendRequest, PendingRequestsRsp, HandleRequestReq,
}
use aim_server.Users.User.{User, FriendRequestInfo}
use aim_server.Users.Directory.{UserManager, find_user}
use aim_server.Users.Manager.{Store, make_friend_relationship}
use aim_server.Users.Requests.{
  get_pending_requests, get_friend_request_by_id, update_request_status,
}
use aim_server.Session.State.{
  ClientSession, World, Outcome, done, common, reply, on_store, on_ext, notify_user,
}
use aim_server.Session.Groups.{smaller, greater}

-- An entry of the list: names are added for a known sender, and for the group of an invitation.
pub pending_entry : UserManager → FriendRequestInfo → FriendRequest
pending_entry m r = record {
  reqid = r.reqid;
  fromid = r.fromid;
  fromname = elim (find_user r.fromid m) [ none ↦ [] | some u ↦ u.nickname ];
  fromface = elim (find_user r.fromid m) [ none ↦ [] | some u ↦ u.customface ];
  toid = r.toid;
  reqtype = r.reqtype;
  groupid = r.groupid;
  groupname =
      if eqb r.reqtype (pos 2)
      then elim (find_user r.groupid m) [ none ↦ [] | some g ↦ g.nickname ]
      else [];
  timestamp = r.createtime;
  message = r.message;
}

pub pending_entries : UserManager → List FriendRequestInfo → List FriendRequest
pending_entries m [] = []
pending_entries m (r ∷ rs) = pending_entry m r ∷ pending_entries m rs

module _ (e : Env) (pb : Protobuf) where
  -- OnPendingRequestsResponse (cmd 1016).
  unfoldable pub on_pending_requests :
      ClientSession → MessageContainer → World e → Outcome (World e)
  on_pending_requests s msg w =
      let answer = λ (rsp : PendingRequestsRsp).
        reply {e = e} s (pos 1016) (pb.serialize_pending_requests_rsp rsp) in
      elim s.user [
        | none ↦ done (answer (record { code = pos 1; msg = text "未登录"; requests = [] }) w)
        | some u ↦
            let (reqs, w') = on_ext (get_pending_requests e u.userid) w in
            done (
              answer
                (record {
                  code = pos 0;
                  msg = text "ok";
                  requests = pending_entries w.store.manager reqs;
                })
                w')
      ]

  -- An accepted request turned into a relationship of two ids, and the notice behind it: to whom,
  -- about whom, and of which type.
  unfoldable pub accept_link : ℤ → ℤ → Option (ℤ × ℤ × ℤ) → World e → Bool × World e
  accept_link a b notice w =
      let (ok, w') = on_store (make_friend_relationship e (smaller a b) (greater a b)) w in
      let told : World e = elim notice [
        | none ↦ w'
        | some (to, about, type) ↦ notify_user pb to about type [] w'
      ] in
      if ok then (true, told) else (false, w')

  -- The three kinds of request; any other kind fails.
  unfoldable pub accept_request : FriendRequestInfo → World e → Bool × World e
  unfolding accept_link
  accept_request r w =
      if eqb r.reqtype (pos 1)
      then accept_link r.fromid r.toid (some (r.fromid, r.toid, pos 4)) w
      else if eqb r.reqtype (pos 2)
      then accept_link r.toid r.groupid none w
      else if eqb r.reqtype (pos 3)
      then accept_link r.fromid r.groupid (some (r.fromid, r.groupid, pos 6)) w
      else (false, w)

  -- OnHandleRequestResponse for a request that is stored.
  unfoldable pub decide_request :
      HandleRequestReq → FriendRequestInfo → User → World e → CommonRsp × World e
  unfolding accept_request
  decide_request req r u w =
      let (_, rejected) = on_ext (update_request_status e r.reqid (pos 2)) w in
      let (ok, linked) = accept_request r w in
      let (_, accepted) = on_ext (update_request_status e r.reqid (pos 1)) linked in
      if not (eqb r.toid u.userid)
      then (common (pos 103) (text "无权处理该请求"), w)
      else if eqb req.action (pos 2)
      then (common (pos 0) (text "已拒绝"), rejected)
      else if ok
      then (common (pos 0) (text "已接受"), accepted)
      else (common (pos 100) (text "处理失败"), linked)

  unfoldable pub handle_request : HandleRequestReq → User → World e → CommonRsp × World e
  unfolding decide_request
  handle_request req u w =
      let (found, w') = on_ext (get_friend_request_by_id e req.reqid) w in
      elim found [
        | none ↦ (common (pos 102) (text "请求不存在"), w')
        | some r ↦ decide_request req r u w'
      ]

  -- OnHandleRequestResponse (cmd 1017).
  unfoldable pub on_handle_request : ClientSession → MessageContainer → World e → Outcome (World e)
  unfolding handle_request
  on_handle_request s msg w =
      let answer = λ (rsp : CommonRsp). reply {e = e} s (pos 1017) (pb.serialize_common_rsp rsp) in
      elim s.user [
        | none ↦ done (answer (common (pos 1) (text "未登录")) w)
        | some u ↦ elim (pb.parse_handle_request_req msg.payload) [
          | none ↦ done (answer (common (pos 101) (text "解析请求失败")) w)
          | some req ↦ let (rsp, w') = handle_request req u w in done (answer rsp w')
        ]
      ]
