-- ===== src/Session/Isolation/Friends.antt =====
-- The handlers for friends and requests, and the session table
-- (IMServer/IMServer/ClientSession.cpp).
use aim_server.Common.{
  not, ◌||◌, Option, List, Bytes, ℤ, pos, eqb, ltb_ℤ, leb_ℤ, if-elim, Option-elim, Outcome, done,
  crashed,
}
use aim_server.Env.{Env}
use aim_server.Proto.{
  Protobuf, MessageContainer, OperateFriendReq, SendRequestReq, CommonRsp, FindUserRsp,
}
use aim_server.Users.User.{User, group_boundary}
use aim_server.Users.Directory.{find_user}
use aim_server.Users.Manager.{make_friend_relationship, delete_friend_to_user, is_friend, knows}
use aim_server.Users.Requests.{add_friend_request}
use aim_server.Session.State.{ClientSession, World, reply, on_store, on_ext, find_session}
use aim_server.Session.Groups.{smaller, greater}
use aim_server.Session.Friends.{
  find_user_rsp, add_friend, delete_friend, invite_to_group, operate_friend, push_new_request,
  store_request, request_friend, request_invitation, request_entry, send_request,
  on_get_friend_list, on_find_user, on_operate_friend, on_send_request,
}
use aim_server.Session.Isolation.Pushes.{Touches, Within, Beside, notify_user-Touches}

module _ (e : Env) (pb : Protobuf) (id : Bytes) (m : List (Bytes × ClientSession)) where
  add_friend-Touches :
      (a b : ℤ) (w : World e) → Touches id m w.sessions → Beside id m (add_friend e pb a b w)
  unfolding add_friend
  add_friend-Touches a b w h =
      if-elim (Beside id m) (on_store (make_friend_relationship e (smaller a b) (greater a b)) w).0
        _ _ (λ _. notify_user-Touches pb b a (pos 4) _ _ h) (λ _. h)

  delete_friend-Touches :
      (a b : ℤ) (w : World e) → Touches id m w.sessions → Beside id m (delete_friend e pb a b w)
  unfolding delete_friend
  delete_friend-Touches a b w h =
      if-elim (Beside id m) (on_store (delete_friend_to_user e a b) w).0 _ _
        (λ _. notify_user-Touches pb b a (pos 3) _ _ h) (λ _. h)

  invite_to_group-Touches :
      (a g : ℤ) (w : World e) → Touches id m w.sessions → Beside id m (invite_to_group e pb a g w)
  unfolding invite_to_group
  invite_to_group-Touches a g w h =
      if-elim (Beside id m) (ltb_ℤ g group_boundary) _ _ (λ _. h)
        (λ _.
          if-elim (Beside id m)
            (on_store (make_friend_relationship e (smaller a g) (greater a g)) w).0 _ _ (λ _. h)
            (λ _. h))

  abbrev Finished : Outcome (CommonRsp × World e) → Type 0
  Finished crashed = Unit
  Finished (done r) = Beside id m r

  operate_friend-Touches :
      (req : OperateFriendReq) (target : ℤ) (user : Option User) (w : World e)
      → Touches id m w.sessions
      → Finished (operate_friend e pb req target user w)
  unfolding operate_friend
  operate_friend-Touches req target user w h =
      if-elim Finished (eqb req.type (pos 1)) _ _
        (λ _.
          if-elim Finished (leb_ℤ group_boundary req.friendid) _ _ (λ _. h)
            (λ _. Option-elim Finished user tt (λ u. add_friend-Touches u.userid req.friendid w h)))
        (λ _.
          if-elim Finished (eqb req.type (pos 2)) _ _
            (λ _.
              Option-elim Finished user tt (λ u. delete_friend-Touches u.userid req.friendid w h))
            (λ _.
              if-elim Finished (eqb req.type (pos 3)) _ _
                (λ _. invite_to_group-Touches req.friendid target w h) (λ _. h)))

  push_new_request-Touches :
      (to reqid : ℤ) (from : User) (type group : ℤ) (name message : Bytes) (w : World e)
      → Touches id m w.sessions
      → Touches id m (push_new_request e pb to reqid from type group name message w).sessions
  unfolding push_new_request
  push_new_request-Touches to reqid from type group name message w h =
      Option-elim (λ (v : World e). Touches id m v.sessions) (find_session to w.sessions) h (λ t. h)

  store_request-Touches :
      (to : ℤ) (from : User) (type group : ℤ) (name message sent not_sent : Bytes) (w : World e)
      → Touches id m w.sessions
      → Beside id m (store_request e pb to from type group name message sent not_sent w)
  unfolding store_request
  store_request-Touches to from type group name message sent not_sent w h =
      Option-elim (Beside id m)
        (on_ext (add_friend_request e from.userid to type group message) w).0 h
        (λ reqid. push_new_request-Touches to reqid from type group name message _ h)

  request_friend-Touches :
      (req : SendRequestReq) (u : User) (w : World e)
      → Touches id m w.sessions
      → Beside id m (request_friend e pb req u w)
  unfolding request_friend
  request_friend-Touches req u w h =
      if-elim (Beside id m) (eqb req.targetid u.userid) _ _ (λ _. h)
        (λ _.
          if-elim (Beside id m) (leb_ℤ group_boundary req.targetid) _ _ (λ _. h)
            (λ _.
              if-elim (Beside id m) (not (knows w.store.manager req.targetid)) _ _ (λ _. h)
                (λ _.
                  if-elim (Beside id m) (is_friend u.userid req.targetid w.store.manager) _ _
                    (λ _. h) (λ _. store_request-Touches _ u _ _ _ _ _ _ w h))))

  request_invitation-Touches :
      (req : SendRequestReq) (u : User) (w : World e)
      → Touches id m w.sessions
      → Beside id m (request_invitation e pb req u w)
  unfolding request_invitation
  request_invitation-Touches req u w h =
      Option-elim (Beside id m) (find_user req.groupid w.store.manager) h (λ g.
        if-elim (Beside id m) (ltb_ℤ req.groupid group_boundary) _ _ (λ _. h)
          (λ _.
            if-elim (Beside id m)
              (not (knows w.store.manager req.targetid) || leb_ℤ group_boundary req.targetid) _ _
              (λ _. h)
              (λ _.
                if-elim (Beside id m) (is_friend req.targetid req.groupid w.store.manager) _ _
                  (λ _. h) (λ _. store_request-Touches _ u _ _ _ _ _ _ w h))))

  request_entry-Touches :
      (req : SendRequestReq) (u : User) (w : World e)
      → Touches id m w.sessions
      → Beside id m (request_entry e pb req u w)
  unfolding request_entry
  request_entry-Touches req u w h =
      Option-elim (Beside id m) (find_user req.groupid w.store.manager) h (λ g.
        if-elim (Beside id m) (ltb_ℤ req.groupid group_boundary) _ _ (λ _. h)
          (λ _.
            if-elim (Beside id m) (is_friend u.userid req.groupid w.store.manager) _ _ (λ _. h)
              (λ _.
                if-elim (Beside id m) (eqb g.ownerid u.userid) _ _ (λ _. h)
                  (λ _. store_request-Touches _ u _ _ _ _ _ _ w h))))

  send_request-Touches :
      (req : SendRequestReq) (u : User) (w : World e)
      → Touches id m w.sessions
      → Beside id m (send_request e pb req u w)
  unfolding send_request
  send_request-Touches req u w h =
      if-elim (Beside id m) (eqb req.reqtype (pos 1)) _ _ (λ _. request_friend-Touches req u w h)
        (λ _.
          if-elim (Beside id m) (eqb req.reqtype (pos 2)) _ _
            (λ _. request_invitation-Touches req u w h)
            (λ _.
              if-elim (Beside id m) (eqb req.reqtype (pos 3)) _ _
                (λ _. request_entry-Touches req u w h) (λ _. h)))

  module _ (s : ClientSession) (msg : MessageContainer) (w : World e)
      (h : Touches id m w.sessions) where
    pub on_get_friend_list-Touches : Within id m (on_get_friend_list e pb s msg w)
    unfolding on_get_friend_list
    on_get_friend_list-Touches = Option-elim (Within id m) s.user tt (λ u. h)

    abbrev Found : Outcome FindUserRsp → Type 0
    Found r = Within {e = e} id m (elim r [
      | crashed ↦ crashed
      | done rsp ↦ done (reply s (pos 1004) (pb.serialize_find_user_rsp rsp) w)
    ])

    Found-Touches : (r : Outcome FindUserRsp) → Found r
    Found-Touches crashed = tt
    Found-Touches (done rsp) = h

    pub on_find_user-Touches : Within id m (on_find_user e pb s msg w)
    unfolding on_find_user
    on_find_user-Touches =
        Option-elim (Within id m) (pb.parse_find_user_req msg.payload) h
          (λ req. Found-Touches (find_user_rsp req w.store.manager))

    abbrev Operated : Outcome (CommonRsp × World e) → Type 0
    Operated r = Within {e = e} id m (elim r [
      | crashed ↦ crashed
      | done (rsp, w') ↦ done (reply s (pos 1005) (pb.serialize_common_rsp rsp) w')
    ])

    Operated-Touches : (r : Outcome (CommonRsp × World e)) → Finished r → Operated r
    Operated-Touches crashed f = tt
    Operated-Touches (done (rsp, w')) f = f

    pub on_operate_friend-Touches : Within id m (on_operate_friend e pb s msg w)
    unfolding on_operate_friend
    on_operate_friend-Touches =
        Option-elim (Within id m) (pb.parse_operate_friend_req msg.payload) h (λ req.
          Operated-Touches (operate_friend e pb req msg.target_id s.user w)
            (operate_friend-Touches req msg.target_id s.user w h))

    pub on_send_request-Touches : Within id m (on_send_request e pb s msg w)
    unfolding on_send_request
    on_send_request-Touches = Option-elim (Within id m) s.user h (λ u.
        Option-elim (Within id m) (pb.parse_send_request_req msg.payload) h
          (λ req. send_request-Touches req u w h))
