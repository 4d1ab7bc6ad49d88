-- ===== src/Session/Isolation/Groups.antt =====
-- The handlers for groups and for deciding requests, and the session table
-- (IMServer/IMServer/ClientSession.cpp).
use aim_server.Common.{
  not, ◌||◌, Option, none, some, List, Bytes, is_empty, ℤ, pos, eqb, ltb_ℤ, ltb, length, if-elim,
  Option-elim, c_string,
}
use aim_server.Env.{Env}
use aim_server.Proto.{
  Protobuf, MessageContainer, CreateGroupReq, KickGroupMemberReq, RenameGroupReq, SetGroupAdminReq,
  HandleRequestReq,
}
use aim_server.Users.User.{User, FriendRequestInfo, group_boundary}
use aim_server.Users.Directory.{find_user}
use aim_server.Users.Manager.{
  make_friend_relationship, release_friend_relationship, add_group, rename_group, set_group_admin,
  is_friend, friend_infos,
}
use aim_server.Users.Requests.{get_friend_request_by_id}
use aim_server.Session.State.{ClientSession, World, on_store, on_ext}
use aim_server.Session.Groups.{
  smaller, greater, can_manage, add_to_group, create_group, kick_group_member, rename, set_admin,
  on_create_group, on_get_group_members, on_kick_group_member, on_rename_group, on_set_group_admin,
}
use aim_server.Session.Approvals.{
  accept_link, accept_request, decide_request, handle_request, on_pending_requests,
  on_handle_request,
}
use aim_server.Session.Isolation.Pushes.{
  Touches, Within, Beside, notify_user-Touches, notify_others-Touches,
}

module _ (e : Env) (pb : Protobuf) (id : Bytes) (m : List (Bytes × ClientSession)) where
  create_group-Touches :
      (req : CreateGroupReq) (u : User) (w : World e)
      → Touches id m w.sessions
      → Beside id m (create_group e req u w)
  unfolding create_group add_to_group
  create_group-Touches req u w h =
      if-elim (Beside id m) (add_group e (c_string req.groupname) u.userid w.store).0 _ _ (λ _. h)
        (λ _. h)

  kick_group_member-Touches :
      (req : KickGroupMemberReq) (u : User) (w : World e)
      → Touches id m w.sessions
      → Beside id m (kick_group_member e pb req u w)
  unfolding kick_group_member
  kick_group_member-Touches req u w h =
      Option-elim (Beside id m) (find_user req.groupid w.store.manager) h (λ g.
        if-elim (Beside id m) (ltb_ℤ req.groupid group_boundary) _ _ (λ _. h)
          (λ _.
            if-elim (Beside id m) (not (eqb g.ownerid u.userid)) _ _ (λ _. h)
              (λ _.
                if-elim (Beside id m) (eqb req.memberid g.ownerid) _ _ (λ _. h)
                  (λ _.
                    if-elim (Beside id m) (not (is_friend req.memberid req.groupid w.store.manager))
                      _ _ (λ _. h)
                      (λ _.
                        if-elim (Beside id m)
                          (on_store (release_friend_relationship e req.memberid req.groupid) w).0 _
                          _ (λ _. notify_user-Touches pb _ _ _ _ _ h) (λ _. h))))))

  set_admin-Touches :
      (req : SetGroupAdminReq) (u : User) (w : World e)
      → Touches id m w.sessions
      → Beside id m (set_admin e pb req u w)
  unfolding set_admin
  set_admin-Touches req u w h =
      Option-elim (Beside id m) (find_user req.groupid w.store.manager) h (λ g.
        if-elim (Beside id m) (ltb_ℤ req.groupid group_boundary) _ _ (λ _. h)
          (λ _.
            if-elim (Beside id m) (not (eqb g.ownerid u.userid)) _ _ (λ _. h)
              (λ _.
                if-elim (Beside id m) (eqb req.memberid g.ownerid) _ _ (λ _. h)
                  (λ _.
                    if-elim (Beside id m) (not (is_friend req.memberid req.groupid w.store.manager))
                      _ _ (λ _. h)
                      (λ _.
                        if-elim (Beside id m)
                          (on_store (set_group_admin e req.groupid req.memberid req.is_admin) w).0 _
                          _ (λ _. notify_user-Touches pb _ _ _ _ _ h) (λ _. h))))))

  rename-Touches :
      (req : RenameGroupReq) (u : User) (w : World e)
      → Touches id m w.sessions
      → Beside id m (rename e pb req u w)
  unfolding rename
  rename-Touches req u w h =
      let (ok, w') = on_store (rename_group e req.groupid req.newname) w in
      if-elim (Beside id m) (is_empty req.newname || ltb 64 (length req.newname)) _ _ (λ _. h)
        (λ _. Option-elim (Beside id m) (find_user req.groupid w.store.manager) h (λ g.
          if-elim (Beside id m) (ltb_ℤ req.groupid group_boundary) _ _ (λ _. h)
            (λ _.
              if-elim (Beside id m) (not (can_manage req.groupid u.userid w.store.manager)) _ _
                (λ _. h)
                (λ _.
                  if-elim (Beside id m) ok _ _
                    (λ _.
                      Option-elim (λ (v : World e). Touches id m v.sessions)
                        (friend_infos req.groupid w'.store.manager) h
                        (λ members. notify_others-Touches pb u.userid members _ _ _ _ h))
                    (λ _. h)))))

  accept_link-Touches :
      (a b : ℤ) (notice : Option (ℤ × ℤ × ℤ)) (w : World e)
      → Touches id m w.sessions
      → Beside id m (accept_link e pb a b notice w)
  unfolding accept_link
  accept_link-Touches a b notice w h =
      if-elim (Beside id m) (on_store (make_friend_relationship e (smaller a b) (greater a b)) w).0
        _ _
        (λ _.
          Option-elim (λ (v : World e). Touches id m v.sessions) notice h
            (λ n. notify_user-Touches pb _ _ _ _ _ h))
        (λ _. h)

  accept_request-Touches :
      (r : FriendRequestInfo) (w : World e)
      → Touches id m w.sessions
      → Beside id m (accept_request e pb r w)
  unfolding accept_request
  accept_request-Touches r w h =
      if-elim (Beside id m) (eqb r.reqtype (pos 1)) _ _
        (λ _. accept_link-Touches r.fromid r.toid (some (r.fromid, r.toid, pos 4)) w h)
        (λ _.
          if-elim (Beside id m) (eqb r.reqtype (pos 2)) _ _
            (λ _. accept_link-Touches r.toid r.groupid none w h)
            (λ _.
              if-elim (Beside id m) (eqb r.reqtype (pos 3)) _ _
                (λ _.
                  accept_link-Touches r.fromid r.groupid (some (r.fromid, r.groupid, pos 6)) w h)
                (λ _. h)))

  decide_request-Touches :
      (req : HandleRequestReq) (r : FriendRequestInfo) (u : User) (w : World e)
      → Touches id m w.sessions
      → Beside id m (decide_request e pb req r u w)
  unfolding decide_request
  decide_request-Touches req r u w h =
      let linked = accept_request-Touches r w h in
      if-elim (Beside id m) (not (eqb r.toid u.userid)) _ _ (λ _. h)
        (λ _.
          if-elim (Beside id m) (eqb req.action (pos 2)) _ _ (λ _. h)
            (λ _.
              if-elim (Beside id m) (accept_request e pb r w).0 _ _ (λ _. linked) (λ _. linked)))

  handle_request-Touches :
      (req : HandleRequestReq) (u : User) (w : World e)
      → Touches id m w.sessions
      → Beside id m (handle_request e pb req u w)
  unfolding handle_request
  handle_request-Touches req u w h =
      Option-elim (Beside id m) (on_ext (get_friend_request_by_id e req.reqid) w).0 h
        (λ r. decide_request-Touches req r u _ h)

  module _ (s : ClientSession) (msg : MessageContainer) (w : World e)
      (h : Touches id m w.sessions) where
    pub on_create_group-Touches : Within id m (on_create_group e pb s msg w)
    unfolding on_create_group
    on_create_group-Touches =
        Option-elim (Within id m) (pb.parse_create_group_req msg.payload) h (λ req.
          if-elim (Within id m) (is_empty req.groupname) _ _ (λ _. h)
            (λ _. Option-elim (Within id m) s.user tt (λ u. create_group-Touches req u w h)))

    pub on_get_group_members-Touches : Within id m (on_get_group_members e pb s msg w)
    unfolding on_get_group_members
    on_get_group_members-Touches = h

    pub on_kick_group_member-Touches : Within id m (on_kick_group_member e pb s msg w)
    unfolding on_kick_group_member
    on_kick_group_member-Touches = Option-elim (Within id m) s.user h (λ u.
        Option-elim (Within id m) (pb.parse_kick_group_member_req msg.payload) h
          (λ req. kick_group_member-Touches req u w h))

    pub on_rename_group-Touches : Within id m (on_rename_group e pb s msg w)
    unfolding on_rename_group
    on_rename_group-Touches = Option-elim (Within id m) s.user h (λ u.
        Option-elim (Within id m) (pb.parse_rename_group_req msg.payload) h
          (λ req. rename-Touches req u w h))

    pub on_set_group_admin-Touches : Within id m (on_set_group_admin e pb s msg w)
    unfolding on_set_group_admin
    on_set_group_admin-Touches = Option-elim (Within id m) s.user h (λ u.
        Option-elim (Within id m) (pb.parse_set_group_admin_req msg.payload) h
          (λ req. set_admin-Touches req u w h))

    pub on_pending_requests-Touches : Within id m (on_pending_requests e pb s msg w)
    unfolding on_pending_requests
    on_pending_requests-Touches = Option-elim (Within id m) s.user h (λ u. h)

    pub on_handle_request-Touches : Within id m (on_handle_request e pb s msg w)
    unfolding on_handle_request
    on_handle_request-Touches = Option-elim (Within id m) s.user h (λ u.
        Option-elim (Within id m) (pb.parse_handle_request_req msg.payload) h
          (λ req. handle_request-Touches req u w h))
