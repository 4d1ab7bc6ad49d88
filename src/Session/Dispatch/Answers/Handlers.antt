-- ===== src/Session/Dispatch/Answers/Handlers.antt =====
-- The responses of the single handlers (IMServer/IMServer/ClientSession.cpp), for a session with a
-- user.
use aim_server.Common.{
  ◌≡◌, refl, not, ◌||◌, some, Bytes, is_empty, ℤ, pos, eqb, if-elim, Option-elim, Outcome, done,
  leb_ℤ,
}
use aim_server.Env.{Env}
use aim_server.Proto.{Protobuf, MessageContainer, OperateFriendReq, CommonRsp}
use aim_server.Users.User.{User, group_boundary}
use aim_server.Users.Manager.{update_user_info}
use aim_server.Session.State.{ClientSession, World, reply, on_store}
use aim_server.Session.Account.{on_register, merged_info, on_update_user_info, on_modify_password}
use aim_server.Session.Groups.{
  on_create_group, on_get_group_members, on_kick_group_member, on_rename_group, on_set_group_admin,
}
use aim_server.Session.Friends.{
  on_get_friend_list, on_operate_friend, operate_friend, on_send_request,
}
use aim_server.Session.Approvals.{on_pending_requests, on_handle_request}
use aim_server.Session.Chat.{on_get_chat_history}
use aim_server.Session.Services.{on_send_email_code, on_upgrade_vip, on_avatar_upload}
use aim_server.Session.Dispatch.{on_heartbeat}

module _ {e : Env} where
  -- The process goes on, and the last message out is the response.
  abbrev pub Answers : ClientSession → ℤ → Outcome (World e) → Type 0
  Answers s cmd o = (payload : Bytes) × (w : World e) × (o ≡ done (reply s cmd payload w))

  answered :
      (s : ClientSession) (cmd : ℤ) (payload : Bytes) (w : World e)
      → Answers s cmd (done (reply s cmd payload w))
  answered s cmd payload w = (payload, w, refl)

-- A session with a user.
abbrev pub logged_in : ClientSession → User → ClientSession
logged_in s u = record s { user = some u }

module _ (e : Env) (pb : Protobuf) (s : ClientSession) (u : User) (msg : MessageContainer)
    (w : World e) where
  pub on_heartbeat-Answers :
      Answers (logged_in s u) (pos 1000) (on_heartbeat e pb (logged_in s u) msg w)
  unfolding on_heartbeat
  on_heartbeat-Answers = answered (logged_in s u) (pos 1000) _ _

  pub on_register-Answers :
      Answers (logged_in s u) (pos 1001) (on_register e pb (logged_in s u) msg w)
  unfolding on_register
  on_register-Answers = answered (logged_in s u) (pos 1001) _ _

  pub on_get_friend_list-Answers :
      Answers (logged_in s u) (pos 1003) (on_get_friend_list e pb (logged_in s u) msg w)
  unfolding on_get_friend_list
  on_get_friend_list-Answers = answered (logged_in s u) (pos 1003) _ _

  pub on_get_group_members-Answers :
      Answers (logged_in s u) (pos 1010) (on_get_group_members e pb (logged_in s u) msg w)
  unfolding on_get_group_members
  on_get_group_members-Answers = answered (logged_in s u) (pos 1010) _ _

  pub on_get_chat_history-Answers :
      Answers (logged_in s u) (pos 1011) (on_get_chat_history e pb (logged_in s u) msg w)
  unfolding on_get_chat_history
  on_get_chat_history-Answers =
      Option-elim (Answers (logged_in s u) (pos 1011)) (pb.parse_chat_history_req msg.payload)
        (answered (logged_in s u) (pos 1011) _ _)
        (λ req.
          Option-elim (Answers (logged_in s u) (pos 1011)) _
            (answered (logged_in s u) (pos 1011) _ _)
            (λ msgs. answered (logged_in s u) (pos 1011) _ _))

  pub on_send_email_code-Answers :
      Answers (logged_in s u) (pos 1013) (on_send_email_code e pb (logged_in s u) msg w)
  unfolding on_send_email_code
  on_send_email_code-Answers =
      Option-elim (Answers (logged_in s u) (pos 1013)) (pb.parse_send_email_code_req msg.payload)
        (answered (logged_in s u) (pos 1013) _ _) (λ req. answered (logged_in s u) (pos 1013) _ _)

  pub on_send_request-Answers :
      Answers (logged_in s u) (pos 1015) (on_send_request e pb (logged_in s u) msg w)
  unfolding on_send_request
  on_send_request-Answers =
      Option-elim (Answers (logged_in s u) (pos 1015)) (pb.parse_send_request_req msg.payload)
        (answered (logged_in s u) (pos 1015) _ _) (λ req. answered (logged_in s u) (pos 1015) _ _)

  pub on_handle_request-Answers :
      Answers (logged_in s u) (pos 1017) (on_handle_request e pb (logged_in s u) msg w)
  unfolding on_handle_request
  on_handle_request-Answers =
      Option-elim (Answers (logged_in s u) (pos 1017)) (pb.parse_handle_request_req msg.payload)
        (answered (logged_in s u) (pos 1017) _ _) (λ req. answered (logged_in s u) (pos 1017) _ _)

  pub on_kick_group_member-Answers :
      Answers (logged_in s u) (pos 1019) (on_kick_group_member e pb (logged_in s u) msg w)
  unfolding on_kick_group_member
  on_kick_group_member-Answers =
      Option-elim (Answers (logged_in s u) (pos 1019)) (pb.parse_kick_group_member_req msg.payload)
        (answered (logged_in s u) (pos 1019) _ _) (λ req. answered (logged_in s u) (pos 1019) _ _)

  pub on_rename_group-Answers :
      Answers (logged_in s u) (pos 1020) (on_rename_group e pb (logged_in s u) msg w)
  unfolding on_rename_group
  on_rename_group-Answers =
      Option-elim (Answers (logged_in s u) (pos 1020)) (pb.parse_rename_group_req msg.payload)
        (answered (logged_in s u) (pos 1020) _ _) (λ req. answered (logged_in s u) (pos 1020) _ _)

  pub on_set_group_admin-Answers :
      Answers (logged_in s u) (pos 1021) (on_set_group_admin e pb (logged_in s u) msg w)
  unfolding on_set_group_admin
  on_set_group_admin-Answers =
      Option-elim (Answers (logged_in s u) (pos 1021)) (pb.parse_set_group_admin_req msg.payload)
        (answered (logged_in s u) (pos 1021) _ _) (λ req. answered (logged_in s u) (pos 1021) _ _)

  pub on_pending_requests-Answers :
      Answers (logged_in s u) (pos 1016) (on_pending_requests e pb (logged_in s u) msg w)
  unfolding on_pending_requests
  on_pending_requests-Answers = answered (logged_in s u) (pos 1016) _ _

  pub on_modify_password-Answers :
      Answers (logged_in s u) (pos 1008) (on_modify_password e pb (logged_in s u) msg w)
  unfolding on_modify_password
  on_modify_password-Answers =
      Option-elim (Answers (logged_in s u) (pos 1008)) (pb.parse_modify_password_req msg.payload)
        (answered (logged_in s u) (pos 1008) _ _)
        (λ req.
          if-elim (Answers (logged_in s u) (pos 1008))
            (is_empty req.oldpassword || is_empty req.newpassword) _ _
            (λ _. answered (logged_in s u) (pos 1008) _ _)
            (λ _. answered (logged_in s u) (pos 1008) _ _))

  pub on_update_user_info-Answers :
      Answers (logged_in s u) (pos 1007) (on_update_user_info e pb (logged_in s u) msg w)
  unfolding on_update_user_info
  on_update_user_info-Answers =
      Option-elim (Answers (logged_in s u) (pos 1007)) (pb.parse_update_user_info_req msg.payload)
        (answered (logged_in s u) (pos 1007) _ _)
        (λ req.
          if-elim (Answers (logged_in s u) (pos 1007))
            (on_store (update_user_info e u.userid (merged_info e req u)) w).0 _ _
            (λ _. answered (logged_in s u) (pos 1007) _ _)
            (λ _. answered (logged_in s u) (pos 1007) _ _))

  pub on_create_group-Answers :
      Answers (logged_in s u) (pos 1009) (on_create_group e pb (logged_in s u) msg w)
  unfolding on_create_group
  on_create_group-Answers =
      Option-elim (Answers (logged_in s u) (pos 1009)) (pb.parse_create_group_req msg.payload)
        (answered (logged_in s u) (pos 1009) _ _)
        (λ req.
          if-elim (Answers (logged_in s u) (pos 1009)) (is_empty req.groupname) _ _
            (λ _. answered (logged_in s u) (pos 1009) _ _)
            (λ _. answered (logged_in s u) (pos 1009) _ _))

  pub on_avatar_upload-Answers :
      Answers (logged_in s u) (pos 1012) (on_avatar_upload e pb (logged_in s u) msg w)
  unfolding on_avatar_upload
  on_avatar_upload-Answers =
      Option-elim (Answers (logged_in s u) (pos 1012)) (pb.parse_avatar_upload_req msg.payload)
        (answered (logged_in s u) (pos 1012) _ _)
        (λ req.
          if-elim (Answers (logged_in s u) (pos 1012)) (not w.clients.avatar) _ _
            (λ _. answered (logged_in s u) (pos 1012) _ _)
            (λ _.
              if-elim (Answers (logged_in s u) (pos 1012)) (leb_ℤ group_boundary req.target_id) _ _
                (λ _. answered (logged_in s u) (pos 1012) _ _)
                (λ _. answered (logged_in s u) (pos 1012) _ _)))

  pub on_upgrade_vip-Answers :
      Answers (logged_in s u) (pos 1014) (on_upgrade_vip e pb (logged_in s u) msg w)
  unfolding on_upgrade_vip
  on_upgrade_vip-Answers =
      Option-elim (Answers (logged_in s u) (pos 1014)) (pb.parse_upgrade_vip_req msg.payload)
        (answered (logged_in s u) (pos 1014) _ _)
        (λ req.
          if-elim (Answers (logged_in s u) (pos 1014)) w.clients.agent _ _
            (λ _. answered (logged_in s u) (pos 1014) _ _)
            (λ _. answered (logged_in s u) (pos 1014) _ _))

  abbrev IsDone : Outcome (CommonRsp × World e) → Type 0
  IsDone o = (r : CommonRsp × World e) × (o ≡ done r)

  -- A user's change of friendships comes to an end.
  operate_friend-done :
      (req : OperateFriendReq) (target_id : ℤ)
      → (r : CommonRsp × World e) × (operate_friend e pb req target_id (some u) w ≡ done r)
  unfolding operate_friend
  operate_friend-done req target_id =
      if-elim IsDone (eqb req.type (pos 1)) _ _
        (λ _.
          if-elim IsDone (leb_ℤ group_boundary req.friendid) _ _ (λ _. (_, refl)) (λ _. (_, refl)))
        (λ _.
          if-elim IsDone (eqb req.type (pos 2)) _ _ (λ _. (_, refl))
            (λ _. if-elim IsDone (eqb req.type (pos 3)) _ _ (λ _. (_, refl)) (λ _. (_, refl))))

  pub on_operate_friend-Answers :
      Answers (logged_in s u) (pos 1005) (on_operate_friend e pb (logged_in s u) msg w)
  unfolding on_operate_friend
  on_operate_friend-Answers =
      Option-elim (Answers (logged_in s u) (pos 1005)) (pb.parse_operate_friend_req msg.payload)
        (answered (logged_in s u) (pos 1005) _ _)
        (λ req.
          let (r, e1) = operate_friend-done req msg.target_id in
          rw e1 (answered (logged_in s u) (pos 1005) _ _))
