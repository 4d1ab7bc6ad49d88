-- ===== src/Session/Isolation/Chats.antt =====
-- The handlers for chat messages and for services, and the session table
-- (IMServer/IMServer/ClientSession.cpp).
use aim_server.Common.{
  ◌≡◌, not, ◌||◌, List, [], ◌∷◌, Bytes, is_empty, ℤ, pos, eqb, ltb_ℤ, leb_ℤ, if-elim, Option-elim,
}
use aim_server.Env.{Env}
use aim_server.Proto.{Protobuf, MessageContainer, ChatMsg, AvatarUploadReq, SendEmailCodeReq}
use aim_server.Users.User.{User, group_boundary}
use aim_server.Users.Directory.{find_user}
use aim_server.Users.Manager.{friend_infos}
use aim_server.Users.History.{get_chat_history}
use aim_server.Session.State.{ClientSession, World, put, on_ext, find_session}
use aim_server.Session.Groups.{can_manage}
use aim_server.Session.Chat.{
  agent_userid, forward, chat_of, persist, deliver, deliver_others, ask_agent, route, chat, on_chat,
  chat_all, on_multi_chat, on_get_chat_history,
}
use aim_server.Session.Services.{
  contains, upload, send_email_code, on_send_email_code, on_upgrade_vip, upload_group_avatar,
  upload_own_avatar, on_avatar_upload,
}
use aim_server.Session.Isolation.Pushes.{
  Touches, changed, Within, Beside, notify_users-Touches, notify_others-Touches,
}

module _ (e : Env) (pb : Protobuf) (id : Bytes) (m : List (Bytes × ClientSession)) where
  -- The table of a world.
  abbrev Reached : World e → Type 0
  Reached w = Touches id m w.sessions

  persist-Touches :
      (sender target : ℤ) (msg : ChatMsg) (w : World e)
      → Reached w
      → Reached (persist e pb sender target msg w)
  unfolding persist
  persist-Touches sender target msg w h =
      if-elim Reached w.clients.mq_publisher _ _ (λ _. if-elim Reached _ _ _ (λ _. h) (λ _. h))
        (λ _. h)

  deliver-Touches :
      (to : ℤ) (msg : MessageContainer) (w : World e) → Reached w → Reached (deliver e pb to msg w)
  unfolding deliver
  deliver-Touches to msg w h = Option-elim Reached (find_session to w.sessions) h (λ t. h)

  deliver_others-Touches :
      (sender : ℤ) (us : List User) (msg : MessageContainer) (w : World e)
      → Reached w
      → Reached (deliver_others e pb sender us msg w)
  unfolding deliver_others
  deliver_others-Touches sender [] msg w h = h
  deliver_others-Touches sender (u ∷ us) msg w h =
      deliver_others-Touches sender us msg _
        (if-elim Reached (eqb u.userid sender) _ _ (λ _. h) (λ _. deliver-Touches u.userid msg w h))

  route-Touches :
      (sender target : ℤ) (msg : MessageContainer) (w : World e)
      → Reached w
      → Reached (route e pb sender target msg w)
  unfolding route
  route-Touches sender target msg w h =
      if-elim Reached (ltb_ℤ target group_boundary) _ _ (λ _. deliver-Touches target msg w h)
        (λ _.
          Option-elim Reached (friend_infos target w.store.manager) h
            (λ members. deliver_others-Touches sender members msg w h))

  ask_agent-Touches :
      (caller : Bytes) (userid : ℤ) (msg : ChatMsg) (w : World e)
      → Reached w
      → Reached (ask_agent e pb caller userid msg w)
  unfolding ask_agent
  ask_agent-Touches caller userid msg w h = if-elim Reached w.clients.agent _ _ (λ _. h) (λ _. h)

  chat-Touches :
      (s : ClientSession) (sender target : ℤ) (payload : Bytes) (w : World e)
      → s.sessionid ≡ id
      → Reached w
      → Reached (chat e pb s sender target payload w)
  unfolding chat
  chat-Touches s sender target payload w own h =
      let put_in = changed (record s { target = target }) own h in
      let parsed = chat_of e pb payload in
      let w' = put (record s { target = target }) w in
      if-elim Reached (eqb target agent_userid) _ _
        (λ _. ask_agent-Touches s.sessionid sender parsed w' put_in)
        (λ _.
          route-Touches sender target (forward s.seq target payload) _
            (persist-Touches sender target parsed w' put_in))

  chat_all-Touches :
      (s : ClientSession) (sender : ℤ) (targets : List ℤ) (payload : Bytes) (w : World e)
      → s.sessionid ≡ id
      → Reached w
      → Reached (chat_all e pb s sender targets payload w)
  unfolding chat_all
  chat_all-Touches s sender [] payload w own h = h
  chat_all-Touches s sender (target ∷ targets) payload w own h =
      chat_all-Touches s sender targets payload _ own (chat-Touches s sender target payload w own h)

  send_email_code-Touches :
      (req : SendEmailCodeReq) (w : World e) → Reached w → Beside id m (send_email_code e pb req w)
  unfolding send_email_code
  send_email_code-Touches req w h =
      if-elim (Beside id m)
        (is_empty req.email || (not (contains b'@' req.email) || not (contains b'.' req.email))) _ _
        (λ _. h) (λ _. if-elim (Beside id m) w.clients.mail _ _ (λ _. h) (λ _. h))

  upload_group_avatar-Touches :
      (req : AvatarUploadReq) (u : User) (w : World e)
      → Reached w
      → Beside id m (upload_group_avatar e pb req u w)
  unfolding upload_group_avatar
  upload_group_avatar-Touches req u w h =
      Option-elim (Beside id m) (find_user req.target_id w.store.manager) h (λ g.
        if-elim (Beside id m) (not (can_manage req.target_id u.userid w.store.manager)) _ _ (λ _. h)
          (λ _.
            if-elim (Beside id m) (on_ext (upload e req.target_id req.image_data req.format) w).0.0
              _ _
              (λ _.
                Option-elim Reached _ h
                  (λ members. notify_others-Touches pb u.userid members _ _ _ _ h))
              (λ _. h)))

  upload_own_avatar-Touches :
      (req : AvatarUploadReq) (s : ClientSession) (u : User) (w : World e)
      → s.sessionid ≡ id
      → Reached w
      → Beside id m (upload_own_avatar e pb req s u w)
  unfolding upload_own_avatar
  upload_own_avatar-Touches req s u w own h =
      if-elim (Beside id m) (on_ext (upload e u.userid req.image_data req.format) w).0.0 _ _
        (λ _.
          Option-elim Reached _ (changed _ own h)
            (λ friends. notify_users-Touches pb friends _ _ _ _ (changed _ own h)))
        (λ _. h)

  module _ (s : ClientSession) (msg : MessageContainer) (w : World e) (own : s.sessionid ≡ id)
      (h : Touches id m w.sessions) where
    pub on_chat-Touches : Within id m (on_chat e pb s msg w)
    unfolding on_chat
    on_chat-Touches =
        Option-elim (Within id m) s.user tt
          (λ u. chat-Touches s u.userid msg.target_id msg.payload w own h)

    pub on_multi_chat-Touches : Within id m (on_multi_chat e pb s msg w)
    unfolding on_multi_chat
    on_multi_chat-Touches =
        let s' = record s { targets = msg.targets } in
        Option-elim (Within id m) s.user tt (λ u.
          Option-elim (Within id m) (pb.parse_multi_chat_targets msg.payload) (changed s' own h)
            (λ req. chat_all-Touches s' u.userid req.targets req.content _ own (changed s' own h)))

    pub on_get_chat_history-Touches : Within id m (on_get_chat_history e pb s msg w)
    unfolding on_get_chat_history
    on_get_chat_history-Touches = Option-elim (Within id m) s.user tt (λ u.
        Option-elim (Within id m) (pb.parse_chat_history_req msg.payload) h (λ req.
          Option-elim (Within {e = e} id m)
            (on_ext (get_chat_history e u.userid req.targetid (pos 50)) w).0 h (λ msgs. h)))

    pub on_send_email_code-Touches : Within id m (on_send_email_code e pb s msg w)
    unfolding on_send_email_code
    on_send_email_code-Touches =
        Option-elim (Within id m) (pb.parse_send_email_code_req msg.payload) h
          (λ req. send_email_code-Touches req w h)

    pub on_upgrade_vip-Touches : Within id m (on_upgrade_vip e pb s msg w)
    unfolding on_upgrade_vip
    on_upgrade_vip-Touches =
        Option-elim (Within id m) (pb.parse_upgrade_vip_req msg.payload) h
          (λ req. if-elim (Within id m) w.clients.agent _ _ (λ _. h) (λ _. h))

    pub on_avatar_upload-Touches : Within id m (on_avatar_upload e pb s msg w)
    unfolding on_avatar_upload
    on_avatar_upload-Touches =
        Option-elim (Within id m) (pb.parse_avatar_upload_req msg.payload) h (λ req.
          Option-elim (Within id m) s.user h (λ u.
            if-elim (Within id m) (not w.clients.avatar) _ _ (λ _. h)
              (λ _.
                if-elim (Within id m) (leb_ℤ group_boundary req.target_id) _ _
                  (λ _. upload_group_avatar-Touches req u w h)
                  (λ _. upload_own_avatar-Touches req s u w own h))))
