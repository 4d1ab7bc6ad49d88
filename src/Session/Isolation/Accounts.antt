-- ===== src/Session/Isolation/Accounts.antt =====
-- The handlers for accounts, and the session table (IMServer/IMServer/ClientSession.cpp).
use aim_server.Common.{
  ◌≡◌, not, ◌||◌, Option, none, some, List, Bytes, is_empty, ℤ, pos, eqb, ltb, length, if-elim,
  Option-elim,
}
use aim_server.Env.{Env}
use aim_server.Password.{verify_password}
use aim_server.Offline.{get_notify_msg_cache, get_chat_msg_cache}
use aim_server.Proto.{
  Protobuf, MessageContainer, RegisterReq, LoginReq, LoginRsp, ModifyPasswordReq,
}
use aim_server.Users.User.{User}
use aim_server.Users.Manager.{user_by_name, friend_infos, update_user_info, modify_user_password}
use aim_server.Session.State.{ClientSession, World, on_store, on_ext}
use aim_server.Session.Account.{
  is_valid_username, verify_code, register_verified, register, on_register, vip_of, login,
  send_read, tell_friends, after_login, finish_login, on_login, merged_info, on_update_user_info,
  modify_password, on_modify_password,
}
use aim_server.Session.Isolation.Pushes.{
  Touches, changed, Within, Beside, notify_users-Touches, send_raw_all-Touches,
}

module _ (e : Env) (pb : Protobuf) (id : Bytes) (m : List (Bytes × ClientSession)) where
  register_verified-Touches :
      (req : RegisterReq) (w : World e)
      → Touches id m w.sessions
      → Beside id m (register_verified e req w)
  unfolding register_verified
  register_verified-Touches req w h =
      if-elim (Beside id m) (not w.clients.mail) _ _ (λ _. h)
        (λ _.
          if-elim (Beside id m) (not (on_ext (verify_code e req.email req.code) w).0.0) _ _ (λ _. h)
            (λ _. h))

  register-Touches :
      (req : Option RegisterReq) (w : World e)
      → Touches id m w.sessions
      → Beside id m (register e req w)
  unfolding register
  register-Touches none w h = h
  register-Touches (some req) w h =
      if-elim (Beside id m)
        (is_empty req.username
          || (is_empty req.nickname
              || (is_empty req.password || (is_empty req.email || is_empty req.code))))
        _ _ (λ _. h)
        (λ _.
          if-elim (Beside id m) (not (is_valid_username req.username)) _ _ (λ _. h)
            (λ _.
              if-elim (Beside id m) (ltb 60 (length req.nickname)) _ _ (λ _. h)
                (λ _. register_verified-Touches req w h)))

  vip_of-Touches :
      (userid : ℤ) (w : World e) → Touches id m w.sessions → Beside id m (vip_of e userid w)
  unfolding vip_of
  vip_of-Touches userid w h = if-elim (Beside id m) w.clients.agent _ _ (λ _. h) (λ _. h)

  -- The session that a login leaves is the one that it began with.
  abbrev LoggedIn : LoginRsp × ClientSession × World e → Type 0
  LoggedIn r = (r.1.sessionid ≡ id) × Touches id m r.2.sessions

  login-Touches :
      (req : Option LoginReq) (s : ClientSession) (w : World e)
      → s.sessionid ≡ id
      → Touches id m w.sessions
      → LoggedIn (login e req s w)
  unfolding login
  login-Touches none s w own h = (own, h)
  login-Touches (some req) s w own h =
      if-elim LoggedIn (is_empty req.username || is_empty req.password) _ _ (λ _. (own, h))
        (λ _.
          Option-elim LoggedIn (user_by_name req.username w.store.manager.cached_users) (own, h)
            (λ u.
              if-elim LoggedIn (not (verify_password req.password u.password)) _ _
                (λ _. (own, changed _ own h))
                (λ _. (own, changed _ own (vip_of-Touches u.userid w h)))))

  send_read-Touches :
      (s : ClientSession) (read : e.State → List Bytes × e.State) (w : World e)
      → Touches id m w.sessions
      → Touches id m (send_read e pb s read w).sessions
  unfolding send_read
  send_read-Touches s read w h =
      send_raw_all-Touches pb s.sessionid (on_ext read w).0 (on_ext read w).1 h

  tell_friends-Touches :
      (u : User) (w : World e)
      → Touches id m w.sessions
      → Touches id m (tell_friends e pb u w).sessions
  unfolding tell_friends
  tell_friends-Touches u w h =
      Option-elim (λ (v : World e). Touches id m v.sessions) (friend_infos u.userid w.store.manager)
        h (λ friends. notify_users-Touches pb friends _ _ _ w h)

  after_login-Touches :
      (s : ClientSession) (u : User) (w : World e)
      → Touches id m w.sessions
      → Touches id m (after_login e pb s u w).sessions
  unfolding after_login
  after_login-Touches s u w h = tell_friends-Touches u _ (
      send_read-Touches s (get_chat_msg_cache e u.userid) _
        (send_read-Touches s (get_notify_msg_cache e u.userid) w h))

  finish_login-Touches :
      (rsp : LoginRsp) (s : ClientSession) (w : World e)
      → Touches id m w.sessions
      → Within id m (finish_login e pb (rsp, s, w))
  unfolding finish_login
  finish_login-Touches rsp s w h = Option-elim (Within id m) s.user tt (λ u.
      if-elim (Within id m) (eqb rsp.code (pos 0)) _ _ (λ _. after_login-Touches s u _ h) (λ _. h))

  module _ (s : ClientSession) (msg : MessageContainer) (w : World e) (own : s.sessionid ≡ id)
      (h : Touches id m w.sessions) where
    pub on_register-Touches : Within id m (on_register e pb s msg w)
    unfolding on_register
    on_register-Touches = register-Touches (pb.parse_register_req msg.payload) w h

    pub on_login-Touches : Within id m (on_login e pb s msg w)
    unfolding on_login
    on_login-Touches =
        let r = login e (pb.parse_login_req msg.payload) s w in
        finish_login-Touches r.0 r.1 r.2
          (login-Touches (pb.parse_login_req msg.payload) s w own h).1

    pub on_update_user_info-Touches : Within id m (on_update_user_info e pb s msg w)
    unfolding on_update_user_info
    on_update_user_info-Touches =
        Option-elim (Within id m) (pb.parse_update_user_info_req msg.payload) h (λ req.
          Option-elim (Within id m) s.user tt (λ u.
            if-elim (Within id m) (on_store (update_user_info e u.userid (merged_info e req u)) w).0
              _ _ (λ _. changed _ own h) (λ _. h)))

    modify_password-Touches :
        (req : ModifyPasswordReq) (u : User) → Beside id m (modify_password e req u w)
    unfolding modify_password
    modify_password-Touches req u =
        if-elim (Beside id m) (not (verify_password req.oldpassword u.password)) _ _ (λ _. h)
          (λ _.
            if-elim (Beside id m) (on_store (modify_user_password e u.userid req.newpassword) w).0 _
              _ (λ _. h) (λ _. h))

    pub on_modify_password-Touches : Within id m (on_modify_password e pb s msg w)
    unfolding on_modify_password
    on_modify_password-Touches =
        Option-elim (Within id m) (pb.parse_modify_password_req msg.payload) h (λ req.
          if-elim (Within id m) (is_empty req.oldpassword || is_empty req.newpassword) _ _ (λ _. h)
            (λ _. Option-elim (Within id m) s.user tt (λ u. modify_password-Touches req u)))
