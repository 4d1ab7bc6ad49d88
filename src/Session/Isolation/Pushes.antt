-- ===== src/Session/Isolation/Pushes.antt =====
-- Changes of the session table by one session, and the pushes of ClientSession
-- (IMServer/IMServer/ClientSession.cpp).
use aim_server.Common.{
  ◌≡◌, List, [], ◌∷◌, Bytes, ℤ, eqb, if-elim, Option-elim, Outcome, done, crashed,
}
use aim_server.Env.{Env}
use aim_server.Proto.{Protobuf}
use aim_server.Users.User.{User}
use aim_server.Session.State.{
  ClientSession, World, update_session, find_session, send_raw, send_raw_all,
  send_user_status_change_msg, notify_user, notify_users, notify_others,
}

-- From one table to another by changes of one session.
pub data Touches (id : Bytes) (m : List (Bytes × ClientSession))
    : List (Bytes × ClientSession) → Type 0 where
  same : Touches id m m
  changed :
      {m' : List (Bytes × ClientSession)} (s : ClientSession)
      → s.sessionid ≡ id
      → Touches id m m'
      → Touches id m (update_session s m')

module _ {e : Env} (id : Bytes) (m : List (Bytes × ClientSession)) where
  -- The world that a handler leaves, if it leaves one.
  abbrev pub Within : Outcome (World e) → Type 0
  Within crashed = Unit
  Within (done w) = Touches id m w.sessions

  -- The world beside a response.
  abbrev pub Beside {ℓ} : {R : Type ℓ} → R × World e → Type 0
  Beside r = Touches id m r.1.sessions

module _ {e : Env} (pb : Protobuf) {id : Bytes} {m : List (Bytes × ClientSession)} where
  pub notify_user-Touches :
      (to about type : ℤ) (face : Bytes) (w : World e)
      → Touches id m w.sessions
      → Touches id m (notify_user pb to about type face w).sessions
  unfolding notify_user send_user_status_change_msg
  notify_user-Touches to about type face w h =
      Option-elim (λ (v : World e). Touches id m v.sessions) (find_session to w.sessions) h (λ t. h)

  pub notify_users-Touches :
      (us : List User) (about type : ℤ) (face : Bytes) (w : World e)
      → Touches id m w.sessions
      → Touches id m (notify_users pb us about type face w).sessions
  unfolding notify_users
  notify_users-Touches [] about type face w h = h
  notify_users-Touches (u ∷ us) about type face w h =
      notify_users-Touches us about type face _ (notify_user-Touches u.userid about type face w h)

  pub notify_others-Touches :
      (self : ℤ) (us : List User) (about type : ℤ) (face : Bytes) (w : World e)
      → Touches id m w.sessions
      → Touches id m (notify_others pb self us about type face w).sessions
  unfolding notify_others
  notify_others-Touches self [] about type face w h = h
  notify_others-Touches self (u ∷ us) about type face w h =
      notify_others-Touches self us about type face _ (
        if-elim (λ (v : World e). Touches id m v.sessions) (eqb u.userid self) _ _ (λ _. h)
          (λ _. notify_user-Touches u.userid about type face w h))

  send_raw-Touches :
      (conn blob : Bytes) (w : World e)
      → Touches id m w.sessions
      → Touches id m (send_raw pb conn blob w).sessions
  unfolding send_raw
  send_raw-Touches conn blob w h =
      Option-elim (λ (v : World e). Touches id m v.sessions) (pb.parse_message_container blob) h
        (λ c. h)

  pub send_raw_all-Touches :
      (conn : Bytes) (bs : List Bytes) (w : World e)
      → Touches id m w.sessions
      → Touches id m (send_raw_all pb conn bs w).sessions
  unfolding send_raw_all
  send_raw_all-Touches conn [] w h = h
  send_raw_all-Touches conn (b ∷ bs) w h =
      send_raw_all-Touches conn bs _ (send_raw-Touches conn b w h)
