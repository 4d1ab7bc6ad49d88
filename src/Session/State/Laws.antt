-- ===== src/Session/State/Laws.antt =====
-- Laws of the session table, and what the notices to other sessions leave alone.
use aim_server.Common.{
  ◌≡◌, refl, ◌∙◌, none, some, inl, inr, List, [], ◌∷◌, arith, Bytes, bytes_eq_refl, ℤ, eqb,
  Bool-cases, Option-cases,
}
use aim_server.Env.{Env}
use aim_server.Proto.{Protobuf}
use aim_server.Users.User.{User}
use aim_server.Session.State.{
  ClientSession, World, new_session, session_at, insert_session, update_session, find_session,
  send_user_status_change_msg, notify_user, notify_others,
}

pub new_session-user : (id : Bytes) → (new_session id).user ≡ none
unfolding new_session
new_session-user id = refl

-- A change of a session is seen under its key.
pub session_at-update_session :
    (s t : ClientSession) (m : List (Bytes × ClientSession))
    → session_at s.sessionid m ≡ some t
    → session_at s.sessionid (update_session s m) ≡ some s
unfolding session_at update_session
session_at-update_session s t [] h = absurd (ground arith)
session_at-update_session s t ((j, x) ∷ m) h = ground (arith, session_at-update_session s t m)

-- A new key of the table leads to its new session.
pub session_at-insert_session :
    (id : Bytes) (s : ClientSession) (m : List (Bytes × ClientSession))
    → session_at id m ≡ none
    → session_at id (insert_session id s m) ≡ some s
unfolding session_at insert_session
session_at-insert_session id s [] h = ground (arith, bytes_eq_refl id)
session_at-insert_session id s ((j, x) ∷ m) h =
    ground (arith, bytes_eq_refl id, session_at-insert_session id s m)

module _ {e : Env} (pb : Protobuf) where
  pub notify_user-store :
      (to id type : ℤ) (face : Bytes) (w : World e)
      → (notify_user pb to id type face w).store ≡ w.store
  unfolding notify_user send_user_status_change_msg
  notify_user-store to id type face w = elim (Option-cases (find_session to w.sessions)) [
    | inl absent ↦ rw (absent, notify_user) refl
    | inr (t, found) ↦ rw (found, notify_user) refl
  ]

  pub notify_others-store :
      (self : ℤ) (us : List User) (id type : ℤ) (face : Bytes) (w : World e)
      → (notify_others pb self us id type face w).store ≡ w.store
  unfolding notify_others
  notify_others-store self [] id type face w = refl
  notify_others-store self (u ∷ us) id type face w = elim (Bool-cases (eqb u.userid self)) [
    | inl own ↦ rw (own, notify_others) (notify_others-store self us id type face w)
    | inr other ↦
        rw (other, notify_others)
          (notify_others-store self us id type face (notify_user pb u.userid id type face w)
            ∙ notify_user-store u.userid id type face w)
  ]
