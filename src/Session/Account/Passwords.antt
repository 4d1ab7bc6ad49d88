-- ===== src/Session/Account/Passwords.antt =====
-- What OnModifyPasswordResponse (IMServer/IMServer/ClientSession.cpp) promises.
use aim_server.Common.{◌≡◌, true, some, inl, inr, List, arith, Bytes, pos, eqb_refl, Bool-cases}
use aim_server.Env.{Env}
use aim_server.Password.{verify_password, hash_password}
use aim_server.Password.Verify.{verify_password-hash_password}
use aim_server.Proto.{Protobuf, MessageContainer, ModifyPasswordReq}
use aim_server.Users.User.{User}
use aim_server.Users.Directory.{IsCoherent, find_user, find_user-update_user}
use aim_server.Users.Manager.{modify_user_password, with_password}
use aim_server.Users.Manager.Changes.{modify_user_password-manager}
use aim_server.Session.State.{ClientSession, World, Outcome, done, crashed}
use aim_server.Session.Account.{modify_password, on_modify_password}

-- The sessions that a handler leaves; those from before if the process dies.
abbrev pub sessions_after : {e : Env} → Outcome (World e) → World e → List (Bytes × ClientSession)
sessions_after crashed w = w.sessions
sessions_after (done w') w = w'.sessions

module _ (e : Env) where
  -- A change of password that is answered with code 0 was asked for with the password of the
  -- session's user object, and afterwards the cached account accepts the new password.
  pub modify_password-ok :
      (req : ModifyPasswordReq) (u c : User) (w : World e)
      → IsCoherent w.store.manager
      → find_user u.userid w.store.manager ≡ some c
      → (modify_password e req u w).0.code ≡ pos 0
      → (verify_password req.oldpassword u.password ≡ true)
        × (c' : User) × (find_user u.userid (modify_password e req u w).1.store.manager ≡ some c')
        × (verify_password req.newpassword c'.password ≡ true)
  unfolding modify_password
  modify_password-ok req u c w coherent known h =
      let (draws, changed) = modify_user_password-manager e u.userid req.newpassword w.store in
      let hashed = hash_password draws req.newpassword in
      elim (Bool-cases (verify_password req.oldpassword u.password)) [
        | inr wrong ↦ absurd (ground arith)
        | inl right ↦
            elim (Bool-cases (modify_user_password e u.userid req.newpassword w.store).0) [
              | inr failed ↦ absurd (ground arith)
              | inl ok ↦ (
                right,
                with_password hashed c,
                rw (right, modify_password, ok, changed, ok)
                    (ground (
                      arith,
                      find_user-update_user w.store.manager coherent u.userid u.userid
                          (with_password hashed),
                      eqb_refl u.userid,
                    )),
                verify_password-hash_password draws req.newpassword,
              )
            ]
      ]

  -- Handling a change of password leaves every session as it was, however it ends, the user object
  -- of the handler's own session with the old password in it included.
  pub on_modify_password-sessions :
      (pb : Protobuf) (s : ClientSession) (msg : MessageContainer) (w : World e)
      → sessions_after (on_modify_password e pb s msg w) w ≡ w.sessions
  unfolding on_modify_password modify_password
  on_modify_password-sessions pb s msg w = ground arith
