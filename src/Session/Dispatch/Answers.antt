-- ===== src/Session/Dispatch/Answers.antt =====
-- The responses that the handlers of IMServer/IMServer/ClientSession.cpp send to the session that
-- asked.
mod Handlers
use aim_server.Common.{
  ◌≡◌, refl, sym, ap, subst, ◌⊎◌, inl, inr, Bool, true, false, not, ◌||◌, Option, none, some, List,
  [], ◌∷◌, ◌++◌, arith, Bytes, is_empty, ℤ, pos, eqb, eqb_iff, if◌then◌else◌, if-elim, Option-elim,
  Outcome, done, crashed, text, leb_ℤ,
}
use aim_server.Env.{Env}
use aim_server.Proto.{Protobuf, MessageContainer, OperateFriendReq, CommonRsp}
use aim_server.Users.User.{User, group_boundary}
use aim_server.Users.Manager.{update_user_info}
use aim_server.Session.State.{ClientSession, World, reply, on_store, send, container, put}
use aim_server.Session.Account.{
  on_register, merged_info, on_login, on_update_user_info, on_modify_password,
}
use aim_server.Session.Groups.{
  on_create_group, on_get_group_members, on_kick_group_member, on_rename_group, on_set_group_admin,
}
use aim_server.Session.Friends.{
  on_get_friend_list, on_find_user, on_operate_friend, operate_friend, add_friend, delete_friend,
  invite_to_group, on_send_request,
}
use aim_server.Session.Approvals.{on_pending_requests, on_handle_request}
use aim_server.Session.Chat.{on_chat, on_multi_chat, on_get_chat_history}
use aim_server.Session.Services.{on_send_email_code, on_upgrade_vip, on_avatar_upload}
use aim_server.Session.Dispatch.{on_heartbeat, dispatch, on_message_received}
use aim_server.Session.Dispatch.Answers.Handlers.{
  Answers, logged_in, on_heartbeat-Answers, on_register-Answers, on_get_friend_list-Answers,
  on_get_group_members-Answers, on_get_chat_history-Answers, on_send_email_code-Answers,
  on_send_request-Answers, on_handle_request-Answers, on_kick_group_member-Answers,
  on_rename_group-Answers, on_set_group_admin-Answers, on_pending_requests-Answers,
  on_modify_password-Answers, on_update_user_info-Answers, on_create_group-Answers,
  on_avatar_upload-Answers, on_upgrade_vip-Answers, on_operate_friend-Answers,
}

-- The commands that ask for a response, but for a login, which is followed by stored messages, and
-- a search, which dies of a keyword that is no number.
abbrev pub asks : ℤ → Bool
asks cmd =
    eqb cmd (pos 1000)
    || (eqb cmd (pos 1001)
        || (eqb cmd (pos 1003)
            || (eqb cmd (pos 1005)
                || (eqb cmd (pos 1007)
                    || (eqb cmd (pos 1008)
                        || (eqb cmd (pos 1009)
                            || (eqb cmd (pos 1010)
                                || (eqb cmd (pos 1011)
                                    || (eqb cmd (pos 1012)
                                        || (eqb cmd (pos 1013)
                                            || (eqb cmd (pos 1014)
                                                || (eqb cmd (pos 1015)
                                                    || (eqb cmd (pos 1016)
                                                        || (eqb cmd (pos 1017)
                                                            || (eqb cmd (pos 1019)
                                                            || (eqb cmd (pos 1020)
                                                            || (eqb cmd (pos 1021))))))))))))))))))

module _ (e : Env) (pb : Protobuf) (s : ClientSession) (u : User) (msg : MessageContainer)
    (w : World e) where
  -- A case of the switch whose handler gives the response.
  replies :
      (cmd : ℤ) {o other : Outcome (World e)}
      → Answers (logged_in s u) cmd o
      → (eqb msg.cmd cmd ≡ false → Answers (logged_in s u) msg.cmd other)
      → Answers (logged_in s u) msg.cmd (if eqb msg.cmd cmd then o else other)
  replies cmd {o} {other} h next =
      if-elim (Answers (logged_in s u) msg.cmd) (eqb msg.cmd cmd) o other
        (λ same. subst (λ c. Answers (logged_in s u) c o) (sym ((eqb_iff msg.cmd cmd).0 same)) h)
        next

  -- A case of the switch that no such request takes.
  passes :
      (cmd : ℤ) (o : Outcome (World e)) {other : Outcome (World e)}
      → asks msg.cmd ≡ true
      → asks cmd ≡ false
      → (eqb msg.cmd cmd ≡ false → Answers (logged_in s u) msg.cmd other)
      → Answers (logged_in s u) msg.cmd (if eqb msg.cmd cmd then o else other)
  passes cmd o {other} request no_request next =
      if-elim (Answers (logged_in s u) msg.cmd) (eqb msg.cmd cmd) o other
        (λ same.
          absurd (let e1 : asks msg.cmd ≡ asks cmd = ap asks ((eqb_iff msg.cmd cmd).0 same) in cc))
        next

  dispatch-Answers :
      asks msg.cmd ≡ true → Answers (logged_in s u) msg.cmd (dispatch e pb (logged_in s u) msg w)
  unfolding dispatch eqb
  dispatch-Answers request = replies (pos 1000) (on_heartbeat-Answers e pb s u msg w) λ off1000.
      replies (pos 1001) (on_register-Answers e pb s u msg w) λ off1001.
        passes (pos 1002) _ request refl λ off1002.
          replies (pos 1003) (on_get_friend_list-Answers e pb s u msg w) λ off1003.
            passes (pos 1004) _ request refl λ off1004.
              replies (pos 1005) (on_operate_friend-Answers e pb s u msg w) λ off1005.
                replies (pos 1007) (on_update_user_info-Answers e pb s u msg w) λ off1007.
                  replies (pos 1008) (on_modify_password-Answers e pb s u msg w) λ off1008.
                    replies (pos 1009) (on_create_group-Answers e pb s u msg w) λ off1009.
                      replies (pos 1010) (on_get_group_members-Answers e pb s u msg w) λ off1010.
                        replies (pos 1011) (on_get_chat_history-Answers e pb s u msg w) λ off1011.
                          replies (pos 1012) (on_avatar_upload-Answers e pb s u msg w) λ off1012.
                            replies (pos 1013) (on_send_email_code-Answers e pb s u msg w)
                              λ off1013.
                                replies (pos 1014) (on_upgrade_vip-Answers e pb s u msg w)
                                  λ off1014.
                                    replies (pos 1015) (on_send_request-Answers e pb s u msg w)
                                      λ off1015.
                                        replies (pos 1016)
                                          (on_pending_requests-Answers e pb s u msg w)
                                          λ off1016.
                                            replies (pos 1017)
                                              (on_handle_request-Answers e pb s u msg w)
                                              λ off1017.
                                                replies (pos 1019)
                                                  (on_kick_group_member-Answers e pb s u msg w)
                                                  λ off1019.
                                                    replies (pos 1020)
                                                      (on_rename_group-Answers e pb s u msg w)
                                                      λ off1020.
                                                        replies (pos 1021)
                                                          (on_set_group_admin-Answers e pb s u msg
                                                            w)
                                                          λ off1021.
                                                            passes (pos 1100) _ request refl
                                                            λ off1100.
                                                            passes (pos 1101) _ request refl
                                                            λ off1101. absurd (ground arith)

-- For a session with a user, every request but a login or a search is handled to its end and has
-- its response: the last message that the handler sends goes to the session that asked, with the
-- command and the sequence number of the request.
pub request_answered :
    (e : Env) (pb : Protobuf) (s : ClientSession) (msg : MessageContainer) (w : World e) {u : User}
    → s.user ≡ some u
    → asks msg.cmd ≡ true
    → (payload : Bytes) × (w' : World e) × (on_message_received e pb s msg w
        ≡ done (send s.sessionid (container msg.cmd msg.seq payload) w'))
unfolding on_message_received
request_answered e pb s msg w {u} has_user request =
    subst
      (λ (o : Option User).
        (payload : Bytes) × (w' : World e) × (on_message_received e pb (record s { user = o }) msg w
          ≡ done (send s.sessionid (container msg.cmd msg.seq payload) w')))
      (sym has_user)
      (dispatch-Answers e pb (record s { seq = msg.seq }) u msg
        (put (record s { seq = msg.seq; user = some u }) w) request)
