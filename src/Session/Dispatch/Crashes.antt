-- ===== src/Session/Dispatch/Crashes.antt =====
-- Commands from a session that has not logged in (ClientSession::OnMessageReceived and
-- IMSer::OnConnection).
use aim_server.Common.{
  ◌≡◌, refl, ◌⊎◌, Bool, true, ◌||◌, none, inl, inr, arith, Bytes, ℤ, pos, eqb, eqb_iff,
}
use aim_server.Env.{Env}
use aim_server.Proto.{Protobuf, MessageContainer}
use aim_server.Session.State.{ClientSession, World, crashed, session_at, new_session}
use aim_server.Session.State.Laws.{session_at-insert_session, new_session-user}
use aim_server.Session.Friends.{on_get_friend_list}
use aim_server.Session.Chat.{on_chat, on_multi_chat, on_get_chat_history}
use aim_server.Session.Dispatch.{dispatch, on_message_received, receive, on_connection}

-- The commands whose handlers read m_user before anything else.
abbrev pub reads_user_first : ℤ → Bool
reads_user_first cmd =
    eqb cmd (pos 1003) || (eqb cmd (pos 1011) || (eqb cmd (pos 1100) || eqb cmd (pos 1101)))

first_commands :
    (c : ℤ)
    → reads_user_first c ≡ true
    → (c ≡ pos 1003) ⊎ ((c ≡ pos 1011) ⊎ ((c ≡ pos 1100) ⊎ (c ≡ pos 1101)))
first_commands c h =
    ground (
      arith,
      eqb_iff c (pos 1003),
      eqb_iff c (pos 1011),
      eqb_iff c (pos 1100),
      eqb_iff c (pos 1101),
    )

module _ (e : Env) (pb : Protobuf) where
  dispatch-crash :
      (s : ClientSession) (msg : MessageContainer) (w : World e)
      → s.user ≡ none
      → reads_user_first msg.cmd ≡ true
      → dispatch e pb s msg w ≡ crashed
  unfolding dispatch eqb on_get_friend_list on_chat on_multi_chat on_get_chat_history
  dispatch-crash s msg w nobody first = elim (first_commands msg.cmd first) [
    | inl friends ↦ rw (friends, dispatch, nobody) refl
    | inr (inl history) ↦ rw (history, dispatch, nobody) refl
    | inr (inr (inl single)) ↦ rw (single, dispatch, nobody) refl
    | inr (inr (inr multi)) ↦ rw (multi, dispatch, nobody) refl
  ]

  -- The first message of a connection, whatever its payload, ends the process if its command is
  -- the friend list, the chat history, a message or a message to several.
  pub receive-crash :
      (id : Bytes) (msg : MessageContainer) (w : World e)
      → session_at id w.sessions ≡ none
      → reads_user_first msg.cmd ≡ true
      → receive e pb id msg (on_connection e pb id w) ≡ crashed
  unfolding receive on_connection on_message_received
  receive-crash id msg w fresh first =
      rw (session_at-insert_session id (new_session id) w.sessions fresh, receive)
        (dispatch-crash (record (new_session id) { seq = msg.seq }) msg _ (new_session-user id)
          first)
