-- ===== src/Session/Chat/Later.antt =====
-- A chat message for a user who is not connected: ForwardMsg's branch in OnChatResponse, the table
-- t_offline_msg, and what OnLoginResponse sends (IMServer/IMServer/ClientSession.cpp).
use aim_server.Common.{
  ◌≡◌, refl, ◌∙◌, sym, ap, subst, true, Option, none, some, inl, inr, List, [], ◌∷◌, ◌++◌,
  if◌then◌else◌, Bytes, IsBytes, All, All-append, ℤ, pos, append-nil, append_assoc, map,
  Option-cases, Option-elim, eqb, eqb_iff, if-true, elim-some, done, crashed, ◌≢◌,
}
use aim_server.Env.{Env}
use aim_server.Proto.{Protobuf, MessageContainer, LoginRsp}
use aim_server.Offline.{
  select_offline_sql, insert_offline_msg, chat_type, add_chat_msg_cache, get_chat_msg_cache,
  get_notify_msg_cache,
}
use aim_server.Text.Hex.{to_hex}
use aim_server.Offline.Mailbox.{OfflineTable, Refusal}
use aim_server.Offline.Mailbox.Refinement.{Left, fetch_answered, insert_lem, select_lem}
use aim_server.Users.User.{User}
use aim_server.Users.Manager.{friend_infos}
use aim_server.Session.State.{
  ClientSession, World, find_session, send_raw, send_raw_all, notify_user, notify_users,
  send_user_status_change_msg, reply, container,
}
use aim_server.Session.Account.{send_read, tell_friends, after_login, finish_login}
use aim_server.Session.Chat.{deliver}

-- A stored text as a message to a session, if it parses.
pub entry : Bytes → Option MessageContainer → List (Bytes × MessageContainer)
entry conn none = []
entry conn (some msg) = (conn, msg) ∷ []

-- The same for several texts.
pub parsed : Protobuf → Bytes → List Bytes → List (Bytes × MessageContainer)
unfolding entry
parsed pb conn [] = []
parsed pb conn (b ∷ bs) = entry conn (pb.parse_message_container b) ++ parsed pb conn bs

parsed-append :
    (pb : Protobuf) (conn : Bytes) (bs : List Bytes) (b : Bytes) (msg : MessageContainer)
    → pb.parse_message_container b ≡ some msg
    → parsed pb conn (bs ++ b ∷ []) ≡ parsed pb conn bs ++ (conn, msg) ∷ []
unfolding parsed entry
parsed-append pb conn [] b msg e = rw e refl
parsed-append pb conn (c ∷ bs) b msg e =
    let first = entry conn (pb.parse_message_container c) in
    ap (λ l. first ++ l) (parsed-append pb conn bs b msg e)
    ∙ sym (append_assoc first (parsed pb conn bs) ((conn, msg) ∷ []))

module _ {e : Env} where
  -- Only the list of messages out grows, by these.
  pub record Sends (more : List (Bytes × MessageContainer)) (w w' : World e) : Type 0 where
    pub sent : w'.out ≡ w.out ++ more
    pub kept : w'.store ≡ w.store

  Sends-none : (w : World e) → Sends [] w w
  Sends-none w = record { sent = sym (append-nil w.out); kept = refl }

  Sends-append :
      (a b : List (Bytes × MessageContainer)) (w w' w'' : World e)
      → Sends a w w'
      → Sends b w' w''
      → Sends (a ++ b) w w''
  Sends-append a b w w' w'' h k = record {
    sent = k.sent ∙ (ap (λ l. l ++ b) h.sent ∙ append_assoc w.out a b);
    kept = k.kept ∙ h.kept;
  }

module _ {e : Env} (pb : Protobuf) where
  send_raw-Sends :
      (conn b : Bytes) (w : World e)
      → Sends (entry conn (pb.parse_message_container b)) w (send_raw pb conn b w)
  unfolding entry send_raw
  send_raw-Sends conn b w = elim (Option-cases (pb.parse_message_container b)) [
    | inl bad ↦ rw (bad, send_raw) (Sends-none w)
    | inr (m, good) ↦ rw (good, send_raw) (record { sent = refl; kept = refl })
  ]

  send_raw_all-Sends :
      (conn : Bytes) (bs : List Bytes) (w : World e)
      → Sends (parsed pb conn bs) w (send_raw_all pb conn bs w)
  unfolding parsed send_raw_all
  send_raw_all-Sends conn [] w = Sends-none w
  send_raw_all-Sends conn (b ∷ bs) w =
      Sends-append (entry conn (pb.parse_message_container b)) (parsed pb conn bs) w
        (send_raw pb conn b w) (send_raw_all pb conn (b ∷ bs) w) (send_raw-Sends conn b w)
        (send_raw_all-Sends conn bs (send_raw pb conn b w))

  notify_user-Sends :
      (to id type : ℤ) (face : Bytes) (w : World e)
      → (more : List (Bytes × MessageContainer)) × Sends more w (notify_user pb to id type face w)
  unfolding notify_user send_user_status_change_msg
  notify_user-Sends to id type face w =
      Option-elim (λ (w' : World e). (more : List (Bytes × MessageContainer)) × Sends more w w')
        (find_session to w.sessions) ([], Sends-none w)
        (λ t. (_, record { sent = refl; kept = refl }))

  notify_users-Sends :
      (us : List User) (id type : ℤ) (face : Bytes) (w : World e)
      → (more : List (Bytes × MessageContainer)) × Sends more w (notify_users pb us id type face w)
  unfolding notify_users
  notify_users-Sends [] id type face w = ([], Sends-none w)
  notify_users-Sends (u ∷ us) id type face w =
      let w' = notify_user pb u.userid id type face w in
      let (a, first) = notify_user-Sends u.userid id type face w in
      let (b, others) = notify_users-Sends us id type face w' in
      (a ++ b, Sends-append a b w w' (notify_users pb us id type face w') first others)

module _ (e : Env) (pb : Protobuf) (s : ClientSession) where
  -- What is read from a store is sent, and only the outside world changes.
  send_read_lem :
      (read : e.State → List Bytes × e.State) (w : World e)
      → ((send_read e pb s read w).out ≡ w.out ++ parsed pb s.sessionid (read w.store.ext).0)
        × ((send_read e pb s read w).store.ext ≡ (read w.store.ext).1)
  unfolding send_read
  send_read_lem read w =
      let sends =
        send_raw_all-Sends pb s.sessionid (read w.store.ext).0
          (record w { store = record w.store { ext = (read w.store.ext).1 } }) in
      (sends.sent, ap (λ st. st.ext) sends.kept)

  tell_friends-Sends :
      (u : User) (w : World e)
      → (more : List (Bytes × MessageContainer)) × Sends more w (tell_friends e pb u w)
  unfolding tell_friends
  tell_friends-Sends u w =
      Option-elim (λ (w' : World e). (more : List (Bytes × MessageContainer)) × Sends more w w')
        (friend_infos u.userid w.store.manager) ([], Sends-none w)
        (λ friends. notify_users-Sends pb friends u.userid (pos 1) [] w)

  -- What OnLoginResponse sends behind its response: what it reads first, then the stored messages,
  -- then the rest.
  after_login_lem :
      (u : User) (w : World e) (q : List Bytes) (x : e.State)
      → get_chat_msg_cache e u.userid (get_notify_msg_cache e u.userid w.store.ext).1 ≡ (q, x)
      → (before more : List (Bytes × MessageContainer)) × ((after_login e pb s u w).out
          ≡ w.out ++ (before ++ (parsed pb s.sessionid q ++ more)))
        × ((after_login e pb s u w).store.ext ≡ x)
  unfolding after_login
  after_login_lem u w q x found =
      let w1 = send_read e pb s (get_notify_msg_cache e u.userid) w in
      let w2 = send_read e pb s (get_chat_msg_cache e u.userid) w1 in
      let before = parsed pb s.sessionid (get_notify_msg_cache e u.userid w.store.ext).0 in
      let (out1, ext1) = send_read_lem (get_notify_msg_cache e u.userid) w in
      let (out2, ext2) = send_read_lem (get_chat_msg_cache e u.userid) w1 in
      let (more, told) = tell_friends-Sends u w2 in
      let read : get_chat_msg_cache e u.userid w1.store.ext ≡ (q, x) =
        ap (get_chat_msg_cache e u.userid) ext1 ∙ found in
      let out3 : w2.out ≡ (w.out ++ before) ++ parsed pb s.sessionid q =
        out2
        ∙ (ap (λ (r : List Bytes × e.State). w1.out ++ parsed pb s.sessionid r.0) read
            ∙ ap (λ (l : List (Bytes × MessageContainer)). l ++ parsed pb s.sessionid q) out1) in
      (
        before,
        more,
        told.sent
            ∙ (ap (λ (l : List (Bytes × MessageContainer)). l ++ more) out3
                ∙ (append_assoc (w.out ++ before) (parsed pb s.sessionid q) more
                    ∙ append_assoc w.out before (parsed pb s.sessionid q ++ more))),
        ap (λ st. st.ext) told.kept ∙ (ext2 ∙ ap (λ (r : List Bytes × e.State). r.1) read),
      )

module _ (e : Env) (pb : Protobuf) (s : ClientSession) (u : User) (w : World e) where
  -- A message for a user without a session goes into the table.
  deliver-stored :
      (msg : MessageContainer)
      → find_session u.userid w.sessions ≡ none
      → (deliver e pb u.userid msg w).store.ext
        ≡ (add_chat_msg_cache e u.userid (pb.serialize_message_container msg) w.store.ext).1
  unfolding deliver
  deliver-stored msg absent = rw (absent, deliver) refl

  -- The end of a login with code 0.
  finish_login-some :
      (rsp : LoginRsp) (v : World e)
      → s.user ≡ some u
      → rsp.code ≡ pos 0
      → finish_login e pb (rsp, s, v)
        ≡ done (after_login e pb s u (reply s (pos 1002) (pb.serialize_login_rsp rsp) v))
  unfolding finish_login
  finish_login-some rsp v has_user code =
      let v1 : World e = reply s (pos 1002) (pb.serialize_login_rsp rsp) v in
      elim-some s.user crashed
        (λ (u' : User). if eqb rsp.code (pos 0) then done (after_login e pb s u' v1) else done v1) u
        has_user
      ∙ if-true (eqb rsp.code (pos 0)) _ _ ((eqb_iff rsp.code (pos 0)).1 code)

  emptied :
      (table : OfflineTable e u.userid chat_type)
      → (Refusal e u.userid chat_type → ⊥)
      → (q : List Bytes) (x : e.State) → Left e u.userid chat_type table q x
      → table.queue x ≡ []
  emptied table never q x (inl empty) = empty
  emptied table never q x (inr (_, refused)) = absurd (never refused)

  answered :
      (table : OfflineTable e u.userid chat_type)
      → ((x : e.State) → (e.query (select_offline_sql u.userid chat_type) x).0 ≢ none)
      → (x : e.State)
      → (e.query (select_offline_sql u.userid chat_type) x).0
        ≡ some (map (λ b. to_hex b ∷ []) (table.queue x))
  answered table answers x = elim (select_lem e u.userid chat_type table x) [
    | inl silent ↦ absurd (answers x silent)
    | inr rows ↦ rows
  ]

  -- A message for a user who is not connected, whose storing is accepted, is sent in a later world
  -- behind the response of that user's login with code 0, after the ones that were stored before
  -- it, and leaves the table. In between the table holds for that user what it held behind the
  -- message. The table holds bytes, answers queries, refuses no DELETE, and does not change when the
  -- notices are read; the text of the message parses as the message.
  pub deliver-finish_login :
      (table : OfflineTable e u.userid chat_type) (msg : MessageContainer) (v : World e)
      (rsp : LoginRsp)
      → ((x : e.State) → table.queue (get_notify_msg_cache e u.userid x).1 ≡ table.queue x)
      → ((x : e.State) → (e.query (select_offline_sql u.userid chat_type) x).0 ≢ none)
      → (Refusal e u.userid chat_type → ⊥)
      → pb.parse_message_container (pb.serialize_message_container msg) ≡ some msg
      → IsBytes (pb.serialize_message_container msg)
      → All IsBytes (table.queue w.store.ext)
      → find_session u.userid w.sessions ≡ none
      → (add_chat_msg_cache e u.userid (pb.serialize_message_container msg) w.store.ext).0 ≡ true
      → table.queue v.store.ext ≡ table.queue (deliver e pb u.userid msg w).store.ext
      → s.user ≡ some u
      → rsp.code ≡ pos 0
      → (before more : List (Bytes × MessageContainer)) × (v' : World e) × (finish_login e pb
            (rsp, s, v)
          ≡ done v')
        × (v'.out
            ≡ (v.out ++ (s.sessionid, container (pos 1002) s.seq (pb.serialize_login_rsp rsp)) ∷ [])
              ++ (before
                  ++ ((parsed pb s.sessionid (table.queue w.store.ext) ++ (s.sessionid, msg) ∷ [])
                      ++ more)))
        × (table.queue v'.store.ext ≡ [])
  unfolding get_chat_msg_cache add_chat_msg_cache insert_offline_msg finish_login
  deliver-finish_login table msg v rsp quiet answers never round bytes held absent accepted since
        has_user code =
      let b = pb.serialize_message_container msg in
      let v1 : World e = reply s (pos 1002) (pb.serialize_login_rsp rsp) v in
      let z = (get_notify_msg_cache e u.userid v.store.ext).1 in
      let queued : table.queue z ≡ table.queue w.store.ext ++ b ∷ [] =
        quiet v.store.ext
        ∙ (since
            ∙ (ap table.queue (deliver-stored msg absent)
                ∙ (insert_lem e u.userid chat_type table b w.store.ext bytes
                    ∙ ap
                        (λ ok.
                          if ok then table.queue w.store.ext ++ b ∷ [] else table.queue w.store.ext)
                        accepted))) in
      let z_bytes : All IsBytes (table.queue z) =
        subst (All IsBytes) (sym queued)
          (All-append IsBytes (table.queue w.store.ext) (b ∷ []) held (bytes, tt)) in
      let (given, left) =
        fetch_answered e u.userid chat_type table z z_bytes (answered table answers z) in
      let (before, more, out, ext) =
        after_login_lem e pb s u v1 (table.queue w.store.ext ++ b ∷ [])
          (get_chat_msg_cache e u.userid z).1
          (ap (λ q. (q, (get_chat_msg_cache e u.userid z).1)) (given ∙ queued)) in
      (
        before,
        more,
        after_login e pb s u v1,
        finish_login-some rsp v has_user code,
        out
            ∙ ap (λ l. v1.out ++ (before ++ (l ++ more)))
                (parsed-append pb s.sessionid (table.queue w.store.ext) b msg round),
        ap table.queue ext ∙ emptied table never _ _ left,
      )
