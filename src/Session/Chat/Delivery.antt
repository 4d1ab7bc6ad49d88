-- ===== src/Session/Chat/Delivery.antt =====
-- Whom OnChatResponse (IMServer/IMServer/ClientSession.cpp) sends a message to.
use aim_server.Common.{
  ◌≡◌, refl, ◌∙◌, sym, false, none, some, inl, inr, List, [], ◌∷◌, ◌++◌, if◌then◌else◌, Bytes, ℤ,
  eqb, ltb_ℤ, Bool-cases, Option-cases,
}
use mathlib.Core.List.{append-nil, append_assoc}
use aim_server.Env.{Env}
use aim_server.Proto.{Protobuf, MessageContainer}
use aim_server.Offline.{add_chat_msg_cache}
use aim_server.Users.User.{User, group_boundary}
use aim_server.Users.Manager.{friend_infos}
use aim_server.Session.State.{ClientSession, World, find_session, send, on_ext}
use aim_server.Session.Chat.{deliver, deliver_others, route}

-- The sessions, by their ids, of the members that are connected, the sender left out.
abbrev pub connected_others : ℤ → List User → List (Bytes × ClientSession) → List Bytes
connected_others sender [] sessions = []
connected_others sender (u ∷ us) sessions =
    let rest = connected_others sender us sessions in
    if eqb u.userid sender
    then rest
    else elim (find_session u.userid sessions) [ none ↦ rest | some t ↦ t.sessionid ∷ rest ]

-- The same message for each of several sessions.
abbrev pub addressed : MessageContainer → List Bytes → List (Bytes × MessageContainer)
addressed msg [] = []
addressed msg (c ∷ cs) = (c, msg) ∷ addressed msg cs

module _ (e : Env) (pb : Protobuf) where
  deliver_others-out :
      (sender : ℤ) (us : List User) (msg : MessageContainer) (w : World e)
      → ((deliver_others e pb sender us msg w).out
          ≡ w.out ++ addressed msg (connected_others sender us w.sessions))
        × ((deliver_others e pb sender us msg w).store.manager ≡ w.store.manager)
  unfolding deliver_others deliver
  deliver_others-out sender [] msg w = (sym (append-nil w.out), refl)
  deliver_others-out sender (u ∷ us) msg w = elim (Bool-cases (eqb u.userid sender)) [
    | inl own ↦ rw (own, deliver_others) (deliver_others-out sender us msg w)
    | inr other ↦ elim (Option-cases (find_session u.userid w.sessions)) [
      | inl absent ↦
          rw (other, deliver_others, absent, deliver)
            (deliver_others-out sender us msg
              (on_ext (add_chat_msg_cache e u.userid (pb.serialize_message_container msg)) w).1)
      | inr (t, found) ↦
          let (sent, kept) = deliver_others-out sender us msg (send t.sessionid msg w) in
          rw (other, deliver_others, found, deliver)
            (
              sent
                  ∙ append_assoc w.out ((t.sessionid, msg) ∷ [])
                      (addressed msg (connected_others sender us w.sessions)),
              kept,
            )
    ]
  ]

  -- A message to a group goes, once for each entry, to the session of every connected member but
  -- the sender, in the order of the members and behind what was sent before; it changes no account.
  pub route-group :
      (sender target : ℤ) (msg : MessageContainer) (members : List User) (w : World e)
      → ltb_ℤ target group_boundary ≡ false
      → friend_infos target w.store.manager ≡ some members
      → ((route e pb sender target msg w).out
          ≡ w.out ++ addressed msg (connected_others sender members w.sessions))
        × ((route e pb sender target msg w).store.manager ≡ w.store.manager)
  unfolding route
  route-group sender target msg members w group known =
      rw (group, route, known) (deliver_others-out sender members msg w)
