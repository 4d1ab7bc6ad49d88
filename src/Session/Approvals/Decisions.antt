-- ===== src/Session/Approvals/Decisions.antt =====
-- What OnHandleRequestResponse (IMServer/IMServer/ClientSession.cpp) promises about a request that
-- is stored.
use aim_server.Common.{
  ◌≡◌, refl, ◌≢◌, true, Option, none, some, inl, inr, [], arith, if◌then◌else◌, ℤ, pos, eqb,
  eqb_iff, eqb_refl, Bool-cases,
}
use aim_server.Env.{Env}
use aim_server.Proto.{Protobuf, HandleRequestReq}
use aim_server.Users.User.{User, FriendRequestInfo}
use aim_server.Users.Directory.{UserManager, IsCoherent}
use aim_server.Users.Manager.{is_friend, link, make_friend_relationship}
use aim_server.Users.Manager.Changes.{make_friend_relationship-made}
use aim_server.Users.Manager.Friendship.{link-is_friend, link-made}
use aim_server.Session.State.{World}
use aim_server.Session.State.Laws.{notify_user-store}
use aim_server.Session.Groups.{smaller, greater}
use aim_server.Session.Approvals.{accept_link, accept_request, decide_request}

-- The two ids that an accepted request links.
abbrev pub linked_ids : FriendRequestInfo → ℤ × ℤ
linked_ids r =
    if eqb r.reqtype (pos 1)
    then (r.fromid, r.toid)
    else if eqb r.reqtype (pos 2)
    then (r.toid, r.groupid)
    else (r.fromid, r.groupid)

module _ (e : Env) (pb : Protobuf) where
  accept_link-ok :
      (a b : ℤ) (notice : Option (ℤ × ℤ × ℤ)) (w : World e)
      → (accept_link e pb a b notice w).0 ≡ true
      → ((link (smaller a b) (greater a b) w.store.manager).0 ≡ true)
        × ((accept_link e pb a b notice w).1.store.manager
            ≡ (link (smaller a b) (greater a b) w.store.manager).1)
  unfolding accept_link
  accept_link-ok a b none w h =
      ground (arith, make_friend_relationship-made e (smaller a b) (greater a b) w.store)
  accept_link-ok a b (some (to, about, type)) w h =
      let made = make_friend_relationship e (smaller a b) (greater a b) w.store in
      ground (
        arith,
        make_friend_relationship-made e (smaller a b) (greater a b) w.store,
        notify_user-store pb to about type [] (record w { store = made.1 }),
      )

  linked-friends :
      (a b : ℤ) (m : UserManager)
      → IsCoherent m
      → (link (smaller a b) (greater a b) m).0 ≡ true
      → (is_friend a b (link (smaller a b) (greater a b) m).1 ≡ true)
        × (is_friend b a (link (smaller a b) (greater a b) m).1 ≡ true)
  linked-friends a b m c h = ground (
    arith,
    link-made m c (smaller a b) (greater a b),
    link-is_friend m c (smaller a b) (greater a b) a b,
    link-is_friend m c (smaller a b) (greater a b) b a,
    eqb_refl a,
    eqb_refl b,
  )

  -- A request that is decided by anybody but its receiver gets code 103 and changes nothing.
  pub decide_request-stranger :
      (req : HandleRequestReq) (r : FriendRequestInfo) (u : User) (w : World e)
      → r.toid ≢ u.userid
      → ((decide_request e pb req r u w).0.code ≡ pos 103) × ((decide_request e pb req r u w).1 ≡ w)
  unfolding decide_request
  decide_request-stranger req r u w other = elim (Bool-cases (eqb r.toid u.userid)) [
    | inl same ↦ absurd (other ((eqb_iff r.toid u.userid).0 same))
    | inr foreign ↦ rw (foreign, decide_request) (refl, refl)
  ]

  accept_request-ok :
      (r : FriendRequestInfo) (w : World e)
      → (accept_request e pb r w).0 ≡ true
      → ((link
            (smaller (linked_ids r).0 (linked_ids r).1)
            (greater (linked_ids r).0 (linked_ids r).1)
            w.store.manager).0
          ≡ true)
        × ((accept_request e pb r w).1.store.manager
            ≡ (link
                (smaller (linked_ids r).0 (linked_ids r).1)
                (greater (linked_ids r).0 (linked_ids r).1)
                w.store.manager).1)
  unfolding accept_request
  accept_request-ok r w h = elim (Bool-cases (eqb r.reqtype (pos 1))) [
    | inl friendship ↦
        rw (friendship, accept_request)
          (accept_link-ok r.fromid r.toid (some (r.fromid, r.toid, pos 4)) w
            (rw (friendship, accept_request) at h))
    | inr other ↦ elim (Bool-cases (eqb r.reqtype (pos 2))) [
      | inl invitation ↦
          rw (other, accept_request, invitation)
            (accept_link-ok r.toid r.groupid none w (rw (other, accept_request, invitation) at h))
      | inr another ↦ elim (Bool-cases (eqb r.reqtype (pos 3))) [
        | inl entry ↦
            rw (other, accept_request, another, entry)
              (accept_link-ok r.fromid r.groupid (some (r.fromid, r.groupid, pos 6)) w
                (rw (other, accept_request, another, entry) at h))
        | inr unknown ↦ absurd (ground arith)
      ]
    ]
  ]

  -- A decision with any action but 2 is answered with code 0 only if the cache then has the two ids
  -- of the request as friends of each other.
  pub decide_request-accepted :
      (req : HandleRequestReq) (r : FriendRequestInfo) (u : User) (w : World e)
      → IsCoherent w.store.manager
      → req.action ≢ pos 2
      → (decide_request e pb req r u w).0.code ≡ pos 0
      → (is_friend (linked_ids r).0 (linked_ids r).1 (decide_request e pb req r u w).1.store.manager
          ≡ true)
        × (is_friend
              (linked_ids r).1
              (linked_ids r).0
              (decide_request e pb req r u w).1.store.manager
            ≡ true)
  unfolding decide_request
  decide_request-accepted req r u w c accepting h = elim (Bool-cases (eqb r.toid u.userid)) [
    | inr foreign ↦ absurd (ground arith)
    | inl own ↦ elim (Bool-cases (eqb req.action (pos 2))) [
      | inl rejecting ↦ absurd (accepting ((eqb_iff req.action (pos 2)).0 rejecting))
      | inr other ↦ elim (Bool-cases (accept_request e pb r w).0) [
        | inr failed ↦ absurd (ground arith)
        | inl ok ↦
            let (made, linked) = accept_request-ok r w ok in
            rw (own, decide_request, other, ok, linked)
              (linked-friends (linked_ids r).0 (linked_ids r).1 w.store.manager c made)
      ]
    ]
  ]

  -- A decision with action 2 leaves the cache alone.
  pub decide_request-rejected :
      (req : HandleRequestReq) (r : FriendRequestInfo) (u : User) (w : World e)
      → req.action ≡ pos 2
      → (decide_request e pb req r u w).1.store.manager ≡ w.store.manager
  unfolding decide_request eqb
  decide_request-rejected req r u w rejecting = rw (rejecting, decide_request) (ground arith)
