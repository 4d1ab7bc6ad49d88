-- ===== src/Session/Groups/Rights.antt =====
-- Who may do what in a group, and what it does: OnKickGroupMemberResponse,
-- OnSetGroupAdminResponse and OnRenameGroupResponse (IMServer/IMServer/ClientSession.cpp).
use mathlib.Core.Option
use aim_server.Common.{
  ◌≡◌, refl, ◌≢◌, true, false, some, inl, inr, [], arith, if◌then◌else◌, ℤ, pos, eqb, eqb_iff,
  eqb_refl, Option-cases,
}
use aim_server.Env.{Env}
use aim_server.Proto.{Protobuf, KickGroupMemberReq, RenameGroupReq, SetGroupAdminReq}
use aim_server.Users.User.{User}
use aim_server.Users.Directory.{
  UserManager, IsCoherent, find_user, update_user, find_user-update_user,
}
use aim_server.Users.Manager.{
  is_friend, is_group_admin, unlink, release_friend_relationship, set_group_admin, rename_group,
  friend_infos, with_group_name, add_admin, drop_admin,
}
use aim_server.Users.Manager.Admins.{
  rights, is_group_admin-set, is_group_admin-found, unlink-rights,
}
use aim_server.Users.Manager.Changes.{
  release_friend_relationship-manager, rename_group-manager, set_group_admin-manager,
}
use aim_server.Users.Manager.Friendship.{unlink-is_friend}
use aim_server.Session.State.{World}
use aim_server.Session.State.Laws.{notify_user-store, notify_others-store}
use aim_server.Session.Groups.{kick_group_member, set_admin, rename, can_manage}

-- Managing depends on the rights in the group alone.
can_manage-rights :
    (g id : ℤ) (m m' : UserManager)
    → Option.map rights (find_user g m) ≡ Option.map rights (find_user g m')
    → can_manage g id m ≡ can_manage g id m'
unfolding can_manage
can_manage-rights g id m m' same = elim (Option-cases (find_user g m)) [
  | inl absent ↦ elim (Option-cases (find_user g m')) [
    | inl absent' ↦ ground arith
    | inr (x', found') ↦ ground arith
  ]
  | inr (x, found) ↦ elim (Option-cases (find_user g m')) [
    | inl absent' ↦ ground arith
    | inr (x', found') ↦
        ground (arith, is_group_admin-found m g id x found, is_group_admin-found m' g id x' found')
  ]
]

module _ (e : Env) (pb : Protobuf) where
  -- What stands behind the code 0 of a removal.
  kick-done :
      (req : KickGroupMemberReq) (u g : User) (w : World e)
      → find_user req.groupid w.store.manager ≡ some g
      → (kick_group_member e pb req u w).0.0 ≡ pos 0
      → (eqb g.ownerid u.userid ≡ true)
        × (eqb req.memberid g.ownerid ≡ false)
        × (is_friend req.memberid req.groupid w.store.manager ≡ true)
        × ((kick_group_member e pb req u w).1.store.manager
            ≡ unlink req.memberid req.groupid w.store.manager)
  unfolding kick_group_member
  kick-done req u g w found h =
      let ended = release_friend_relationship e req.memberid req.groupid w.store in
      ground (
        arith,
        release_friend_relationship-manager e req.memberid req.groupid w.store,
        notify_user-store pb req.memberid req.groupid (pos 3) [] (record w { store = ended.1 }),
      )

  -- Only the owner of a group removes a member, and never himself; code 0 means that the group and
  -- the member are friends of each other no more.
  pub kick_group_member-ok :
      (req : KickGroupMemberReq) (u g : User) (w : World e)
      → IsCoherent w.store.manager
      → find_user req.groupid w.store.manager ≡ some g
      → (kick_group_member e pb req u w).0.0 ≡ pos 0
      → (g.ownerid ≡ u.userid)
        × (req.memberid ≢ g.ownerid)
        × (is_friend req.memberid req.groupid (kick_group_member e pb req u w).1.store.manager
            ≡ false)
        × (is_friend req.groupid req.memberid (kick_group_member e pb req u w).1.store.manager
            ≡ false)
  kick_group_member-ok req u g w c found h =
      let (owner, other, here, gone) = kick-done req u g w found h in
      (
        ground (arith, eqb_iff g.ownerid u.userid),
        ground (arith, eqb_iff req.memberid g.ownerid),
        rw gone (
            ground (
              arith,
              unlink-is_friend w.store.manager c req.memberid req.groupid req.memberid req.groupid,
              eqb_refl req.memberid,
              eqb_refl req.groupid,
            )),
        rw gone (
            ground (
              arith,
              unlink-is_friend w.store.manager c req.memberid req.groupid req.groupid req.memberid,
              eqb_refl req.memberid,
              eqb_refl req.groupid,
            )),
      )

  -- Removing a member changes nobody's right to manage that group: an administrator who is removed
  -- can still rename it.
  kick_group_member-can_manage :
      (req : KickGroupMemberReq) (u g : User) (id : ℤ) (w : World e)
      → IsCoherent w.store.manager
      → find_user req.groupid w.store.manager ≡ some g
      → (kick_group_member e pb req u w).0.0 ≡ pos 0
      → can_manage req.groupid id (kick_group_member e pb req u w).1.store.manager
        ≡ can_manage req.groupid id w.store.manager
  kick_group_member-can_manage req u g id w c found h =
      let (owner, other, here, gone) = kick-done req u g w found h in
      rw gone (
        can_manage-rights req.groupid id _ _
          (unlink-rights w.store.manager c req.memberid req.groupid req.groupid))

  -- What stands behind the code 0 of a change of administrators.
  set_admin-done :
      (req : SetGroupAdminReq) (u g : User) (w : World e)
      → find_user req.groupid w.store.manager ≡ some g
      → (set_admin e pb req u w).0.0 ≡ pos 0
      → (eqb g.ownerid u.userid ≡ true)
        × (is_friend req.memberid req.groupid w.store.manager ≡ true)
        × ((set_admin e pb req u w).1.store.manager
            ≡ update_user req.groupid
                (if req.is_admin then add_admin req.memberid else drop_admin req.memberid)
                w.store.manager)
  unfolding set_admin
  set_admin-done req u g w found h =
      let set = set_group_admin e req.groupid req.memberid req.is_admin w.store in
      ground (
        arith,
        set_group_admin-manager e req.groupid req.memberid req.is_admin w.store,
        notify_user-store pb req.memberid req.groupid (pos 6) [] (record w { store = set.1 }),
      )

  -- Only the owner of a group appoints or dismisses an administrator, and only a member; after
  -- code 0 the cache says of the member what was asked for.
  pub set_admin-ok :
      (req : SetGroupAdminReq) (u g : User) (w : World e)
      → IsCoherent w.store.manager
      → find_user req.groupid w.store.manager ≡ some g
      → (set_admin e pb req u w).0.0 ≡ pos 0
      → (g.ownerid ≡ u.userid)
        × (is_friend req.memberid req.groupid w.store.manager ≡ true)
        × (is_group_admin req.groupid req.memberid (set_admin e pb req u w).1.store.manager
            ≡ req.is_admin)
  set_admin-ok req u g w c found h =
      let (owner, here, set) = set_admin-done req u g w found h in
      (
        ground (arith, eqb_iff g.ownerid u.userid),
        here,
        rw set (is_group_admin-set w.store.manager c req.groupid req.memberid req.is_admin g found),
      )

  -- What stands behind the code 0 of a new name.
  rename-done :
      (req : RenameGroupReq) (u g : User) (w : World e)
      → find_user req.groupid w.store.manager ≡ some g
      → (rename e pb req u w).0.0 ≡ pos 0
      → (can_manage req.groupid u.userid w.store.manager ≡ true)
        × ((rename e pb req u w).1.store.manager
            ≡ update_user req.groupid (with_group_name req.newname) w.store.manager)
  unfolding rename
  rename-done req u g w found h =
      let renamed = rename_group e req.groupid req.newname w.store in
      elim (Option-cases (friend_infos req.groupid renamed.1.manager)) [
        | inl absent ↦ ground (arith, rename_group-manager e req.groupid req.newname w.store)
        | inr (members, present) ↦ ground (
          arith,
          rename_group-manager e req.groupid req.newname w.store,
          notify_others-store pb u.userid members req.groupid (pos 6) []
              (record w { store = renamed.1 }),
        )
      ]

  -- Only who may manage a known group renames it; after code 0 the cached group has the new name as
  -- its name and nickname, and the same owner.
  pub rename-ok :
      (req : RenameGroupReq) (u g : User) (w : World e)
      → IsCoherent w.store.manager
      → find_user req.groupid w.store.manager ≡ some g
      → (rename e pb req u w).0.0 ≡ pos 0
      → (can_manage req.groupid u.userid w.store.manager ≡ true)
        × (g' : User) × (find_user req.groupid (rename e pb req u w).1.store.manager ≡ some g')
        × (g'.username ≡ req.newname)
        × (g'.nickname ≡ req.newname)
        × (g'.ownerid ≡ g.ownerid)
  rename-ok req u g w c found h =
      let (allowed, changed) = rename-done req u g w found h in
      (
        allowed,
        with_group_name req.newname g,
        rw changed (
            ground (
              arith,
              find_user-update_user w.store.manager c req.groupid req.groupid
                  (with_group_name req.newname),
              eqb_refl req.groupid,
            )),
        refl,
        refl,
        refl,
      )
