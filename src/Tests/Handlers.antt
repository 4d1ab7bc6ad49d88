-- ===== src/Tests/Handlers.antt =====
-- Each theorem about groups, requests, messages and connections, applied to a server with four
-- accounts.
use aim_server.Common.{◌≡◌, refl, ◌≢◌, true, false, some, [], ◌∷◌, ◌++◌, bytes_eq, pos, eqb, text}
use aim_server.IdSet.{member}
use aim_server.Proto.{KickGroupMemberReq, SetGroupAdminReq, RenameGroupReq}
use aim_server.Users.User.{User}
use aim_server.Users.Directory.{find_user, position, store_user, assign, empty_manager}
use aim_server.Users.Manager.{
  is_friend, is_group_admin, release_friend_relationship, set_group_admin, rename_group,
  friend_infos, known_users,
}
use aim_server.Session.State.{crashed, session_at}
use aim_server.Session.Groups.{kick_group_member, set_admin, rename, can_manage}
use aim_server.Session.Groups.Rights.{kick_group_member-ok, rename-ok, set_admin-ok}
use aim_server.Session.Chat.{route}
use aim_server.Session.Chat.Delivery.{addressed, connected_others, route-group}
use aim_server.Session.Dispatch.{receive, on_connection}
use aim_server.Session.Dispatch.Crashes.{receive-crash}
use aim_server.Fixtures.{live, codec, alice, bob, team, world, command, cache, cache-IsCoherent}

abbrev kick_bob : KickGroupMemberReq
kick_bob = record { groupid = pos 0x10000000; memberid = pos 2 }

kicked : (kick_group_member live codec kick_bob alice world).0.0 ≡ pos 0
unfolding kick_group_member release_friend_relationship is_friend member find_user position
    store_user assign empty_manager eqb
kicked = refl

found_team : find_user (pos 0x10000000) cache ≡ some team
unfolding find_user position store_user assign empty_manager eqb
found_team = refl

kick_group_member-ok_example :
    (team.ownerid ≡ alice.userid)
    × (pos 2 ≢ team.ownerid)
    × (is_friend
          (pos 2)
          (pos 0x10000000)
          (kick_group_member live codec kick_bob alice world).1.store.manager
        ≡ false)
    × (is_friend
          (pos 0x10000000)
          (pos 2)
          (kick_group_member live codec kick_bob alice world).1.store.manager
        ≡ false)
kick_group_member-ok_example =
    kick_group_member-ok live codec kick_bob alice team world cache-IsCoherent found_team kicked

abbrev dismiss_bob : SetGroupAdminReq
dismiss_bob = record { groupid = pos 0x10000000; memberid = pos 2; is_admin = false }

set_admin-ok_example :
    (team.ownerid ≡ alice.userid)
    × (is_friend (pos 2) (pos 0x10000000) cache ≡ true)
    × (is_group_admin
          (pos 0x10000000)
          (pos 2)
          (set_admin live codec dismiss_bob alice world).1.store.manager
        ≡ false)
unfolding set_admin set_group_admin is_friend member find_user position store_user assign
    empty_manager eqb
set_admin-ok_example =
    set_admin-ok live codec dismiss_bob alice team world cache-IsCoherent found_team refl

abbrev new_name : RenameGroupReq
new_name = record { groupid = pos 0x10000000; newname = text "crew" }

-- The second account administers the group.
rename-ok_example :
    (can_manage (pos 0x10000000) (pos 2) cache ≡ true)
    × (g : User) × (find_user
          (pos 0x10000000)
          (rename live codec new_name bob world).1.store.manager
        ≡ some g)
    × (g.username ≡ text "crew")
    × (g.nickname ≡ text "crew")
    × (g.ownerid ≡ team.ownerid)
unfolding rename rename_group can_manage is_group_admin member find_user position store_user assign
    empty_manager eqb text
rename-ok_example = rename-ok live codec new_name bob team world cache-IsCoherent found_team refl

route-group_example :
    ((route live codec (pos 1) (pos 0x10000000) (command (pos 1100)) world).out
      ≡ []
        ++ addressed
            (command (pos 1100))
            (connected_others (pos 1) (alice ∷ bob ∷ []) world.sessions))
    × ((route live codec (pos 1) (pos 0x10000000) (command (pos 1100)) world).store.manager ≡ cache)
unfolding friend_infos known_users find_user position store_user assign empty_manager eqb
route-group_example =
    route-group live codec (pos 1) (pos 0x10000000) (command (pos 1100)) (alice ∷ bob ∷ []) world
      refl refl

receive-crash_example :
    receive live codec
      (text "new")
      (command (pos 1003))
      (on_connection live codec (text "new") world)
    ≡ crashed
unfolding session_at bytes_eq text eqb
receive-crash_example = receive-crash live codec (text "new") (command (pos 1003)) world refl refl
