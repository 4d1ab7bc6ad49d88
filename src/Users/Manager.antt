-- ===== src/Users/Manager.antt =====
-- The methods of class UserManager (IMServer/IMServer/UserManager.cpp) that register users and keep
-- their data: each runs under the class's mutex from its first access to the cache on.
pub mod Invariant
pub mod Admins
pub mod Changes
pub mod Friendship
pub mod Registration
use aim_server.Common.{
  ℕ, ◌≡◌, Bool, true, false, not, ◌&&◌, Option, none, some, List, [], ◌∷◌, ◌==◌, if◌then◌else◌,
  Bytes, bytes_eq, is_empty, ℤ, pos, succ_int32, ltb_ℤ, leb_ℤ, map,
}
use aim_server.Env.{Env}
use aim_server.IdSet.{member, insert, erase}
use aim_server.Password.{hash_password}
use aim_server.Query.{first_row}
use aim_server.Users.User.{User, new_user}
use aim_server.Users.Directory.{UserManager, find_user, update_user, store_user}
use aim_server.Users.Statements

-- A method's state: the cache and the world outside.
pub record Store (e : Env) : Type 0 where
  pub manager : UserManager
  pub ext : e.State

-- The loop of AddUser over m_cachedUsers: 1 for a taken name, 2 for a taken mail address.
unfoldable pub clash : User → List User → ℕ
clash u [] = 0
clash u (x ∷ xs) =
    let rest = clash u xs in
    if bytes_eq x.username u.username
    then 1
    else if not (is_empty u.mail) && bytes_eq x.mail u.mail
    then 2
    else rest

-- The object that AddUser files.
abbrev pub registered : User → ℤ → Bytes → User
registered u id hashed = record u {
  userid = id;
  password = hashed;
  facetype = pos 0;
  birthday = pos 20000101;
  gender = pos 0;
  ownerid = pos 0;
}

-- The object that AddGroup files.
abbrev pub new_group : ℤ → Bytes → ℤ → User
new_group groupid groupname ownerid = record new_user {
  userid = groupid;
  username = groupname;
  nickname = groupname;
  ownerid = ownerid;
  facetype = pos 0;
  gender = pos 0;
  birthday = pos 20000101;
}

-- The fields that UpdateUserInfo writes into the cached object.
abbrev pub with_info : User → User → User
with_info new u = record u {
  nickname = new.nickname;
  facetype = new.facetype;
  customface = new.customface;
  gender = new.gender;
  birthday = new.birthday;
  signature = new.signature;
  address = new.address;
  phonenumber = new.phonenumber;
  mail = new.mail;
}

-- GetUserInfoUsername: a copy of the first cached user with that name.
unfoldable pub user_by_name : Bytes → List User → Option User
user_by_name name [] = none
user_by_name name (x ∷ xs) = if bytes_eq x.username name then some x else user_by_name name xs

-- The objects of the ids that the map knows, in the order of the set.
unfoldable pub known_users : UserManager → List ℤ → List User
known_users m [] = []
known_users m (id ∷ ids) =
    let rest = known_users m ids in elim (find_user id m) [ none ↦ rest | some u ↦ u ∷ rest ]

-- GetFriendInfoByUserID: false, for an unknown id, is `none`.
unfoldable pub friend_infos : ℤ → UserManager → Option (List User)
friend_infos id m = elim (find_user id m) [ none ↦ none | some u ↦ some (known_users m u.friends) ]

-- IsFriend.
unfoldable pub is_friend : ℤ → ℤ → UserManager → Bool
is_friend id friendid m = elim (find_user id m) [
  | none ↦ false
  | some u ↦ member friendid u.friends
]

-- IsGroupAdmin.
unfoldable pub is_group_admin : ℤ → ℤ → UserManager → Bool
is_group_admin groupid id m = elim (find_user groupid m) [
  | none ↦ false
  | some g ↦ member id g.admins
]

-- Whether the map knows an id.
abbrev pub knows : UserManager → ℤ → Bool
knows m id = elim (find_user id m) [ none ↦ false | some _ ↦ true ]

abbrev pub befriend : ℤ → User → User
befriend id u = record u { friends = insert id u.friends }

abbrev pub unfriend : ℤ → User → User
unfriend id u = record u { friends = erase id u.friends }

abbrev pub with_status : ℤ → User → User
with_status status u = record u { status = status }

abbrev pub with_password : Bytes → User → User
with_password hashed u = record u { password = hashed }

abbrev pub with_group_name : Bytes → User → User
with_group_name name g = record g { nickname = name; username = name }

abbrev pub add_admin : ℤ → User → User
add_admin id g = record g { admins = insert id g.admins }

abbrev pub drop_admin : ℤ → User → User
drop_admin id g = record g { admins = erase id g.admins }

-- MakeFriendRelationship behind its INSERT.
unfoldable pub link : ℤ → ℤ → UserManager → Bool × UserManager
link small great m =
    if not (knows m small)
    then (false, m)
    else let half = update_user small (befriend great) m in
      if not (knows half great)
      then (false, half)
      else (true, update_user great (befriend small) half)

-- ReleaseFriendRelationship and DeleteFriendToUser behind their DELETE.
pub unlink : ℤ → ℤ → UserManager → UserManager
unlink one other m = update_user other (unfriend one) (update_user one (unfriend other) m)

module _ (e : Env) where
  -- AddUser: 0 for success, 1 and 2 for a clash, 3 for a database error.
  unfoldable pub add_user : User → Store e → ℕ × Store e
  add_user u s =
      let found = clash u s.manager.cached_users in
      let (draws, ext) = e.draws s.ext in
      let hashed = hash_password draws u.password in
      let newid = succ_int32 s.manager.base_user_id in
      let (ok, ext') = e.execute (Statements.Insert.user newid u hashed) ext in
      let new_base = record s.manager { base_user_id = newid } in
      if not (found == 0)
      then (found, s)
      else if ok
      then (0, record { manager = store_user (registered u newid hashed) new_base; ext = ext' })
      else (3, record s { ext = ext' })

  pub set_user_status : ℤ → ℤ → Store e → Bool × Store e
  set_user_status id status s =
      (knows s.manager id, record s { manager = update_user id (with_status status) s.manager })

  -- An Execute, and a change of the cache if it succeeds.
  abbrev pub write : Bytes → (UserManager → UserManager) → Store e → Bool × Store e
  write sql change s =
      let (ok, ext) = e.execute sql s.ext in
      if ok
      then (true, record { manager = change s.manager; ext = ext })
      else (false, record s { ext = ext })

  unfoldable pub make_friend_relationship : ℤ → ℤ → Store e → Bool × Store e
  make_friend_relationship smallid greatid s =
      let (ok, ext) = e.execute (Statements.Insert.relationship smallid greatid) s.ext in
      let (made, m) = link smallid greatid s.manager in
      if not (ltb_ℤ smallid greatid)
      then (false, s)
      else if not ok
      then (false, record s { ext = ext })
      else (made, record { manager = m; ext = ext })

  unfoldable pub release_friend_relationship : ℤ → ℤ → Store e → Bool × Store e
  release_friend_relationship smallid greatid s =
      let released =
        write (Statements.Remove.relationship smallid greatid) (unlink smallid greatid) s in
      if not (ltb_ℤ smallid greatid) then (false, s) else released

  pub delete_friend_to_user : ℤ → ℤ → Store e → Bool × Store e
  delete_friend_to_user id friendid =
      let smallid = if ltb_ℤ id friendid then id else friendid in
      let greatid = if ltb_ℤ id friendid then friendid else id in
      write (Statements.Remove.relationship smallid greatid) (unlink id friendid)

  pub update_user_info : ℤ → User → Store e → Bool × Store e
  update_user_info id new =
      write (Statements.Update.user_info id new) (update_user id (with_info new))

  unfoldable pub modify_user_password : ℤ → Bytes → Store e → Bool × Store e
  modify_user_password id newpassword s =
      let (draws, ext) = e.draws s.ext in
      let hashed = hash_password draws newpassword in
      write (Statements.Update.password id hashed) (update_user id (with_password hashed))
        (record s { ext = ext })

  -- AddGroup: the id of the group comes out beside the success.
  pub add_group : Bytes → ℤ → Store e → Bool × ℤ × Store e
  add_group groupname ownerid s =
      let groupid = succ_int32 s.manager.base_group_id in
      let counted = record s.manager { base_group_id = groupid } in
      let (ok, ext) = e.execute (Statements.Insert.group groupid groupname ownerid) s.ext in
      if ok
      then (
        true,
        groupid,
        record { manager = store_user (new_group groupid groupname ownerid) counted; ext = ext },
      )
      else (false, groupid, record { manager = counted; ext = ext })

  unfoldable pub rename_group : ℤ → Bytes → Store e → Bool × Store e
  rename_group groupid newname =
      write (Statements.Update.group_name groupid newname)
        (update_user groupid (with_group_name newname))

  -- The query of SetGroupAdmin for an entry that is there already.
  pub admin_entry_exists : ℤ → ℤ → Store e → Bool × Store e
  admin_entry_exists groupid id s =
      let (rows, ext) = e.query (Statements.Select.group_admin groupid id) s.ext in
      (
        elim rows [ none ↦ false | some rs ↦ elim (first_row rs) [ none ↦ false | some _ ↦ true ] ],
        record s { ext = ext },
      )

  unfoldable pub set_group_admin : ℤ → ℤ → Bool → Store e → Bool × Store e
  unfolding admin_entry_exists
  set_group_admin groupid id true s =
      let add = update_user groupid (add_admin id) in
      let (exists, s') = admin_entry_exists groupid id s in
      let written = write (Statements.Insert.group_admin groupid id) add s' in
      if exists then (true, record s' { manager = add s'.manager }) else written
  set_group_admin groupid id false s =
      write (Statements.Remove.group_admin groupid id) (update_user groupid (drop_admin id)) s
