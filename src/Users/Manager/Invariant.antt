-- ===== src/Users/Manager/Invariant.antt =====
-- The methods of class UserManager that change the cache (IMServer/IMServer/UserManager.cpp), and its
-- invariant.
use aim_server.Common.{
  refl, Bool, true, false, inl, inr, arith, if◌then◌else◌, ◌==◌, Bytes, ℤ, pos, ◌≤ℤ◌, ◌<ℤ◌, ltb_ℤ,
  int32_max, succ_int32, succ_int32-grows, Bool-cases, if-elim,
}
use aim_server.Env.{Env}
use aim_server.Password.{hash_password}
use aim_server.Users.User.{User, group_boundary}
use aim_server.Users.Directory.{UserManager, update_user}
use aim_server.Users.Directory.Invariant.{
  Inv, update_user-Inv, store_user-Inv, raise_bases-Inv, fresh_user_id, fresh_group_id,
  position_unused,
}
use aim_server.Users.Manager.{
  Store, add_user, set_user_status, make_friend_relationship, release_friend_relationship,
  delete_friend_to_user, update_user_info, modify_user_password, add_group, rename_group,
  set_group_admin, admin_entry_exists, write, link, unlink, registered, clash, befriend, unfriend,
  knows, with_info, with_status, with_password, with_group_name, add_admin, drop_admin,
}
use aim_server.Users.Statements

-- The calls that change the cache.
pub data Call : Type 0 where
  adds : User → Call
  sets_status : ℤ → ℤ → Call
  makes_friends releases_friends deletes_friend : ℤ → ℤ → Call
  updates_info : ℤ → User → Call
  modifies_password : ℤ → Bytes → Call
  adds_group : Bytes → ℤ → Call
  renames_group : ℤ → Bytes → Call
  sets_admin : ℤ → ℤ → Bool → Call

-- There are ids left: below the group ids for a user, in int32_t for a group.
pub record HasRoom (m : UserManager) : Type 0 where
  pub users_left : m.base_user_id <ℤ pos 0xFFFFFFE
  pub groups_left : m.base_group_id <ℤ int32_max
  pub groups_apart : group_boundary ≤ℤ m.base_group_id

link-Inv : (a b : ℤ) (m : UserManager) → Inv m → Inv (link a b m).1
unfolding link
link-Inv a b m v =
    let half = update_user a (befriend b) m in
    let hv = update_user-Inv m v a (befriend b) (λ u. refl) in
    elim (Bool-cases (knows m a)) [
      | inr absent ↦ rw (absent, link) v
      | inl known ↦ elim (Bool-cases (knows half b)) [
        | inr absent ↦ rw (known, link, absent) hv
        | inl both ↦ rw (known, link, both) (update_user-Inv half hv b (befriend a) (λ u. refl))
      ]
    ]

unlink-Inv : (a b : ℤ) (m : UserManager) → Inv m → Inv (unlink a b m)
unfolding unlink
unlink-Inv a b m v =
    update_user-Inv _ (update_user-Inv m v a (unfriend b) (λ u. refl)) b (unfriend a) (λ u. refl)

module _ (e : Env) where
  abbrev Kept : Bool × Store e → Type 0
  Kept r = Inv r.1.manager

  write-Inv :
      (sql : Bytes) (change : UserManager → UserManager) (s : Store e)
      → Inv s.manager
      → Inv (change s.manager)
      → Inv (write e sql change s).1.manager
  write-Inv sql change s v cv = if-elim Kept (e.execute sql s.ext).0 _ _ (λ ok. cv) (λ failed. v)

  add_user-Inv :
      (u : User) (s : Store e) → HasRoom s.manager → Inv s.manager → Inv (add_user e u s).1.manager
  unfolding add_user
  add_user-Inv u s room v =
      let newid = succ_int32 s.manager.base_user_id in
      let (above, below) =
        succ_int32-grows s.manager.base_user_id (pos 0xFFFFFFE) room.users_left (omega arith) in
      let fresh = fresh_user_id s.manager v newid above (omega arith) in
      let raised =
        raise_bases-Inv s.manager v newid s.manager.base_group_id (omega arith) (omega arith) in
      let hashed = hash_password (e.draws s.ext).0 u.password in
      elim (Bool-cases (clash u s.manager.cached_users == 0)) [
        | inr clashing ↦ rw (clashing, add_user) v
        | inl free ↦
            elim (Bool-cases
              (e.execute (Statements.Insert.user newid u hashed) (e.draws s.ext).1).0) [
                | inr failed ↦ rw (free, add_user, failed) v
                | inl ok ↦
                    rw (free, add_user, ok)
                      (store_user-Inv _ raised (registered u newid hashed)
                        (position_unused s.manager v newid fresh) (λ _. omega arith)
                        (λ beyond. absurd (omega arith)))
              ]
      ]

  add_group-Inv :
      (name : Bytes) (owner : ℤ) (s : Store e)
      → HasRoom s.manager
      → Inv s.manager
      → Inv (add_group e name owner s).2.manager
  unfolding add_group
  add_group-Inv name owner s room v =
      let groupid = succ_int32 s.manager.base_group_id in
      let (above, fits) =
        succ_int32-grows s.manager.base_group_id int32_max room.groups_left (omega arith) in
      let apart = room.groups_apart in
      let fresh = fresh_group_id s.manager v groupid above (omega arith) in
      let raised =
        raise_bases-Inv s.manager v s.manager.base_user_id groupid (omega arith) (omega arith) in
      if-elim (λ (r : Bool × ℤ × Store e). Inv r.2.manager)
        (e.execute (Statements.Insert.group groupid name owner) s.ext).0 _ _
        (λ ok.
          store_user-Inv _ raised _ (position_unused s.manager v groupid fresh)
            (λ below. absurd (omega arith)) (λ _. omega arith))
        (λ failed. raised)

  set_group_admin-Inv :
      (g id : ℤ) (admin : Bool) (s : Store e)
      → Inv s.manager
      → Inv (set_group_admin e g id admin s).1.manager
  unfolding set_group_admin
  set_group_admin-Inv g id true s v =
      let added = update_user-Inv s.manager v g (add_admin id) (λ u. refl) in
      elim (Bool-cases (admin_entry_exists e g id s).0) [
        | inl present ↦ rw (present, set_group_admin) added
        | inr absent ↦
            rw (absent, set_group_admin)
              (write-Inv (Statements.Insert.group_admin g id) (update_user g (add_admin id))
                (admin_entry_exists e g id s).1 v added)
      ]
  set_group_admin-Inv g id false s v =
      write-Inv (Statements.Remove.group_admin g id) (update_user g (drop_admin id)) s v
        (update_user-Inv s.manager v g (drop_admin id) (λ u. refl))

  make_friend_relationship-Inv :
      (a b : ℤ) (s : Store e) → Inv s.manager → Inv (make_friend_relationship e a b s).1.manager
  unfolding make_friend_relationship
  make_friend_relationship-Inv a b s v = elim (Bool-cases (ltb_ℤ a b)) [
    | inr wrong ↦ rw (wrong, make_friend_relationship) v
    | inl right ↦ elim (Bool-cases (e.execute (Statements.Insert.relationship a b) s.ext).0) [
      | inr failed ↦ rw (right, make_friend_relationship, failed) v
      | inl ok ↦ rw (right, make_friend_relationship, ok) (link-Inv a b s.manager v)
    ]
  ]

  release_friend_relationship-Inv :
      (a b : ℤ) (s : Store e) → Inv s.manager → Inv (release_friend_relationship e a b s).1.manager
  unfolding release_friend_relationship
  release_friend_relationship-Inv a b s v = elim (Bool-cases (ltb_ℤ a b)) [
    | inr wrong ↦ rw (wrong, release_friend_relationship) v
    | inl right ↦
        rw (right, release_friend_relationship)
          (write-Inv (Statements.Remove.relationship a b) (unlink a b) s v
            (unlink-Inv a b s.manager v))
  ]

  -- One call of a method that changes the cache.
  pub step : Call → Store e → Store e
  step (adds u) s = (add_user e u s).1
  step (sets_status id status) s = (set_user_status e id status s).1
  step (makes_friends a b) s = (make_friend_relationship e a b s).1
  step (releases_friends a b) s = (release_friend_relationship e a b s).1
  step (deletes_friend a b) s = (delete_friend_to_user e a b s).1
  step (updates_info id new) s = (update_user_info e id new s).1
  step (modifies_password id password) s = (modify_user_password e id password s).1
  step (adds_group name owner) s = (add_group e name owner s).2
  step (renames_group id name) s = (rename_group e id name s).1
  step (sets_admin g id admin) s = (set_group_admin e g id admin s).1

  -- Whatever method is called and however the database answers, both indexes of the cache stay
  -- coherent and the bases stay bounds of the ids, as long as ids are left on both sides of the
  -- boundary before the call.
  pub step-Inv :
      (c : Call) (s : Store e) → HasRoom s.manager → Inv s.manager → Inv (step c s).manager
  unfolding step set_user_status delete_friend_to_user update_user_info modify_user_password
      rename_group
  step-Inv (adds u) s room v = add_user-Inv u s room v
  step-Inv (sets_status id status) s room v =
      update_user-Inv s.manager v id (with_status status) (λ u. refl)
  step-Inv (makes_friends a b) s room v = make_friend_relationship-Inv a b s v
  step-Inv (releases_friends a b) s room v = release_friend_relationship-Inv a b s v
  step-Inv (deletes_friend a b) s room v =
      write-Inv
        (Statements.Remove.relationship (if ltb_ℤ a b then a else b) (if ltb_ℤ a b then b else a))
        (unlink a b) s v (unlink-Inv a b s.manager v)
  step-Inv (updates_info id new) s room v =
      write-Inv (Statements.Update.user_info id new) (update_user id (with_info new)) s v
        (update_user-Inv s.manager v id (with_info new) (λ u. refl))
  step-Inv (modifies_password id password) s room v =
      let hashed = hash_password (e.draws s.ext).0 password in
      write-Inv (Statements.Update.password id hashed) (update_user id (with_password hashed))
        (record s { ext = (e.draws s.ext).1 }) v
        (update_user-Inv s.manager v id (with_password hashed) (λ u. refl))
  step-Inv (adds_group name owner) s room v = add_group-Inv name owner s room v
  step-Inv (renames_group id name) s room v =
      write-Inv (Statements.Update.group_name id name) (update_user id (with_group_name name)) s v
        (update_user-Inv s.manager v id (with_group_name name) (λ u. refl))
  step-Inv (sets_admin g id admin) s room v = set_group_admin-Inv g id admin s v
