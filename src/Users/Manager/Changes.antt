-- ===== src/Users/Manager/Changes.antt =====
-- What the methods of class UserManager (IMServer/IMServer/UserManager.cpp) that write to the
-- database do to the cache, by their result.
use aim_server.Common.{
  ℕ, ◌≡◌, refl, Bool, true, false, inl, inr, arith, if◌then◌else◌, Bytes, ℤ, Bool-cases,
}
use aim_server.Env.{Env}
use aim_server.Password.{hash_password}
use aim_server.Users.Directory.{UserManager, update_user}
use aim_server.Users.Manager.{
  Store, write, make_friend_relationship, release_friend_relationship, modify_user_password,
  rename_group, set_group_admin, admin_entry_exists, link, unlink, with_password, with_group_name,
  add_admin, drop_admin,
}
use aim_server.Users.Statements

module _ (e : Env) where
  write-manager :
      (sql : Bytes) (change : UserManager → UserManager) (s : Store e)
      → (write e sql change s).1.manager
        ≡ (if (write e sql change s).0 then change s.manager else s.manager)
  write-manager sql change s = ground arith

  -- MakeFriendRelationship changes the cache only after the INSERT; a failure leaves it as it was or
  -- half changed.
  pub make_friend_relationship-made :
      (a b : ℤ) (s : Store e)
      → (make_friend_relationship e a b s).0 ≡ true
      → ((link a b s.manager).0 ≡ true)
        × ((make_friend_relationship e a b s).1.manager ≡ (link a b s.manager).1)
  unfolding make_friend_relationship
  make_friend_relationship-made a b s h = ground arith

  -- ReleaseFriendRelationship ends the relationship in the cache if it succeeds, and leaves the
  -- cache alone if it fails.
  pub release_friend_relationship-manager :
      (a b : ℤ) (s : Store e)
      → (release_friend_relationship e a b s).1.manager
        ≡ (if (release_friend_relationship e a b s).0 then unlink a b s.manager else s.manager)
  unfolding release_friend_relationship
  release_friend_relationship-manager a b s = ground arith

  pub modify_user_password-manager :
      (id : ℤ) (new : Bytes) (s : Store e)
      → (draws : ℕ → ℕ) × ((modify_user_password e id new s).1.manager ≡ (
          if (modify_user_password e id new s).0
          then update_user id (with_password (hash_password draws new)) s.manager
          else s.manager))
  unfolding modify_user_password
  modify_user_password-manager id new s = (
    (e.draws s.ext).0,
    write-manager (Statements.Update.password id (hash_password (e.draws s.ext).0 new))
        (update_user id (with_password (hash_password (e.draws s.ext).0 new)))
        (record s { ext = (e.draws s.ext).1 }),
  )

  pub rename_group-manager :
      (g : ℤ) (name : Bytes) (s : Store e)
      → (rename_group e g name s).1.manager ≡ (
          if (rename_group e g name s).0
          then update_user g (with_group_name name) s.manager
          else s.manager)
  unfolding rename_group
  rename_group-manager g name s =
      write-manager (Statements.Update.group_name g name) (update_user g (with_group_name name)) s

  pub set_group_admin-manager :
      (g id : ℤ) (admin : Bool) (s : Store e)
      → (set_group_admin e g id admin s).1.manager ≡ (
          if (set_group_admin e g id admin s).0
          then update_user g (if admin then add_admin id else drop_admin id) s.manager
          else s.manager)
  unfolding set_group_admin admin_entry_exists
  set_group_admin-manager g id true s = elim (Bool-cases (admin_entry_exists e g id s).0) [
    | inl present ↦ rw (present, set_group_admin) refl
    | inr absent ↦
        rw (absent, set_group_admin)
          (write-manager (Statements.Insert.group_admin g id) (update_user g (add_admin id))
            (admin_entry_exists e g id s).1)
  ]
  set_group_admin-manager g id false s =
      write-manager (Statements.Remove.group_admin g id) (update_user g (drop_admin id)) s
