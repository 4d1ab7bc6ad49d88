-- ===== src/Users/Manager/Admins.antt =====
-- The administrators of a group in the cache (IMServer/IMServer/UserManager.cpp): what
-- SetGroupAdmin changes, and what the end of a membership leaves.
use mathlib.Core.Option
use aim_server.Common.{
  ◌≡◌, refl, ◌∙◌, Bool, true, false, some, inl, inr, List, arith, if◌then◌else◌, ℤ, eqb_refl,
  Option-cases,
}
use aim_server.IdSet.{member, member-insert, member-erase}
use aim_server.Users.User.{User}
use aim_server.Users.Directory.{
  UserManager, IsCoherent, find_user, update_user, find_user-update_user, update_user-IsCoherent,
}
use aim_server.Users.Manager.{is_group_admin, unlink, unfriend, add_admin, drop_admin}

-- What of a group object the rights depend on.
abbrev pub rights : User → ℤ × List ℤ
rights g = (g.ownerid, g.admins)

pub is_group_admin-found :
    (m : UserManager) (g id : ℤ) (x : User)
    → find_user g m ≡ some x
    → is_group_admin g id m ≡ member id x.admins
unfolding is_group_admin
is_group_admin-found m g id x found = ground arith

module _ (m : UserManager) (c : IsCoherent m) where
  pub is_group_admin-set :
      (g id : ℤ) (admin : Bool) (x : User)
      → find_user g m ≡ some x
      → is_group_admin g id (update_user g (if admin then add_admin id else drop_admin id) m)
        ≡ admin
  unfolding is_group_admin
  is_group_admin-set g id true x known = ground (
    arith,
    find_user-update_user m c g g (add_admin id),
    eqb_refl g,
    eqb_refl id,
    member-insert id id x.admins,
  )
  is_group_admin-set g id false x known = ground (
    arith,
    find_user-update_user m c g g (drop_admin id),
    eqb_refl g,
    eqb_refl id,
    member-erase id id x.admins,
  )

  unfriend-rights :
      (i j x : ℤ)
      → Option.map rights (find_user j (update_user i (unfriend x) m))
        ≡ Option.map rights (find_user j m)
  unfriend-rights i j x = elim (Option-cases (find_user j m)) [
    | inl absent ↦ ground (arith, find_user-update_user m c j i (unfriend x))
    | inr (u, found) ↦ ground (arith, find_user-update_user m c j i (unfriend x))
  ]

-- The end of a relationship changes the rights in no group.
pub unlink-rights :
    (m : UserManager)
    → IsCoherent m
    → (a b j : ℤ)
    → Option.map rights (find_user j (unlink a b m)) ≡ Option.map rights (find_user j m)
unfolding unlink
unlink-rights m c a b j =
    unfriend-rights (update_user a (unfriend b) m)
      (update_user-IsCoherent m c a (unfriend b) (λ u. refl)) b j a
    ∙ unfriend-rights m c a j b
