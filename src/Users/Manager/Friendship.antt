-- ===== src/Users/Manager/Friendship.antt =====
-- What MakeFriendRelationship and ReleaseFriendRelationship (IMServer/IMServer/UserManager.cpp)
-- leave in the cached friend sets of the two ids.
use aim_server.Common.{
  ◌≡◌, refl, true, false, not, ◌&&◌, ◌||◌, inl, inr, arith, if◌then◌else◌, ℤ, eqb, eqb_iff,
  eqb_refl, ltb_ℤ, Option-cases,
}
use aim_server.Env.{Env}
use aim_server.IdSet.{member-insert, member-erase}
use aim_server.Users.Directory.{
  UserManager, IsCoherent, find_user, update_user, find_user-update_user, update_user-IsCoherent,
}
use aim_server.Users.Statements
use aim_server.Users.Manager.{
  Store, make_friend_relationship, is_friend, knows, befriend, unfriend, link, unlink,
}

module _ (m : UserManager) (c : IsCoherent m) where
  -- The friends of one id after an id was put into the set of another.
  is_friend-befriend :
      (i j k x : ℤ)
      → is_friend j k (update_user i (befriend x) m)
        ≡ (if eqb i j && (knows m j && eqb x k) then true else is_friend j k m)
  unfolding is_friend
  is_friend-befriend i j k x = elim (Option-cases (find_user j m)) [
    | inl absent ↦ ground (arith, find_user-update_user m c j i (befriend x))
    | inr (u, found) ↦
        ground (arith, find_user-update_user m c j i (befriend x), member-insert k x u.friends)
  ]

  is_friend-unfriend :
      (i j k x : ℤ)
      → is_friend j k (update_user i (unfriend x) m)
        ≡ (if eqb i j && eqb x k then false else is_friend j k m)
  unfolding is_friend
  is_friend-unfriend i j k x = elim (Option-cases (find_user j m)) [
    | inl absent ↦ ground (arith, find_user-update_user m c j i (unfriend x))
    | inr (u, found) ↦
        ground (arith, find_user-update_user m c j i (unfriend x), member-erase k x u.friends)
  ]

  knows-befriend : (i j x : ℤ) → knows (update_user i (befriend x) m) j ≡ knows m j
  knows-befriend i j x = elim (Option-cases (find_user j m)) [
    | inl absent ↦ ground (arith, find_user-update_user m c j i (befriend x))
    | inr (u, found) ↦ ground (arith, find_user-update_user m c j i (befriend x))
  ]

module _ (m : UserManager) (c : IsCoherent m) (a b : ℤ) where
  -- The relationship of two ids in the cache is complete exactly if both ids are known.
  pub link-made : (link a b m).0 ≡ (knows m a && knows m b)
  unfolding link
  link-made = ground (arith, knows-befriend m c a b b)

  half : UserManager
  half = update_user a (befriend b) m

  half-IsCoherent : IsCoherent half
  unfolding half
  half-IsCoherent = update_user-IsCoherent m c a (befriend b) (λ u. refl)

  -- If the cache knows both ids, MakeFriendRelationship's change of the cache succeeds, and
  -- afterwards two ids j and k are friends exactly if they are the two that were linked, in either
  -- order, or were friends before.
  pub link-is_friend :
      (j k : ℤ)
      → knows m a ≡ true
      → knows m b ≡ true
      → ((link a b m).0 ≡ true)
        × (is_friend j k (link a b m).1
            ≡ ((eqb a j && eqb b k) || ((eqb b j && eqb a k) || is_friend j k m)))
  unfolding link half
  link-is_friend j k ka kb = ground (
    arith,
    knows-befriend m c a b b,
    is_friend-befriend half half-IsCoherent b j k a,
    is_friend-befriend m c a j k b,
    knows-befriend m c a j b,
    eqb_iff a j,
    eqb_iff b j,
  )

  link-half_made :
      knows m a ≡ true
      → knows m b ≡ false
      → ((link a b m).0 ≡ false) × (is_friend a b (link a b m).1 ≡ true)
  unfolding link
  link-half_made ka kb =
      ground
        (arith, knows-befriend m c a b b, is_friend-befriend m c a a b b, eqb_refl a, eqb_refl b)

  -- After ReleaseFriendRelationship's change of the cache, neither id is a friend of the other, and
  -- whether any other pair of ids are friends stays as it was.
  pub unlink-is_friend :
      (j k : ℤ)
      → is_friend j k (unlink a b m)
        ≡ (not (eqb a j && eqb b k) && (not (eqb b j && eqb a k) && is_friend j k m))
  unfolding unlink
  unlink-is_friend j k = ground (
    arith,
    is_friend-unfriend (update_user a (unfriend b) m)
        (update_user-IsCoherent m c a (unfriend b) (λ u. refl)) b j k a,
    is_friend-unfriend m c a j k b,
  )

module _ (e : Env) (a b : ℤ) (s : Store e) (c : IsCoherent s.manager) where
  -- If the first id is the smaller one, the database accepts the INSERT and the cache knows the first
  -- id only, MakeFriendRelationship returns false, but the first id's friends then hold the second
  -- id.
  pub make_friend_relationship-half_made :
      ltb_ℤ a b ≡ true
      → (e.execute (Statements.Insert.relationship a b) s.ext).0 ≡ true
      → knows s.manager a ≡ true
      → knows s.manager b ≡ false
      → ((make_friend_relationship e a b s).0 ≡ false)
        × (is_friend a b (make_friend_relationship e a b s).1.manager ≡ true)
  unfolding make_friend_relationship
  make_friend_relationship-half_made smaller accepted ka kb =
      rw (smaller, make_friend_relationship, accepted) (link-half_made s.manager c a b ka kb)
