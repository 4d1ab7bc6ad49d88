-- ===== src/Tests/Cache.antt =====
-- Each theorem about the cache of users, applied to a cache of four accounts or to its start.
use aim_server.Common.{
  ℕ, zero, suc, ◌≡◌, refl, sym, ◌∙◌, true, false, ◌&&◌, ◌||◌, some, [], ◌∷◌, arith, pos, eqb,
  get_elem?,
}
use aim_server.Query.{read_rows, read_rows-All, int_field}
use aim_server.Text.Decimal.{atoi-show_int}
use aim_server.Users.User.{User}
use aim_server.Users.Directory.{empty_manager, find_user, store_user, position, assign}
use aim_server.Users.Directory.Invariant.{Inv, empty_manager-Inv}
use aim_server.Users.Load.{init}
use aim_server.Users.Load.Invariant.{DistinctIds, init-Inv}
use aim_server.Users.Manager.{Store, add_user, is_friend, link, make_friend_relationship}
use aim_server.Users.Manager.Friendship.{link-is_friend, make_friend_relationship-half_made}
use aim_server.Users.Manager.Invariant.{step, step-Inv, adds, HasRoom}
use aim_server.Users.Manager.Registration.{IsDistinct, add_user-IsDistinct}
use aim_server.Fixtures.{live, account_rows, alice, bob, cache, cache-IsCoherent, disk}

abbrev nothing : Store live
nothing = record { manager = empty_manager; ext = 0 }

nothing-HasRoom : HasRoom empty_manager
unfolding empty_manager
nothing-HasRoom = record {
  users_left = omega arith;
  groups_left = omega arith;
  groups_apart = omega arith;
}

step-Inv_example : Inv (step live (adds alice) nothing).manager
step-Inv_example = step-Inv live (adds alice) nothing nothing-HasRoom empty_manager-Inv

account_rows-DistinctIds : DistinctIds account_rows
unfolding int_field eqb
account_rows-DistinctIds = ((rw (atoi-show_int (pos 2), atoi-show_int (pos 1)) refl, tt), (tt, tt))

pub rows_read : DistinctIds (read_rows account_rows)
rows_read =
    rw (read_rows-All account_rows (ground arith, (ground arith, tt))) account_rows-DistinctIds

init-Inv_example : ((init live nothing).0 ≡ true) × Inv (init live nothing).1.manager
init-Inv_example = init-Inv live 0 1 account_rows refl rows_read

-- The second and the third account become friends.
link-is_friend_example :
    ((link (pos 2) (pos 3) cache).0 ≡ true)
    × (is_friend (pos 3) (pos 2) (link (pos 2) (pos 3) cache).1 ≡ (
        (eqb (pos 2) (pos 3) && eqb (pos 3) (pos 2))
        || ((eqb (pos 3) (pos 3) && eqb (pos 2) (pos 2)) || is_friend (pos 3) (pos 2) cache)))
unfolding find_user position store_user assign empty_manager eqb
link-is_friend_example =
    link-is_friend cache cache-IsCoherent (pos 2) (pos 3) (pos 3) (pos 2) refl refl

-- There is no account 9.
make_friend_relationship-half_made_example :
    ((make_friend_relationship live (pos 2) (pos 9) disk).0 ≡ false)
    × (is_friend (pos 2) (pos 9) (make_friend_relationship live (pos 2) (pos 9) disk).1.manager
        ≡ true)
unfolding find_user position store_user assign empty_manager eqb
make_friend_relationship-half_made_example =
    make_friend_relationship-half_made live (pos 2) (pos 9) disk cache-IsCoherent refl refl refl
      refl

-- A cache with one account.
abbrev single : Store live
single = record {
  manager = record {
    cached_users = alice ∷ [];
    map_users = (pos 1, 0) ∷ [];
    base_user_id = pos 1;
    base_group_id = pos 0xFFFFFFF;
  };
  ext = 0;
}

at_head : (p : ℕ) (u : User) → get_elem? (alice ∷ []) p ≡ some u → p ≡ 0
at_head zero u h = refl
at_head (suc p) u h = absurd (ground arith)

single-IsDistinct : IsDistinct (alice ∷ [])
single-IsDistinct = record {
  names = λ p q u w hp hq same. at_head p u hp ∙ sym (at_head q w hq);
  mails = λ p q u w hp hq given same. at_head p u hp ∙ sym (at_head q w hq);
}

add_user-IsDistinct_example : IsDistinct (add_user live bob single).1.manager.cached_users
add_user-IsDistinct_example = add_user-IsDistinct live bob single single-IsDistinct
