-- ===== src/Tests/Accounts.antt =====
-- Each theorem about registration, login and passwords, applied to a server with four accounts.
use aim_server.Common.{◌≡◌, refl, true, ◌↔◌, none, some, [], bytes_eq, pos, eqb, text}
use aim_server.Password.{is_hashed, verify_password}
use aim_server.Proto.{RegisterReq, ModifyPasswordReq}
use aim_server.Users.User.{User}
use aim_server.Users.Directory.{find_user, position, store_user, assign, empty_manager}
use aim_server.Users.Manager.{add_user, clash, user_by_name, modify_user_password}
use aim_server.Session.State.{World, done, crashed, session_at}
use aim_server.Session.Account.{
  login, on_login, register, register_verified, is_valid_username, is_name_char, all_name_chars,
  verify_code, add_user_rsp, modify_password,
}
use aim_server.Session.Account.Login.{
  named_account, login-ok, on_login-crash, on_login-wrong_password, register-login,
}
use aim_server.Session.Account.Passwords.{modify_password-ok}
use aim_server.Fixtures.{
  live, codec, login_alice, alice, bob, guest, world, command, cache-IsCoherent,
}

login-ok_example : ((login live (some login_alice) guest world).0.code ≡ pos 0) ↔ (
    (u : User) × (named_account (some login_alice) world.store.manager.cached_users ≡ some u)
    × (verify_password (text "guess") u.password ≡ true))
login-ok_example = login-ok live login_alice guest world

on_login-crash_example : (on_login live codec guest (command (pos 1002)) world ≡ crashed) ↔ (
    (guest.user ≡ none)
    × (named_account (codec.parse_login_req []) world.store.manager.cached_users ≡ none))
on_login-crash_example = on_login-crash live codec guest (command (pos 1002)) world

-- A guest who guesses a password is taken for its owner.
on_login-wrong_password_example :
    (w' : World live) × (on_login live codec guest (command (pos 1002)) world ≡ done w')
    × (session_at (text "g") w'.sessions ≡ some (record guest { user = some alice }))
    × (w'.store ≡ world.store)
    × ((login live (some login_alice) guest world).0.code ≡ pos 104)
unfolding session_at user_by_name store_user empty_manager verify_password is_hashed bytes_eq text
on_login-wrong_password_example =
    on_login-wrong_password live codec guest guest (command (pos 1002)) world login_alice alice refl
      refl refl refl

abbrev dave : RegisterReq
dave = record {
  username = text "dave";
  nickname = text "Dave";
  password = text "secret";
  email = text "d@x";
  code = text "1234";
}

register-login_example :
    (login live
      (some (record {
        username = text "dave";
        password = text "secret";
        clienttype = pos 1;
        status = pos 1;
      }))
      guest
      (register live (some dave) world).1).0.code
    ≡ pos 0
unfolding register register_verified is_valid_username is_name_char all_name_chars verify_code
    add_user_rsp add_user clash store_user empty_manager bytes_eq text eqb
register-login_example = register-login live dave guest (pos 1) (pos 1) world refl

abbrev change : ModifyPasswordReq
change = record { oldpassword = text "a"; newpassword = text "b" }

modify_password-ok_example :
    (verify_password (text "a") bob.password ≡ true)
    × (c : User) × (find_user (pos 2) (modify_password live change bob world).1.store.manager
        ≡ some c)
    × (verify_password (text "b") c.password ≡ true)
unfolding modify_password modify_user_password find_user position store_user assign empty_manager
    verify_password is_hashed bytes_eq text eqb
modify_password-ok_example = modify_password-ok live change bob bob world cache-IsCoherent refl refl
