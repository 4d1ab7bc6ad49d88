-- ===== src/Users/Statements/Insert.antt =====
-- The INSERT statements of IMServer/IMServer/UserManager.cpp.
use mathlib.Core.List.{flatten}
use aim_server.Common.{[], ◌∷◌, Bytes, ℤ, text}
use aim_server.Text.Decimal.{show_int}
use aim_server.Text.Sql.{escape_sql_string}
use aim_server.Users.User.{User}

abbrev esc : Bytes → Bytes
esc = escape_sql_string

pub user : ℤ → User → Bytes → Bytes
user newid u hashed = flatten (
    text
      "INSERT INTO t_user (f_user_id, f_username, f_nickname, f_password, f_mail, f_register_time)"
    ∷ text "VALUES ("
    ∷ show_int newid
    ∷ text ", '"
    ∷ esc u.username
    ∷ text "', '"
    ∷ esc u.nickname
    ∷ text "', '"
    ∷ esc hashed
    ∷ text "', '"
    ∷ esc u.mail
    ∷ text "', NOW())"
    ∷ [])

pub relationship : ℤ → ℤ → Bytes
relationship smallid greatid = flatten (
    text "INSERT INTO t_user_relationship(f_user_id1, f_user_id2) VALUES("
    ∷ show_int smallid
    ∷ text ", "
    ∷ show_int greatid
    ∷ text ")"
    ∷ [])

pub group : ℤ → Bytes → ℤ → Bytes
group groupid groupname ownerid = flatten (
    text
      "INSERT INTO t_user (f_user_id, f_username, f_nickname, f_password, f_owner_id, f_register_time) VALUES ("
    ∷ show_int groupid
    ∷ text ", '"
    ∷ esc groupname
    ∷ text "', '"
    ∷ esc groupname
    ∷ text "', '', "
    ∷ show_int ownerid
    ∷ text ", NOW())"
    ∷ [])

pub group_admin : ℤ → ℤ → Bytes
group_admin groupid userid = flatten (
    text "INSERT INTO t_group_admin (f_group_id, f_user_id, f_create_time) VALUES ("
    ∷ show_int groupid
    ∷ text ", "
    ∷ show_int userid
    ∷ text ", NOW())"
    ∷ [])

unfoldable pub friend_request : ℤ → ℤ → ℤ → ℤ → Bytes → Bytes
friend_request from_id to_id req_type group_id msg = flatten (
    text
      "INSERT INTO t_friend_request (f_from_id, f_to_id, f_reqtype, f_group_id, f_message, f_status, f_create_time) VALUES ("
    ∷ show_int from_id
    ∷ text ", "
    ∷ show_int to_id
    ∷ text ", "
    ∷ show_int req_type
    ∷ text ", "
    ∷ show_int group_id
    ∷ text ", '"
    ∷ esc msg
    ∷ text "', 0, NOW())"
    ∷ [])
