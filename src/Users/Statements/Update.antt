-- ===== src/Users/Statements/Update.antt =====
-- The UPDATE statements of IMServer/IMServer/UserManager.cpp.
use mathlib.Core.List.{flatten}
use aim_server.Common.{[], ◌∷◌, Bytes, ℤ, text}
use aim_server.Text.Decimal.{show_int}
use aim_server.Text.Sql.{escape_sql_string}
use aim_server.Users.User.{User}

abbrev esc : Bytes → Bytes
esc = escape_sql_string

pub user_info : ℤ → User → Bytes
user_info userid u = flatten (
    text "UPDATE t_user SET "
    ∷ text "f_nickname = '"
    ∷ esc u.nickname
    ∷ text "', "
    ∷ text "f_facetype = "
    ∷ show_int u.facetype
    ∷ text ", "
    ∷ text "f_customface = '"
    ∷ esc u.customface
    ∷ text "', "
    ∷ text "f_gender = "
    ∷ show_int u.gender
    ∷ text ", "
    ∷ text "f_birthday = "
    ∷ show_int u.birthday
    ∷ text ", "
    ∷ text "f_signature = '"
    ∷ esc u.signature
    ∷ text "', "
    ∷ text "f_address = '"
    ∷ esc u.address
    ∷ text "', "
    ∷ text "f_phonenumber = '"
    ∷ esc u.phonenumber
    ∷ text "', "
    ∷ text "f_mail = '"
    ∷ esc u.mail
    ∷ text "' "
    ∷ text "WHERE f_user_id = "
    ∷ show_int userid
    ∷ [])

pub password : ℤ → Bytes → Bytes
password userid hashed = flatten (
    text "UPDATE t_user SET f_password = '"
    ∷ esc hashed
    ∷ text "' WHERE f_user_id = "
    ∷ show_int userid
    ∷ [])

pub group_name : ℤ → Bytes → Bytes
group_name groupid newname = flatten (
    text "UPDATE t_user SET f_nickname = '"
    ∷ esc newname
    ∷ text "', f_username = '"
    ∷ esc newname
    ∷ text "' WHERE f_user_id = "
    ∷ show_int groupid
    ∷ [])

unfoldable pub request_status : ℤ → ℤ → Bytes
request_status req_id status = flatten (
    text "UPDATE t_friend_request SET f_status = "
    ∷ show_int status
    ∷ text " WHERE f_id = "
    ∷ show_int req_id
    ∷ [])
