-- ===== src/Users/Statements/Select.antt =====
-- The queries of IMServer/IMServer/UserManager.cpp.
use mathlib.Core.List.{flatten}
use aim_server.Common.{[], ◌∷◌, Bytes, ℤ, text}
use aim_server.Text.Decimal.{show_int}
use aim_server.Text.Sql.{escape_sql_string}

abbrev esc : Bytes → Bytes
esc = escape_sql_string

pub users : Bytes
users = flatten (
    text "SELECT f_user_id, f_username, f_nickname, f_password, f_facetype, f_customface,"
    ∷ text
        " f_gender, f_birthday, f_signature, f_address, f_phonenumber, f_mail, f_owner_id FROM t_user ORDER BY f_user_id DESC"
    ∷ [])

pub relationships : ℤ → Bytes
relationships userid = flatten (
    text "SELECT f_user_id1, f_user_id2 FROM t_user_relationship WHERE f_user_id1 = "
    ∷ show_int userid
    ∷ text " OR f_user_id2 = "
    ∷ show_int userid
    ∷ text " ;"
    ∷ [])

pub group_admins : ℤ → Bytes
group_admins groupid =
    flatten (text "SELECT f_user_id FROM t_group_admin WHERE f_group_id = " ∷ show_int groupid ∷ [])

pub group_admin : ℤ → ℤ → Bytes
group_admin groupid userid = flatten (
    text "SELECT f_id FROM t_group_admin WHERE f_group_id = "
    ∷ show_int groupid
    ∷ text " AND f_user_id = "
    ∷ show_int userid
    ∷ text " LIMIT 1"
    ∷ [])

unfoldable pub same_request : ℤ → ℤ → ℤ → ℤ → Bytes
same_request from_id to_id req_type group_id = flatten (
    text "SELECT f_id FROM t_friend_request WHERE f_from_id = "
    ∷ show_int from_id
    ∷ text " AND f_to_id = "
    ∷ show_int to_id
    ∷ text " AND f_reqtype = "
    ∷ show_int req_type
    ∷ text " AND f_group_id = "
    ∷ show_int group_id
    ∷ text " AND f_status = 0 LIMIT 1"
    ∷ [])

unfoldable pub last_insert_id : Bytes
last_insert_id = text "SELECT LAST_INSERT_ID()"

unfoldable pub pending_requests : ℤ → Bytes
pending_requests to_id = flatten (
    text
      "SELECT f_id, f_from_id, f_to_id, f_reqtype, f_group_id, f_message, UNIX_TIMESTAMP(f_create_time) "
    ∷ text "FROM t_friend_request WHERE f_to_id = "
    ∷ show_int to_id
    ∷ text " AND f_status = 0 AND f_from_id > 0 ORDER BY f_id DESC"
    ∷ [])

unfoldable pub request_by_id : ℤ → Bytes
request_by_id req_id = flatten (
    text
      "SELECT f_id, f_from_id, f_to_id, f_reqtype, f_group_id, f_message, UNIX_TIMESTAMP(f_create_time) "
    ∷ text "FROM t_friend_request WHERE f_id = "
    ∷ show_int req_id
    ∷ text " LIMIT 1"
    ∷ [])
