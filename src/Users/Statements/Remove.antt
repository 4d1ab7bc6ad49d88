-- ===== src/Users/Statements/Remove.antt =====
-- The DELETE statements of IMServer/IMServer/UserManager.cpp.
use mathlib.Core.List.{flatten}
use aim_server.Common.{[], ◌∷◌, Bytes, ℤ, text}
use aim_server.Text.Decimal.{show_int}
use aim_server.Text.Sql.{escape_sql_string}

abbrev esc : Bytes → Bytes
esc = escape_sql_string

pub relationship : ℤ → ℤ → Bytes
relationship smallid greatid = flatten (
    text "DELETE FROM t_user_relationship WHERE f_user_id1 = "
    ∷ show_int smallid
    ∷ text " AND f_user_id2 = "
    ∷ show_int greatid
    ∷ [])

pub group_admin : ℤ → ℤ → Bytes
group_admin groupid userid = flatten (
    text "DELETE FROM t_group_admin WHERE f_group_id = "
    ∷ show_int groupid
    ∷ text " AND f_user_id = "
    ∷ show_int userid
    ∷ [])
