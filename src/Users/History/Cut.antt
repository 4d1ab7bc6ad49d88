-- ===== src/Users/History/Cut.antt =====
-- What of SaveChatMsgToDb's statement (IMServer/IMServer/UserManager.cpp) reaches the database
-- through MySQLTool::Execute (IMServer/IMServer/mysqltool.cpp).
use mathlib.Core.List.{flatten}
use aim_server.Common.{
  ◌≡◌, sym, ap, ◌∙◌, List, [], ◌∷◌, ◌++◌, append_assoc, append-nil, arith, ℤ, Bytes, c_string,
  c_string-append_nul,
}
use aim_server.Proto.{ChatMsg}
use aim_server.Text.Sql.{escape_sql_string, escape_sql_string-append_nul}
use aim_server.Users.History.{save_chat_msg_start, save_chat_msg_end, save_chat_msg_sql}
use aim_server.Database.Client.{MysqlClient}
use aim_server.Database.Tool.{Link, execute}
use aim_server.Database.Tool.Laws.{execute-c_string}

behind : (p x y : Bytes) → c_string x ≡ c_string y → c_string (p ++ x) ≡ c_string (p ++ y)
unfolding c_string
behind [] x y h = h
behind (c ∷ p) x y h = ground (arith, behind p x y h)

cut_at :
    (ps qs : List Bytes) (x a b : Bytes)
    → x ≡ a ++ 0 ∷ b
    → c_string (flatten ((ps ++ x ∷ []) ++ qs)) ≡ c_string (flatten (ps ++ a ∷ []))
unfolding flatten
cut_at [] qs x a b e = rw e (
    ap c_string (append_assoc a (0 ∷ b) (flatten qs))
    ∙ (c_string-append_nul a (b ++ flatten qs) ∙ ap c_string (sym (append-nil a))))
cut_at (p ∷ ps) qs x a b e =
    behind p (flatten ((ps ++ x ∷ []) ++ qs)) (flatten (ps ++ a ∷ [])) (cut_at ps qs x a b e)

-- A chat message whose content holds a NUL is not saved as it is: the database gets the statement
-- only up to the NUL, which stands inside the quotes of the content, whatever stands behind it.
pub save_chat_msg_cut :
    (m : MysqlClient) (senderid targetid : ℤ) (msg : ChatMsg) (a b : Bytes) (l : Link m)
    → msg.content ≡ a ++ 0 ∷ b
    → execute m (save_chat_msg_sql senderid targetid msg) l
      ≡ execute m (flatten (save_chat_msg_start senderid targetid ++ escape_sql_string a ∷ [])) l
unfolding save_chat_msg_sql
save_chat_msg_cut m senderid targetid msg a b l e =
    execute-c_string m (save_chat_msg_sql senderid targetid msg)
      (flatten (save_chat_msg_start senderid targetid ++ escape_sql_string a ∷ [])) l
      (cut_at (save_chat_msg_start senderid targetid) (save_chat_msg_end msg)
        (escape_sql_string msg.content) (escape_sql_string a) (escape_sql_string b)
        (rw e (escape_sql_string-append_nul a b)))
