-- ===== src/Offline.antt =====
-- The messages kept for users who are not connected: class MsgCacheManager
-- (IMServer/IMServer/MsgCacheManager.cpp). Its mutex makes each method one step.
pub mod Mailbox
use mathlib.Core.List.{flatten}
use aim_server.Common.{Bool, Option, none, some, List, [], ◌∷◌, Bytes, ℤ, pos, map, text}
use aim_server.Env.{Env, Row}
use aim_server.Query.{read_rows, field}
use aim_server.Text.Decimal.{show_int}
use aim_server.Text.Hex.{to_hex, from_hex}

-- kMsgTypeNotify and kMsgTypeChat.
abbrev pub notify_type : ℤ
notify_type = pos 0

abbrev pub chat_type : ℤ
chat_type = pos 1

unfoldable pub insert_offline_sql : ℤ → ℤ → Bytes → Bytes
insert_offline_sql userid msgtype blob = flatten (
    text "INSERT INTO t_offline_msg (f_userid, f_msgtype, f_content) VALUES ("
    ∷ show_int userid
    ∷ text ", "
    ∷ show_int msgtype
    ∷ text ", X'"
    ∷ to_hex blob
    ∷ text "')"
    ∷ [])

unfoldable pub select_offline_sql : ℤ → ℤ → Bytes
select_offline_sql userid msgtype = flatten (
    text "SELECT HEX(f_content) FROM t_offline_msg WHERE f_userid = "
    ∷ show_int userid
    ∷ text " AND f_msgtype = "
    ∷ show_int msgtype
    ∷ text " ORDER BY f_id ASC"
    ∷ [])

pub delete_offline_sql : ℤ → ℤ → Bytes
delete_offline_sql userid msgtype = flatten (
    text "DELETE FROM t_offline_msg WHERE f_userid = "
    ∷ show_int userid
    ∷ text " AND f_msgtype = "
    ∷ show_int msgtype
    ∷ [])

module _ (e : Env) where
  unfoldable pub insert_offline_msg : ℤ → ℤ → Bytes → e.State → Bool × e.State
  insert_offline_msg userid msgtype blob ext =
      e.execute (insert_offline_sql userid msgtype blob) ext

  -- The DELETE goes out only if something was found; its failure is not looked at.
  delete_found : ℤ → ℤ → List Bytes → e.State → List Bytes × e.State
  delete_found userid msgtype [] ext = ([], ext)
  delete_found userid msgtype (b ∷ bs) ext =
      (b ∷ bs, (e.execute (delete_offline_sql userid msgtype) ext).1)

  decode_found : ℤ → ℤ → Option (List Row) × e.State → List Bytes × e.State
  unfolding delete_found
  decode_found userid msgtype (none, ext) = ([], ext)
  decode_found userid msgtype (some rows, ext) =
      delete_found userid msgtype (map (λ row. from_hex (field row 0)) (read_rows rows)) ext

  unfoldable pub fetch_and_delete_offline_msg : ℤ → ℤ → e.State → List Bytes × e.State
  unfolding decode_found
  fetch_and_delete_offline_msg userid msgtype ext =
      decode_found userid msgtype (e.query (select_offline_sql userid msgtype) ext)

  pub add_notify_msg_cache : ℤ → Bytes → e.State → Bool × e.State
  unfolding insert_offline_msg
  add_notify_msg_cache userid blob = insert_offline_msg userid notify_type blob

  unfoldable pub add_chat_msg_cache : ℤ → Bytes → e.State → Bool × e.State
  unfolding insert_offline_msg
  add_chat_msg_cache userid blob = insert_offline_msg userid chat_type blob

  unfoldable pub get_notify_msg_cache : ℤ → e.State → List Bytes × e.State
  unfolding fetch_and_delete_offline_msg
  get_notify_msg_cache userid = fetch_and_delete_offline_msg userid notify_type

  unfoldable pub get_chat_msg_cache : ℤ → e.State → List Bytes × e.State
  unfolding fetch_and_delete_offline_msg
  get_chat_msg_cache userid = fetch_and_delete_offline_msg userid chat_type
