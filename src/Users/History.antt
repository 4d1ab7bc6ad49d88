-- ===== src/Users/History.antt =====
-- The stored chat messages: SaveChatMsgToDb and GetChatHistory (IMServer/IMServer/UserManager.cpp).
pub mod Cut
use mathlib.Core.List.{flatten}
use aim_server.Common.{
  Bool, Option, none, some, List, [], ◌∷◌, ◌++◌, if◌then◌else◌, Bytes, ℤ, pos, ltb_ℤ, leb_ℤ, map,
  text,
}
use aim_server.Env.{Env, Row}
use aim_server.Proto.{ChatMsg}
use aim_server.Query.{read_rows, field, int_field}
use aim_server.Text.Decimal.{show_int}
use aim_server.Text.Sql.{escape_sql_string}
use aim_server.Users.User.{group_boundary}

-- The statement of a message up to its content, and what follows the content.
pub save_chat_msg_start : ℤ → ℤ → List Bytes
save_chat_msg_start senderid targetid =
    text "INSERT INTO t_chatmsg (f_senderid, f_targetid, f_msgcontent, f_msgtype, "
    ∷ text "f_media_url, f_duration, f_thumb_url, f_filesize, f_filename, f_create_time) VALUES ("
    ∷ show_int senderid
    ∷ text ", "
    ∷ show_int targetid
    ∷ text ", '"
    ∷ []

save_chat_msg_end : ChatMsg → List Bytes
save_chat_msg_end msg =
    text "', "
    ∷ show_int msg.msg_type
    ∷ text ", '"
    ∷ escape_sql_string msg.media_url
    ∷ text "', "
    ∷ show_int msg.duration
    ∷ text ", '"
    ∷ escape_sql_string msg.thumb_url
    ∷ text "', "
    ∷ show_int msg.file_size
    ∷ text ", '"
    ∷ escape_sql_string msg.file_name
    ∷ text "', "
    ∷ (if ltb_ℤ (pos 0) msg.timestamp
        then flatten (text "FROM_UNIXTIME(" ∷ show_int msg.timestamp ∷ text "))" ∷ [])
        else text "NOW())")
    ∷ []

pub save_chat_msg_sql : ℤ → ℤ → ChatMsg → Bytes
unfolding save_chat_msg_start save_chat_msg_end
save_chat_msg_sql senderid targetid msg = flatten (
    (save_chat_msg_start senderid targetid ++ escape_sql_string msg.content ∷ [])
    ++ save_chat_msg_end msg)

history_columns : Bytes
history_columns =
    text "SELECT f_senderid, f_targetid, f_msgcontent, UNIX_TIMESTAMP(f_create_time), "
    ++ text
        "f_msgtype, f_media_url, f_duration, f_thumb_url, f_filesize, f_filename FROM t_chatmsg "

-- To a group: all its messages; to a user: those of both directions.
pub chat_history_sql : ℤ → ℤ → ℤ → Bytes
chat_history_sql userid targetid limit =
    if leb_ℤ group_boundary targetid
    then flatten (
        history_columns
        ∷ text "WHERE f_targetid = "
        ∷ show_int targetid
        ∷ text " ORDER BY f_create_time DESC LIMIT "
        ∷ show_int limit
        ∷ [])
    else flatten (
        history_columns
        ∷ text "WHERE (f_senderid = "
        ∷ show_int userid
        ∷ text " AND f_targetid = "
        ∷ show_int targetid
        ∷ text ") "
        ∷ text "OR (f_senderid = "
        ∷ show_int targetid
        ∷ text " AND f_targetid = "
        ∷ show_int userid
        ∷ text ") "
        ∷ text "ORDER BY f_create_time DESC LIMIT "
        ∷ show_int limit
        ∷ [])

-- A row of t_chatmsg.
pub chat_of_row : Row → ChatMsg
chat_of_row row = record {
  senderid = int_field row 0;
  targetid = int_field row 1;
  content = field row 2;
  timestamp = int_field row 3;
  skill = [];
  context = [];
  msg_type = int_field row 4;
  media_url = field row 5;
  duration = int_field row 6;
  file_size = int_field row 8;
  thumb_url = field row 7;
  file_name = field row 9;
}

module _ (e : Env) where
  pub save_chat_msg_to_db : ℤ → ℤ → ChatMsg → e.State → Bool × e.State
  save_chat_msg_to_db senderid targetid msg ext =
      e.execute (save_chat_msg_sql senderid targetid msg) ext

  pub get_chat_history : ℤ → ℤ → ℤ → e.State → Option (List ChatMsg) × e.State
  get_chat_history userid targetid limit ext =
      let (rows, ext') = e.query (chat_history_sql userid targetid limit) ext in
      (elim rows [ none ↦ none | some rs ↦ some (map chat_of_row (read_rows rs)) ], ext')
