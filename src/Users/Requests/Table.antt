-- ===== src/Users/Requests/Table.antt =====
-- What MySQL does with the statements on the table t_friend_request that AddFriendRequest,
-- GetPendingRequests, GetFriendRequestById and UpdateRequestStatus send
-- (IMServer/IMServer/UserManager.cpp).
use mathlib.Core.List.{Memᴰ, flatten}
use aim_server.Common.{
  ◌≡◌, ◌⊎◌, Bool, true, ◌&&◌, none, some, List, [], ◌∷◌, map, if◌then◌else◌, Bytes, ℤ, pos, eqb,
  ltb_ℤ, text,
}
use aim_server.Env.{Env, Row}
use aim_server.Text.Decimal.{show_int}
use aim_server.Text.Sql.{escape_sql_string}
use aim_server.Users.User.{FriendRequestInfo}

-- A row of the table: what the queries read, and f_status.
pub record Entry : Type 0 where
  pub request : FriendRequestInfo
  pub status : ℤ

-- The WHERE clauses of the four statements.
abbrev pub is_same : ℤ → ℤ → ℤ → ℤ → Entry → Bool
is_same from to type group en =
    eqb en.status (pos 0)
    && (eqb en.request.fromid from
        && (eqb en.request.toid to
            && (eqb en.request.reqtype type && eqb en.request.groupid group)))

abbrev pub is_pending : ℤ → Entry → Bool
is_pending to en =
    eqb en.status (pos 0) && (eqb en.request.toid to && ltb_ℤ (pos 0) en.request.fromid)

abbrev pub has_id : ℤ → Entry → Bool
has_id id en = eqb en.request.reqid id

-- The rows of which a WHERE clause holds.
unfoldable pub matching : (Entry → Bool) → List Entry → List FriendRequestInfo
matching p [] = []
matching p (en ∷ es) = let rest = matching p es in if p en then en.request ∷ rest else rest

-- LIMIT 1.
abbrev pub limit_one : List FriendRequestInfo → List FriendRequestInfo
limit_one [] = []
limit_one (r ∷ rs) = r ∷ []

abbrev pub set_status : ℤ → ℤ → Entry → Entry
set_status id status en = if has_id id en then record en { status = status } else en

-- What an INSERT adds.
abbrev pub inserted_entry : ℤ → ℤ → ℤ → ℤ → Bytes → ℤ → ℤ → Entry
inserted_entry from to type group message id time = record {
  request = record {
    reqid = id;
    fromid = from;
    toid = to;
    reqtype = type;
    groupid = group;
    message = message;
    createtime = time;
  };
  status = pos 0;
}

-- The texts of a row in a result.
abbrev pub id_row : FriendRequestInfo → Row
id_row r = show_int r.reqid ∷ []

abbrev pub request_row : FriendRequestInfo → Row
request_row r =
    show_int r.reqid
    ∷ show_int r.fromid
    ∷ show_int r.toid
    ∷ show_int r.reqtype
    ∷ show_int r.groupid
    ∷ r.message
    ∷ show_int r.createtime
    ∷ []

-- The texts of the statements that MySQL is asked for below.
unfoldable pub same_text : ℤ → ℤ → ℤ → ℤ → Bytes
same_text from to type group = flatten (
    text "SELECT f_id FROM t_friend_request WHERE f_from_id = "
    ∷ show_int from
    ∷ text " AND f_to_id = "
    ∷ show_int to
    ∷ text " AND f_reqtype = "
    ∷ show_int type
    ∷ text " AND f_group_id = "
    ∷ show_int group
    ∷ text " AND f_status = 0 LIMIT 1"
    ∷ [])

unfoldable pub last_id_text : Bytes
last_id_text = text "SELECT LAST_INSERT_ID()"

abbrev columns : Bytes
columns =
    text
      "SELECT f_id, f_from_id, f_to_id, f_reqtype, f_group_id, f_message, UNIX_TIMESTAMP(f_create_time) "

unfoldable pub pending_text : ℤ → Bytes
pending_text to = flatten (
    columns
    ∷ text "FROM t_friend_request WHERE f_to_id = "
    ∷ show_int to
    ∷ text " AND f_status = 0 AND f_from_id > 0 ORDER BY f_id DESC"
    ∷ [])

unfoldable pub by_id_text : ℤ → Bytes
by_id_text id =
    flatten
      (columns ∷ text "FROM t_friend_request WHERE f_id = " ∷ show_int id ∷ text " LIMIT 1" ∷ [])

unfoldable pub insert_text : ℤ → ℤ → ℤ → ℤ → Bytes → Bytes
insert_text from to type group message = flatten (
    text
      "INSERT INTO t_friend_request (f_from_id, f_to_id, f_reqtype, f_group_id, f_message, f_status, f_create_time) VALUES ("
    ∷ show_int from
    ∷ text ", "
    ∷ show_int to
    ∷ text ", "
    ∷ show_int type
    ∷ text ", "
    ∷ show_int group
    ∷ text ", '"
    ∷ escape_sql_string message
    ∷ text "', 0, NOW())"
    ∷ [])

unfoldable pub update_text : ℤ → ℤ → Bytes
update_text id status = flatten (
    text "UPDATE t_friend_request SET f_status = "
    ∷ show_int status
    ∷ text " WHERE f_id = "
    ∷ show_int id
    ∷ [])

-- For a request of a sender, a receiver, a kind, a group and a text, and for an id and a status that
-- is given to it. The newest entry stands first, which is the order of `ORDER BY f_id DESC`. A statement that is not
-- run changes nothing, a query never does, and an INSERT makes a new id, which the connection knows.
pub record RequestTable (e : Env) (from to type group : ℤ) (message : Bytes) (reqid status : ℤ)
    : Type 0 where
  pub entries : e.State → List Entry
  pub at_select_same :
      (x : e.State)
      → ((e.query (same_text from to type group) x).0 ≡ none)
        ⊎ (((e.query (same_text from to type group) x).0 ≡ some [])
            ⊎ ((r : FriendRequestInfo) × ((e.query (same_text from to type group) x).0
                  ≡ some (id_row r ∷ []))
                × Memᴰ r (matching (is_same from to type group) (entries x))))
  pub after_select_same :
      (x : e.State) → entries (e.query (same_text from to type group) x).1 ≡ entries x
  pub at_select_pending :
      (x : e.State)
      → ((e.query (pending_text to) x).0 ≡ none)
        ⊎ ((e.query (pending_text to) x).0
            ≡ some (map request_row (matching (is_pending to) (entries x))))
  pub after_select_pending : (x : e.State) → entries (e.query (pending_text to) x).1 ≡ entries x
  pub at_select_id :
      (x : e.State)
      → ((e.query (by_id_text reqid) x).0 ≡ none)
        ⊎ ((e.query (by_id_text reqid) x).0
            ≡ some (map request_row (limit_one (matching (has_id reqid) (entries x)))))
  pub after_select_id : (x : e.State) → entries (e.query (by_id_text reqid) x).1 ≡ entries x
  pub at_insert :
      (x : e.State)
      → (e.execute (insert_text from to type group message) x).0 ≡ true
      → (id time : ℤ) × (entries (e.execute (insert_text from to type group message) x).1
          ≡ inserted_entry from to type group message id time ∷ entries x)
        × (((e.query last_id_text (e.execute (insert_text from to type group message) x).1).0
              ≡ none)
            ⊎ ((e.query last_id_text (e.execute (insert_text from to type group message) x).1).0
                ≡ some ((show_int id ∷ []) ∷ [])))
  pub after_last_insert_id : (x : e.State) → entries (e.query last_id_text x).1 ≡ entries x
  pub at_update :
      (x : e.State)
      → entries (e.execute (update_text reqid status) x).1 ≡ (
          if (e.execute (update_text reqid status) x).0
          then map (set_status reqid status) (entries x)
          else entries x)
