-- ===== src/Tests/Requests.antt =====
-- The theorems on stored requests, at a table that is a list.
use mathlib.Core.List.{Memᴰ}
use mathlib.Core.List.Memᴰ.{head}
use aim_server.Common.{
  ℕ, ◌≡◌, refl, sym, ap, ◌∙◌, ◌⊎◌, inl, inr, Bool, true, false, Option, some, List, [], ◌∷◌, ◌==◌,
  if◌then◌else◌, get_or, length, map, ◌+◌, Bytes, pos, text, eqb,
}
use mathlib.Core.List.{flatten}
use aim_server.Env.{Env, Row, failed}
use aim_server.Proto.{HandleRequestReq}
use aim_server.Users.User.{FriendRequestInfo}
use aim_server.Users.Statements
use aim_server.Users.Requests.Table.{
  Entry, inserted_entry, is_same, is_pending, has_id, matching, limit_one, set_status, id_row,
  request_row, RequestTable, same_text, pending_text, by_id_text, last_id_text, insert_text,
  update_text,
}
use aim_server.Session.State.{World}
use aim_server.Fixtures.{cache, world}

-- The first account asks the second one for friendship; the request gets the id 1 and is rejected.
abbrev same_rows : List FriendRequestInfo → List Row
same_rows [] = []
same_rows (r ∷ rs) = id_row r ∷ []

abbrev newest_id : List Entry → List Row
newest_id [] = []
newest_id (en ∷ es) = id_row en.request ∷ []

-- A statement is told by a letter of its text.
abbrev board_query : Bytes → List Entry → Option (List Row)
board_query sql es =
    if get_or sql 7 0 == b'L'
    then some (newest_id es)
    else if get_or sql 11 0 == b' '
    then some (same_rows (matching (is_same (pos 1) (pos 2) (pos 1) (pos 0)) es))
    else if get_or sql 127 0 == b't'
    then some (map request_row (matching (is_pending (pos 2)) es))
    else some (map request_row (limit_one (matching (has_id (pos 1)) es)))

abbrev board_execute : Bytes → List Entry → Bool × List Entry
board_execute sql es = (
  true,
  if get_or sql 0 0 == b'I'
      then inserted_entry (pos 1) (pos 2) (pos 1) (pos 0) (text "hi") (pos (length es + 1)) (pos 0)
        ∷ es
      else map (set_status (pos 1) (pos 2)) es,
)

abbrev board : Env
board = record {
  State = List Entry;
  execute = board_execute;
  query = λ sql es. (board_query sql es, es);
  draws = λ es. (λ i. i, es);
  time = λ es. (pos 0, es);
  stub_send_code = λ _ es. (failed [], es);
  stub_verify_code = λ _ _ es. (failed [], es);
  stub_upload = λ _ _ _ es. (failed [], es);
  stub_vip_status = λ _ es. (failed [], es);
  stub_upgrade_vip = λ _ _ _ es. (failed [], es);
  publish = λ _ _ es. (false, es);
}

law_same :
    (es : List Entry)
    → board_query (same_text (pos 1) (pos 2) (pos 1) (pos 0)) es
      ≡ some (same_rows (matching (is_same (pos 1) (pos 2) (pos 1) (pos 0)) es))
unfolding same_text text flatten
law_same es = refl

law_pending :
    (es : List Entry)
    → board_query (pending_text (pos 2)) es
      ≡ some (map request_row (matching (is_pending (pos 2)) es))
unfolding pending_text text flatten
law_pending es = refl

law_id :
    (es : List Entry)
    → board_query (by_id_text (pos 1)) es
      ≡ some (map request_row (limit_one (matching (has_id (pos 1)) es)))
unfolding by_id_text text flatten
law_id es = refl

law_last_id : (es : List Entry) → board_query last_id_text es ≡ some (newest_id es)
unfolding last_id_text text
law_last_id es = refl

abbrev asked_entry : ℕ → Entry
asked_entry n = inserted_entry (pos 1) (pos 2) (pos 1) (pos 0) (text "hi") (pos n) (pos 0)

law_insert :
    (es : List Entry)
    → board_execute (insert_text (pos 1) (pos 2) (pos 1) (pos 0) (text "hi")) es
      ≡ (true, asked_entry (length es + 1) ∷ es)
unfolding insert_text text flatten
law_insert es = refl

law_update :
    (es : List Entry)
    → board_execute (update_text (pos 1) (pos 2)) es ≡ (true, map (set_status (pos 1) (pos 2)) es)
unfolding update_text text flatten
law_update es = refl

at_update :
    (es : List Entry)
    → board_execute (Statements.Update.request_status (pos 1) (pos 2)) es
      ≡ (true, map (set_status (pos 1) (pos 2)) es)
unfolding Statements.Update.request_status text flatten
at_update es = refl

same_found :
    (rs : List FriendRequestInfo)
    → (same_rows rs ≡ []) ⊎ ((r : FriendRequestInfo) × (same_rows rs ≡ id_row r ∷ []) × Memᴰ r rs)
same_found [] = inl refl
same_found (r ∷ rs) = inr (r, refl, head refl)

abbrev board_table : RequestTable board (pos 1) (pos 2) (pos 1) (pos 0) (text "hi") (pos 1) (pos 2)
board_table = record {
  entries = λ es. es;
  at_select_same = λ es.
      inr (elim (same_found (matching (is_same (pos 1) (pos 2) (pos 1) (pos 0)) es)) [
        | inl empty ↦ inl (law_same es ∙ ap some empty)
        | inr found ↦ inr (found.0, law_same es ∙ ap some found.1, found.2)
      ]);
  after_select_same = λ es. refl;
  at_select_pending = λ es. inr (law_pending es);
  after_select_pending = λ es. refl;
  at_select_id = λ es. inr (law_id es);
  after_select_id = λ es. refl;
  at_insert = λ es ok. (
    pos (length es + 1),
    pos 0,
    ap (λ (r : Bool × List Entry). r.1) (law_insert es),
    inr (law_last_id _ ∙ ap (λ (r : Bool × List Entry). some (newest_id r.1)) (law_insert es)),
  );
  after_last_insert_id = λ es. refl;
  at_update = λ es.
      ap (λ (r : Bool × List Entry). r.1) (law_update es)
      ∙ sym (
          ap (λ (r : Bool × List Entry). if r.0 then map (set_status (pos 1) (pos 2)) es else es)
            (law_update es));
}

-- Two requests wait, and the older one is rejected.
abbrev two_wait : List Entry
two_wait = asked_entry 2 ∷ asked_entry 1 ∷ []

-- The world of the tests with a request of the third account that the second one has rejected.
abbrev rejected_request : FriendRequestInfo
rejected_request = record {
  reqid = pos 1;
  fromid = pos 3;
  toid = pos 2;
  reqtype = pos 1;
  groupid = pos 0;
  message = [];
  createtime = pos 0;
}

abbrev board_world : World board
board_world = record {
  store = record {
    manager = cache;
    ext = record { request = rejected_request; status = pos 2 } ∷ [];
  };
  clients = world.clients;
  sessions = world.sessions;
  out = [];
  agent_calls = [];
}

abbrev accept : HandleRequestReq
accept = record { reqid = pos 1; action = pos 1 }

stored : matching (has_id (pos 1)) board_world.store.ext ≡ rejected_request ∷ []
unfolding matching eqb
stored = refl
