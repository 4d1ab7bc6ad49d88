-- ===== src/Users/Requests.antt =====
-- The stored requests for friendship and group membership: AddFriendRequest, GetPendingRequests,
-- GetFriendRequestById and UpdateRequestStatus (IMServer/IMServer/UserManager.cpp). They touch the
-- database alone.
pub mod Table
pub mod Pending
use aim_server.Common.{Bool, Option, none, some, List, [], if◌then◌else◌, Bytes, ℤ, pos, map}
use aim_server.Env.{Env, Row}
use aim_server.Query.{read_rows, first_row, field, int_field}
use aim_server.Users.User.{FriendRequestInfo}
use aim_server.Users.Statements

-- A row of t_friend_request.
pub request_of_row : Row → FriendRequestInfo
request_of_row row = record {
  reqid = int_field row 0;
  fromid = int_field row 1;
  toid = int_field row 2;
  reqtype = int_field row 3;
  groupid = int_field row 4;
  message = field row 5;
  createtime = int_field row 6;
}

-- The first row of a result, if the query succeeds and has one.
unfoldable pub only_row : Option (List Row) → Option Row
only_row none = none
only_row (some rows) = first_row rows

module _ (e : Env) where
  -- The INSERT of AddFriendRequest with the query for the new id; `none` is false.
  insert_request : ℤ → ℤ → ℤ → ℤ → Bytes → e.State → Option ℤ × e.State
  insert_request from_id to_id req_type group_id msg ext =
      let (ok, ext') =
        e.execute (Statements.Insert.friend_request from_id to_id req_type group_id msg) ext in
      let (rows, ext'') = e.query Statements.Select.last_insert_id ext' in
      let id : ℤ = elim (only_row rows) [ none ↦ pos 0 | some row ↦ int_field row 0 ] in
      if ok then (some id, ext'') else (none, ext')

  -- AddFriendRequest: the id of the request, of one that waits already if there is one.
  unfoldable pub add_friend_request : ℤ → ℤ → ℤ → ℤ → Bytes → e.State → Option ℤ × e.State
  unfolding insert_request
  add_friend_request from_id to_id req_type group_id msg ext =
      let (rows, ext') =
        e.query (Statements.Select.same_request from_id to_id req_type group_id) ext in
      elim (only_row rows) [
        | some row ↦ (some (int_field row 0), ext')
        | none ↦ insert_request from_id to_id req_type group_id msg ext'
      ]

  -- The list is empty if the query fails.
  pub get_pending_requests : ℤ → e.State → List FriendRequestInfo × e.State
  get_pending_requests to_id ext =
      let (rows, ext') = e.query (Statements.Select.pending_requests to_id) ext in
      (elim rows [ none ↦ [] | some rs ↦ map request_of_row (read_rows rs) ], ext')

  pub get_friend_request_by_id : ℤ → e.State → Option FriendRequestInfo × e.State
  get_friend_request_by_id req_id ext =
      let (rows, ext') = e.query (Statements.Select.request_by_id req_id) ext in
      (elim (only_row rows) [ none ↦ none | some row ↦ some (request_of_row row) ], ext')

  unfoldable pub update_request_status : ℤ → ℤ → e.State → Bool × e.State
  update_request_status req_id status ext =
      e.execute (Statements.Update.request_status req_id status) ext
