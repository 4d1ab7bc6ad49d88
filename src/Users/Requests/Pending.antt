-- ===== src/Users/Requests/Pending.antt =====
-- The requests that GetPendingRequests (IMServer/IMServer/UserManager.cpp) lists.
use mathlib.Core.List.{Memᴰ}
use mathlib.Core.List.Memᴰ.{head, tail}
use aim_server.Common.{
  ◌≡◌, ◌≢◌, refl, sym, ap, subst, ◌∙◌, ◌⊎◌, inl, inr, Bool, true, false, Option, none, some, List,
  [], ◌∷◌, arith, map, All, if◌then◌else◌, Bytes, ℤ, pos, eqb_iff, Bool-cases, ◌<ℤ◌,
}
use aim_server.Env.{Env, Row}
use aim_server.Query.{read_rows, read_rows-All, int_field, first_row}
use aim_server.Text.Decimal.{show_int, atoi-show_int}
use aim_server.Users.User.{FriendRequestInfo}
use aim_server.Users.Statements
use aim_server.Users.Requests.{
  request_of_row, only_row, insert_request, add_friend_request, get_pending_requests,
  get_friend_request_by_id,
}
use aim_server.Users.Requests.Table.{
  Entry, inserted_entry, is_same, is_pending, has_id, matching, limit_one, id_row, request_row,
  RequestTable, same_text, pending_text, by_id_text, last_id_text, insert_text,
}

-- What is read of a row is what stands in the table.
request_of_row-request_row : (r : FriendRequestInfo) → request_of_row (request_row r) ≡ r
unfolding request_of_row int_field
request_of_row-request_row r =
    rw
      (
        atoi-show_int r.reqid,
        atoi-show_int r.fromid,
        atoi-show_int r.toid,
        atoi-show_int r.reqtype,
        atoi-show_int r.groupid,
        atoi-show_int r.createtime,
      )
      refl

request_rows_full : (rs : List FriendRequestInfo) → All (λ x. x ≢ []) (map request_row rs)
request_rows_full [] = tt
request_rows_full (r ∷ rs) = ((λ e. cc), request_rows_full rs)

map-request_of_row : (rs : List FriendRequestInfo) → map request_of_row (map request_row rs) ≡ rs
map-request_of_row [] = refl
map-request_of_row (r ∷ rs) = rw (request_of_row-request_row r, map-request_of_row rs) refl

pub requests_read :
    (rs : List FriendRequestInfo) → map request_of_row (read_rows (map request_row rs)) ≡ rs
requests_read rs =
    ap (map request_of_row) (read_rows-All (map request_row rs) (request_rows_full rs))
    ∙ map-request_of_row rs

-- What stands in a list that a test may have made longer.
chosen :
    (b : Bool) (q r : FriendRequestInfo) (rest : List FriendRequestInfo)
    → Memᴰ r (if b then q ∷ rest else rest)
    → ((b ≡ true) × (q ≡ r)) ⊎ Memᴰ r rest
chosen true q r rest (head same) = inl (refl, sym same)
chosen true q r rest (tail h) = inr h
chosen false q r rest h = inr h

kept :
    (b : Bool) (q r : FriendRequestInfo) (rest : List FriendRequestInfo)
    → ((b ≡ true) × (r ≡ q)) ⊎ Memᴰ r rest
    → Memᴰ r (if b then q ∷ rest else rest)
kept true q r rest (inl h) = head h.1
kept false q r rest (inl h) = absurd (ground arith)
kept true q r rest (inr h) = tail h
kept false q r rest (inr h) = h

-- The WHERE clause holds of what a query lists.
matching-inv :
    (p : Entry → Bool) (es : List Entry) (r : FriendRequestInfo)
    → Memᴰ r (matching p es)
    → (en : Entry) × Memᴰ en es × (p en ≡ true) × (en.request ≡ r)
unfolding matching
matching-inv p [] r h = absurd (elim h [ ])
matching-inv p (x ∷ es) r h = elim (chosen (p x) x.request r (matching p es) h) [
  | inl here ↦ (x, head refl, here.0, here.1)
  | inr later ↦
      let (en, mem, holds, same) = matching-inv p es r later in (en, tail mem, holds, same)
]

matching-mem :
    (p : Entry → Bool) (es : List Entry) (en : Entry)
    → Memᴰ en es
    → p en ≡ true
    → Memᴰ en.request (matching p es)
unfolding matching
matching-mem p [] en h holds = elim h [ ]
matching-mem p (x ∷ es) en (head same) holds =
    kept (p x) x.request en.request (matching p es)
      (inl (ap p (sym same) ∙ holds, ap (λ (y : Entry). y.request) same))
matching-mem p (x ∷ es) en (tail h) holds =
    kept (p x) x.request en.request (matching p es) (inr (matching-mem p es en h holds))

-- What the four numbers of a request that waits have to be.
pub record Asks (from to type group : ℤ) (r : FriendRequestInfo) : Type 0 where
  pub by : r.fromid ≡ from
  pub whom : r.toid ≡ to
  pub kind : r.reqtype ≡ type
  pub about : r.groupid ≡ group

is_same_lem :
    (from to type group : ℤ) (en : Entry)
    → is_same from to type group en ≡ true
    → (en.status ≡ pos 0) × Asks from to type group en.request
is_same_lem from to type group en h = (
  ground (arith, eqb_iff en.status (pos 0)),
  record {
    by = ground (arith, eqb_iff en.request.fromid from);
    whom = ground (arith, eqb_iff en.request.toid to);
    kind = ground (arith, eqb_iff en.request.reqtype type);
    about = ground (arith, eqb_iff en.request.groupid group);
  },
)

pending_lem :
    (from to type group : ℤ) (en : Entry)
    → pos 0 <ℤ from
    → en.status ≡ pos 0
    → Asks from to type group en.request
    → is_pending to en ≡ true
pending_lem from to type group en some_from waits asks =
    let positive : pos 0 <ℤ en.request.fromid = subst (λ z. pos 0 <ℤ z) (sym asks.by) some_from in
    ground (arith, (eqb_iff en.status (pos 0)).1 waits, (eqb_iff en.request.toid to).1 asks.whom)

-- A request of that kind waits among some rows; the id is its id, or 0 for want of an answer.
pub record Waits (from to type group id : ℤ) (es : List Entry) : Type 0 where
  pub entry : Entry
  pub stored : Memᴰ entry es
  pub unhandled : entry.status ≡ pos 0
  pub asks : Asks from to type group entry.request
  pub id_known : (id ≡ entry.request.reqid) ⊎ (id ≡ pos 0)

-- The id that AddFriendRequest takes from the answer to SELECT LAST_INSERT_ID().
abbrev new_id : Option (List Row) → ℤ
new_id rows = elim (only_row rows) [ none ↦ pos 0 | some row ↦ int_field row 0 ]

new_id_lem :
    (rows : Option (List Row)) (id : ℤ)
    → (rows ≡ none) ⊎ (rows ≡ some ((show_int id ∷ []) ∷ []))
    → (new_id rows ≡ id) ⊎ (new_id rows ≡ pos 0)
unfolding only_row int_field first_row
new_id_lem rows id (inl failed) = inr (ap new_id failed)
new_id_lem rows id (inr known) = inl (ap new_id known ∙ atoi-show_int id)

-- The laws of the table at the statements of UserManager.
module _ (e : Env) (from to type group : ℤ) (message : Bytes) (reqid status : ℤ)
    (law : RequestTable e from to type group message reqid status) where
  at_select_same_lem :
      (x : e.State)
      → ((e.query (Statements.Select.same_request from to type group) x).0 ≡ none)
        ⊎ (((e.query (Statements.Select.same_request from to type group) x).0 ≡ some [])
            ⊎ ((r : FriendRequestInfo) × ((e.query
                    (Statements.Select.same_request from to type group)
                    x).0
                  ≡ some (id_row r ∷ []))
                × Memᴰ r (matching (is_same from to type group) (law.entries x))))
  unfolding Statements.Select.same_request same_text
  at_select_same_lem = law.at_select_same

  after_select_same_lem :
      (x : e.State)
      → law.entries (e.query (Statements.Select.same_request from to type group) x).1
        ≡ law.entries x
  unfolding Statements.Select.same_request same_text
  after_select_same_lem = law.after_select_same

  at_select_pending_lem :
      (x : e.State)
      → ((e.query (Statements.Select.pending_requests to) x).0 ≡ none)
        ⊎ ((e.query (Statements.Select.pending_requests to) x).0
            ≡ some (map request_row (matching (is_pending to) (law.entries x))))
  unfolding Statements.Select.pending_requests pending_text
  at_select_pending_lem = law.at_select_pending

  after_select_pending_lem :
      (x : e.State)
      → law.entries (e.query (Statements.Select.pending_requests to) x).1 ≡ law.entries x
  unfolding Statements.Select.pending_requests pending_text
  after_select_pending_lem = law.after_select_pending

  at_select_id_lem :
      (x : e.State)
      → ((e.query (Statements.Select.request_by_id reqid) x).0 ≡ none)
        ⊎ ((e.query (Statements.Select.request_by_id reqid) x).0
            ≡ some (map request_row (limit_one (matching (has_id reqid) (law.entries x)))))
  unfolding Statements.Select.request_by_id by_id_text
  at_select_id_lem = law.at_select_id

  after_select_id_lem :
      (x : e.State)
      → law.entries (e.query (Statements.Select.request_by_id reqid) x).1 ≡ law.entries x
  unfolding Statements.Select.request_by_id by_id_text
  after_select_id_lem = law.after_select_id

  at_insert_lem :
      (x : e.State)
      → (e.execute (Statements.Insert.friend_request from to type group message) x).0 ≡ true
      → (id time : ℤ) × (law.entries
            (e.execute (Statements.Insert.friend_request from to type group message) x).1
          ≡ inserted_entry from to type group message id time ∷ law.entries x)
        × (((e.query Statements.Select.last_insert_id
                (e.execute (Statements.Insert.friend_request from to type group message) x).1).0
              ≡ none)
            ⊎ ((e.query Statements.Select.last_insert_id
                  (e.execute (Statements.Insert.friend_request from to type group message) x).1).0
                ≡ some ((show_int id ∷ []) ∷ [])))
  unfolding Statements.Select.last_insert_id Statements.Insert.friend_request last_id_text
      insert_text
  at_insert_lem = law.at_insert

  after_last_insert_id_lem :
      (x : e.State) → law.entries (e.query Statements.Select.last_insert_id x).1 ≡ law.entries x
  unfolding Statements.Select.last_insert_id last_id_text
  after_last_insert_id_lem = law.after_last_insert_id

module _ (e : Env) (from to type group : ℤ) (msg : Bytes) (reqid status : ℤ)
    (law : RequestTable e from to type group msg reqid status) where
  abbrev inserted : e.State → Bool × e.State
  inserted = e.execute (Statements.Insert.friend_request from to type group msg)

  insert-Waits :
      (id : ℤ) (x : e.State)
      → (insert_request e from to type group msg x).0 ≡ some id
      → Waits from to type group id (law.entries (insert_request e from to type group msg x).1)
  unfolding insert_request
  insert-Waits id x h = elim (Bool-cases (inserted x).0) [
    | inr refused ↦ absurd (ground arith)
    | inl ok ↦
        let (new, time, put, known) =
          at_insert_lem e from to type group msg reqid status law x ok in
        let answer = e.query Statements.Select.last_insert_id (inserted x).1 in
        let made : insert_request e from to type group msg x ≡ (some (new_id answer.0), answer.1) =
          rw (ok, insert_request) refl in
        let same_id : new_id answer.0 ≡ id = cc in
        let rows = sym (
          ap (λ (r : Option ℤ × e.State). law.entries r.1) made
          ∙ (after_last_insert_id_lem e from to type group msg reqid status law (inserted x).1
              ∙ put)) in
        subst (Waits from to type group id) rows (record {
          entry = inserted_entry from to type group msg new time;
          stored = head refl;
          unhandled = refl;
          asks = record { by = refl; whom = refl; kind = refl; about = refl };
          id_known = subst (λ i. (i ≡ new) ⊎ (i ≡ pos 0)) same_id (new_id_lem answer.0 new known);
        })
  ]

  abbrev looked : e.State → Option (List Row) × e.State
  looked = e.query (Statements.Select.same_request from to type group)

  add-new :
      (id : ℤ) (x : e.State)
      → only_row (looked x).0 ≡ none
      → (add_friend_request e from to type group msg x).0 ≡ some id
      → Waits from to type group id (law.entries (add_friend_request e from to type group msg x).1)
  unfolding add_friend_request
  add-new id x no_row h =
      let same : add_friend_request e from to type group msg x
          ≡ insert_request e from to type group msg (looked x).1 =
        rw (no_row, add_friend_request) refl in
      subst (λ (r : Option ℤ × e.State). Waits from to type group id (law.entries r.1)) (sym same)
        (insert-Waits id (looked x).1 (ap (λ (r : Option ℤ × e.State). r.0) (sym same) ∙ h))

  pub add-Waits :
      (id : ℤ) (x : e.State)
      → (add_friend_request e from to type group msg x).0 ≡ some id
      → Waits from to type group id (law.entries (add_friend_request e from to type group msg x).1)
  unfolding add_friend_request only_row first_row int_field
  add-Waits id x h = elim (at_select_same_lem e from to type group msg reqid status law x) [
    | inl failed ↦ add-new id x (ap only_row failed) h
    | inr (inl empty) ↦ add-new id x (ap only_row empty) h
    | inr (inr found) ↦
        let (r, row, listed) = found in
        let (en, stored, holds, same) =
          matching-inv (is_same from to type group) (law.entries x) r listed in
        let (waits, asks) = is_same_lem from to type group en holds in
        let old : add_friend_request e from to type group msg x
            ≡ (some (int_field (id_row r) 0), (looked x).1) =
          rw (ap only_row row, add_friend_request) refl in
        let rows = sym (
          ap (λ (p : Option ℤ × e.State). law.entries p.1) old
          ∙ after_select_same_lem e from to type group msg reqid status law x) in
        let same_id : int_field (id_row r) 0 ≡ id = cc in
        subst (Waits from to type group id) rows (record {
          entry = en;
          stored = stored;
          unhandled = waits;
          asks = asks;
          id_known = inl (
              sym same_id
              ∙ (atoi-show_int r.reqid ∙ ap (λ (q : FriendRequestInfo). q.reqid) (sym same)));
        })
  ]

module _ (e : Env) (from to type group : ℤ) (msg : Bytes) (reqid status : ℤ)
    (law : RequestTable e from to type group msg reqid status) where
  pub get_pending_requests_lem :
      (x : e.State)
      → (((e.query (Statements.Select.pending_requests to) x).0 ≡ none)
          × ((get_pending_requests e to x).0 ≡ []))
        ⊎ ((get_pending_requests e to x).0 ≡ matching (is_pending to) (law.entries x))
  unfolding get_pending_requests
  get_pending_requests_lem x =
      elim (at_select_pending_lem e from to type group msg reqid status law x) [
        | inl failed ↦ inl (failed, rw failed refl)
        | inr rows ↦ inr (rw rows (requests_read (matching (is_pending to) (law.entries x))))
      ]

  listed :
      (id : ℤ) (x : e.State)
      → pos 0 <ℤ from
      → Waits from to type group id (law.entries x)
      → ((e.query (Statements.Select.pending_requests to) x).0 ≡ none)
        ⊎ ((r : FriendRequestInfo) × Memᴰ r (get_pending_requests e to x).0
            × Asks from to type group r
            × ((id ≡ r.reqid) ⊎ (id ≡ pos 0)))
  listed id x some_from w = elim (get_pending_requests_lem x) [
    | inl failed ↦ inl failed.0
    | inr rows ↦
        let holds = pending_lem from to type group w.entry some_from w.unhandled w.asks in
        let mem = matching-mem (is_pending to) (law.entries x) w.entry w.stored holds in
        inr (w.entry.request, subst (Memᴰ w.entry.request) (sym rows) mem, w.asks, w.id_known)
  ]

module _ (e : Env) (from to type group : ℤ) (msg : Bytes) (reqid status : ℤ)
    (law : RequestTable e from to type group msg reqid status) where
  -- GetFriendRequestById finds a request that is stored, whatever its status.
  pub found_request :
      (x : e.State) (r : FriendRequestInfo) (rest : List FriendRequestInfo)
      → matching (has_id reqid) (law.entries x) ≡ r ∷ rest
      → ((e.query (Statements.Select.request_by_id reqid) x).0 ≡ none)
        ⊎ ((get_friend_request_by_id e reqid x).0 ≡ some r)
  unfolding get_friend_request_by_id only_row first_row
  found_request x r rest stored =
      elim (at_select_id_lem e from to type group msg reqid status law x) [
        | inl failed ↦ inl failed
        | inr rows ↦
            let one = rows ∙ ap (λ l. some (map request_row (limit_one l))) stored in
            inr (rw (one, get_friend_request_by_id) (ap some (request_of_row-request_row r)))
      ]
