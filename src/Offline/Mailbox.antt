-- ===== src/Offline/Mailbox.antt =====
-- MsgCacheManager (IMServer/IMServer/MsgCacheManager.cpp) seen from outside: a mailbox of the
-- messages of one user and one type, and the table t_offline_msg under it.
pub mod Refinement
use mathlib.Core.List.{flatten}
use mathlib.Core.Path.{ap₂}
use aim_server.Common.{
  ◌≡◌, refl, sym, ap, subst, ◌∙◌, ◌≢◌, ◌⊎◌, inl, inr, Bool, true, false, Option, none, some, List,
  [], ◌∷◌, ◌++◌, map, append_assoc, append-nil, All, All-append, if◌then◌else◌, Bytes, IsBytes, ℤ,
  text,
}
use aim_server.Env.{Env, Row}
use aim_server.Query.{read_rows, read_rows-All, field}
use aim_server.Text.Decimal.{show_int}
use aim_server.Text.Hex.{to_hex, from_hex, from_hex-to_hex}
use aim_server.Offline.{
  insert_offline_sql, select_offline_sql, delete_offline_sql, insert_offline_msg, delete_found,
  decode_found, fetch_and_delete_offline_msg,
}

-- The texts of three statements that MySQL is asked for below.
unfoldable pub insert_text : ℤ → ℤ → Bytes → Bytes
insert_text userid msgtype blob = flatten (
    text "INSERT INTO t_offline_msg (f_userid, f_msgtype, f_content) VALUES ("
    ∷ show_int userid
    ∷ text ", "
    ∷ show_int msgtype
    ∷ text ", X'"
    ∷ to_hex blob
    ∷ text "')"
    ∷ [])

unfoldable pub select_text : ℤ → ℤ → Bytes
select_text userid msgtype = flatten (
    text "SELECT HEX(f_content) FROM t_offline_msg WHERE f_userid = "
    ∷ show_int userid
    ∷ text " AND f_msgtype = "
    ∷ show_int msgtype
    ∷ text " ORDER BY f_id ASC"
    ∷ [])

unfoldable pub delete_text : ℤ → ℤ → Bytes
delete_text userid msgtype = flatten (
    text "DELETE FROM t_offline_msg WHERE f_userid = "
    ∷ show_int userid
    ∷ text " AND f_msgtype = "
    ∷ show_int msgtype
    ∷ [])

-- What MySQL does with three statements on the table t_offline_msg, for one user and one type.
-- `ORDER BY f_id ASC` is the order of the INSERTs, the condition selects the rows of that user and
-- that type, HEX writes two upper-case digits for each byte, and a DELETE that is refused removes
-- nothing.
pub record OfflineTable (e : Env) (userid msgtype : ℤ) : Type 0 where
  pub queue : e.State → List Bytes
  pub at_insert :
      (blob : Bytes) (x : e.State)
      → IsBytes blob
      → queue (e.execute (insert_text userid msgtype blob) x).1 ≡ (
          if (e.execute (insert_text userid msgtype blob) x).0
          then queue x ++ blob ∷ []
          else queue x)
  pub at_select :
      (x : e.State)
      → ((e.query (select_text userid msgtype) x).0 ≡ none)
        ⊎ ((e.query (select_text userid msgtype) x).0 ≡ some (map (λ b. to_hex b ∷ []) (queue x)))
  pub after_select : (x : e.State) → queue (e.query (select_text userid msgtype) x).1 ≡ queue x
  pub at_delete :
      (x : e.State)
      → queue (e.execute (delete_text userid msgtype) x).1
        ≡ (if (e.execute (delete_text userid msgtype) x).0 then [] else queue x)

-- The server refuses the DELETE in some state.
abbrev pub Refusal : (e : Env) → ℤ → ℤ → Type 0
Refusal e userid msgtype = (x : e.State) × ((e.execute (delete_text userid msgtype) x).0 ≡ false)

-- What the server does with the mailbox.
pub data Op : Type 0 where
  store : Bytes → Op
  fetch : Op

-- What comes of it.
pub data Event : Type 0 where
  stored : Bytes → Event
  lost : Bytes → Event
  fetched : List Bytes → Event

-- The mailbox without a database: from its contents, by some events, to its contents. A fetch
-- empties it, or fails and gives nothing, or, if there can be a refusal, gives the contents and
-- keeps them.
pub data Mailbox (refusal : Type 0) : List Bytes → List Event → List Bytes → Type 0 where
  rests : {q : List Bytes} → Mailbox refusal q [] q
  keeps :
      {q : List Bytes} {es : List Event} {r : List Bytes} (b : Bytes)
      → Mailbox refusal (q ++ b ∷ []) es r
      → Mailbox refusal q (stored b ∷ es) r
  loses :
      {q : List Bytes} {es : List Event} {r : List Bytes} (b : Bytes)
      → Mailbox refusal q es r
      → Mailbox refusal q (lost b ∷ es) r
  hands_out :
      {q : List Bytes} {es : List Event} {r : List Bytes} (bs : List Bytes)
      → bs ≡ q
      → Mailbox refusal [] es r
      → Mailbox refusal q (fetched bs ∷ es) r
  fails :
      {q : List Bytes} {es : List Event} {r : List Bytes}
      → Mailbox refusal q es r
      → Mailbox refusal q (fetched [] ∷ es) r
  repeats :
      {q : List Bytes} {es : List Event} {r : List Bytes} (bs : List Bytes)
      → refusal
      → bs ≡ q
      → Mailbox refusal q es r
      → Mailbox refusal q (fetched bs ∷ es) r

-- The messages that were stored, and those that were given out, in order.
pub stored_of : List Event → List Bytes
stored_of [] = []
stored_of (stored b ∷ es) = b ∷ stored_of es
stored_of (lost b ∷ es) = stored_of es
stored_of (fetched bs ∷ es) = stored_of es

pub fetched_of : List Event → List Bytes
fetched_of [] = []
fetched_of (stored b ∷ es) = fetched_of es
fetched_of (lost b ∷ es) = fetched_of es
fetched_of (fetched bs ∷ es) = bs ++ fetched_of es

-- The bytes of a message to be stored.
abbrev pub OpIsBytes : Op → Type 0
OpIsBytes (store b) = IsBytes b
OpIsBytes fetch = Unit {0}

module _ (e : Env) (userid msgtype : ℤ) where
  stored_event : Bytes → Bool × e.State → Event × e.State
  stored_event b (true, x) = (stored b, x)
  stored_event b (false, x) = (lost b, x)

  do_op : Op → e.State → Event × e.State
  unfolding stored_event
  do_op (store b) x = stored_event b (insert_offline_msg e userid msgtype b x)
  do_op fetch x = let (bs, x') = fetch_and_delete_offline_msg e userid msgtype x in (fetched bs, x')

  -- MsgCacheManager at work.
  pub run : List Op → e.State → List Event × e.State
  unfolding do_op
  run [] x = ([], x)
  run (op ∷ ops) x =
      let (event, x') = do_op op x in let (events, x'') = run ops x' in (event ∷ events, x'')
