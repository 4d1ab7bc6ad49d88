-- ===== src/Tests/Delivery.antt =====
-- The theorems on messages that are kept or published, at a table and a broker that are lists.
use mathlib.Core.List.{flatten}
use aim_server.Common.{
  sym, ℕ, ◌≡◌, refl, ◌∙◌, ap, ◌≢◌, inr, ◌⊎◌, Bool, true, false, none, some, List, [], ◌∷◌, ◌++◌,
  arith, All, if◌then◌else◌, ◌==◌, Bytes, IsBytes, eqb, done, bytes_eq, bytes_eq_refl, text, pos,
  drop, length, map,
}
use aim_server.Env.{Env, failed}
use aim_server.Text.Hex.{to_hex, from_hex, from_hex-append}
use aim_server.Text.Decimal.{show_int}
use aim_server.Offline.{
  chat_type, get_notify_msg_cache, fetch_and_delete_offline_msg, add_chat_msg_cache,
  insert_offline_msg, insert_offline_sql, select_offline_sql,
}
use aim_server.Fixtures.{codec, bob}
use aim_server.Proto.{LoginRsp, Protobuf, MessageContainer}
use aim_server.Users.Directory.{empty_manager}
use aim_server.Session.State.{World, ClientSession, find_session, send, container}
use aim_server.Session.Dispatch.{on_message_received}
use aim_server.Session.Dispatch.Answers.{asks, request_answered}
use aim_server.Session.Account.{finish_login}
use aim_server.Session.Chat.{deliver}
use aim_server.Session.Chat.Later.{parsed, deliver-finish_login}
use aim_server.Offline.Mailbox.{
  OfflineTable, Refusal, insert_text, select_text, delete_text, Op, store, fetch, OpIsBytes,
  Mailbox, run, stored_of, fetched_of,
}
use aim_server.Offline.Mailbox.Refinement.{delivered_once}
use aim_server.RabbitMq.{Amqp, RabbitMqPublisher, has_conn, publish}
use aim_server.RabbitMq.Handles.{Accounting, IsTracked, Ended, publish-Ended}

-- The texts in front of the content in an INSERT for user 2 and type 1.
abbrev insert_head : List Bytes
insert_head =
    text "INSERT INTO t_offline_msg (f_userid, f_msgtype, f_content) VALUES ("
    ∷ show_int (pos 2)
    ∷ text ", "
    ∷ show_int (pos 1)
    ∷ text ", X'"
    ∷ []

abbrev skip_all : List Bytes → Bytes → Bytes
skip_all [] s = s
skip_all (p ∷ ps) s = skip_all ps (drop (length p) s)

drop-append : (p s : Bytes) → drop (length p) (p ++ s) ≡ s
drop-append [] s = refl
drop-append (c ∷ p) s = drop-append p s

skip_all-flatten : (ps qs : List Bytes) → skip_all ps (flatten (ps ++ qs)) ≡ flatten qs
unfolding flatten
skip_all-flatten [] qs = refl
skip_all-flatten (p ∷ ps) qs =
    ap (skip_all ps) (drop-append p (flatten (ps ++ qs))) ∙ skip_all-flatten ps qs

-- A text without its last byte.
without_last : Bytes → Bytes
without_last [] = []
without_last (c ∷ []) = []
without_last (c ∷ d ∷ s) = c ∷ without_last (d ∷ s)

without_last-append : (s : Bytes) (c : ℕ) → without_last (s ++ c ∷ []) ≡ s
unfolding without_last
without_last-append [] c = refl
without_last-append (a ∷ []) c = refl
without_last-append (a ∷ b ∷ s) c = ap (◌∷◌ a) (without_last-append (b ∷ s) c)

-- The content that an INSERT gives: what follows the hexadecimal text reads as one more byte.
abbrev inserted : Bytes → Bytes
inserted sql = without_last (from_hex (skip_all insert_head sql))

inserted_lem : (b : Bytes) → IsBytes b → inserted (insert_text (pos 2) (pos 1) b) ≡ b
unfolding insert_text flatten text from_hex
inserted_lem b h =
    ap (λ t. without_last (from_hex t)) (skip_all-flatten insert_head (to_hex b ∷ text "')" ∷ []))
    ∙ (ap without_last (from_hex-append b (text "')") h) ∙ without_last-append b 0)

-- An INSERT for user 2 adds its content, and any other statement takes all away.
abbrev mail_execute : Bytes → List Bytes → Bool × List Bytes
mail_execute [] q = (false, q)
mail_execute (c ∷ sql) q = if c == b'I' then (true, q ++ inserted (c ∷ sql) ∷ []) else (true, [])

abbrev mail_env : Env
mail_env = record {
  State = List Bytes;
  execute = mail_execute;
  query = λ sql q. (
    if bytes_eq sql (select_text (pos 2) (pos 1)) then some (map (λ b. to_hex b ∷ []) q) else none,
    q,
  );
  draws = λ q. (λ i. i, q);
  time = λ q. (pos 0, q);
  stub_send_code = λ _ q. (failed [], q);
  stub_verify_code = λ _ _ q. (failed [], q);
  stub_upload = λ _ _ _ q. (failed [], q);
  stub_vip_status = λ _ q. (failed [], q);
  stub_upgrade_vip = λ _ _ _ q. (failed [], q);
  publish = λ _ _ q. (false, q);
}

mail_at_insert :
    (b : Bytes) (q : List Bytes)
    → IsBytes b
    → (mail_execute (insert_text (pos 2) (pos 1) b) q).1
      ≡ (if (mail_execute (insert_text (pos 2) (pos 1) b) q).0 then q ++ b ∷ [] else q)
unfolding insert_text flatten text
mail_at_insert b q h = ap (λ c. q ++ c ∷ []) (inserted_lem b h)

mail_at_delete :
    (q : List Bytes)
    → (mail_execute (delete_text (pos 2) (pos 1)) q).1
      ≡ (if (mail_execute (delete_text (pos 2) (pos 1)) q).0 then [] else q)
unfolding delete_text flatten text
mail_at_delete q = refl

mail_at_select :
    (q : List Bytes)
    → ((mail_env.query (select_text (pos 2) (pos 1)) q).0 ≡ none)
      ⊎ ((mail_env.query (select_text (pos 2) (pos 1)) q).0 ≡ some (map (λ b. to_hex b ∷ []) q))
mail_at_select q = inr (rw (bytes_eq_refl (select_text (pos 2) (pos 1))) refl)

abbrev mail_table : OfflineTable mail_env (pos 2) (pos 1)
mail_table = record {
  queue = λ q. q;
  at_insert = mail_at_insert;
  at_select = mail_at_select;
  after_select = λ q. refl;
  at_delete = mail_at_delete;
}

-- No DELETE is refused.
never_refused : Refusal mail_env (pos 2) (pos 1) → ⊥
unfolding delete_text flatten text
never_refused (x, refused) = ground arith

-- Two messages are stored, read, and a third is stored.
abbrev some_ops : List Op
some_ops = store (7 ∷ []) ∷ store (8 ∷ []) ∷ fetch ∷ store (9 ∷ []) ∷ []

some_ops-IsBytes : All OpIsBytes some_ops
some_ops-IsBytes = ((omega arith, tt), ((omega arith, tt), (tt, ((omega arith, tt), tt))))

delivered_once_example :
    fetched_of (run mail_env (pos 2) (pos 1) some_ops []).0
      ++ (run mail_env (pos 2) (pos 1) some_ops []).1
    ≡ stored_of (run mail_env (pos 2) (pos 1) some_ops []).0
delivered_once_example =
    delivered_once mail_env (pos 2) (pos 1) mail_table some_ops [] never_refused some_ops-IsBytes tt

notices_differ : bytes_eq (select_offline_sql (pos 2) (pos 0)) (select_text (pos 2) (pos 1)) ≡ false
unfolding bytes_eq select_offline_sql select_text flatten text show_int
notices_differ = refl

no_notices : (q : List Bytes) → (get_notify_msg_cache mail_env (pos 2) q).1 ≡ q
unfolding get_notify_msg_cache fetch_and_delete_offline_msg
no_notices q = rw notices_differ refl

-- The query of GetChatMsgCache.
same_select :
    (q : List Bytes)
    → (mail_env.query (select_offline_sql (pos 2) chat_type) q).0
      ≡ some (map (λ b. to_hex b ∷ []) q)
unfolding select_offline_sql select_text
same_select q = rw (bytes_eq_refl (select_text (pos 2) (pos 1))) refl

chats_found : (q : List Bytes) → (mail_env.query (select_offline_sql (pos 2) chat_type) q).0 ≢ none
chats_found q none_read = let e = sym (same_select q) ∙ none_read in cc

-- Every text is the same message, and every message the same text.
abbrev hello : MessageContainer
hello = record { cmd = pos 1100; seq = pos 0; target_id = pos 2; targets = []; payload = [] }

abbrev hello_codec : Protobuf
hello_codec = record codec {
  parse_message_container = λ _. some hello;
  serialize_message_container = λ _. 7 ∷ [];
}

-- Nobody is connected, and a message for bob is in the table already.
abbrev quiet_world : World mail_env
quiet_world = record {
  store = record { manager = empty_manager; ext = (8 ∷ []) ∷ [] };
  clients = record { agent = false; avatar = false; mail = false; mq_publisher = false };
  sessions = [];
  out = [];
  agent_calls = [];
}

abbrev chat_table : OfflineTable mail_env (pos 2) chat_type
chat_table = mail_table

hello_stored : (add_chat_msg_cache mail_env (pos 2) (7 ∷ []) ((8 ∷ []) ∷ [])).0 ≡ true
unfolding add_chat_msg_cache insert_offline_msg insert_offline_sql flatten text
hello_stored = refl

-- Another connection of bob.
abbrev bob_session : ClientSession
bob_session = record {
  sessionid = text "0x7f01";
  seq = pos 1;
  user = some bob;
  target = pos 0;
  targets = [];
}

nobody_there : find_session (pos 2) quiet_world.sessions ≡ none
unfolding find_session
nobody_there = refl

pub asked : asks (pos 1010) ≡ true
unfolding eqb
asked = refl

abbrev stored_world : World mail_env
stored_world = deliver mail_env hello_codec (pos 2) hello quiet_world

-- A later world: bob has connected and something has been sent.
abbrev later : World mail_env
later = record stored_world {
  sessions = (text "0x7f01", bob_session) ∷ [];
  out = (text "0x7f02", hello) ∷ [];
}

abbrev welcome : LoginRsp
welcome = record { code = pos 0; msg = text "ok"; user = none; is_vip = false }

deliver-finish_login_example :
    (before more : List (Bytes × MessageContainer)) × (v' : World mail_env) × (finish_login mail_env
        hello_codec
        (welcome, bob_session, later)
      ≡ done v')
    × (v'.out
        ≡ (later.out ++ (text "0x7f01", container (pos 1002) (pos 1) []) ∷ [])
          ++ (before
              ++ ((parsed hello_codec (text "0x7f01") ((8 ∷ []) ∷ [])
                    ++ (text "0x7f01", hello) ∷ [])
                  ++ more)))
    × (v'.store.ext ≡ [])
deliver-finish_login_example =
    deliver-finish_login mail_env hello_codec bob_session bob quiet_world chat_table hello later
      welcome no_notices chats_found never_refused refl (omega arith, tt) ((omega arith, tt), tt)
      nobody_there hello_stored refl refl refl

-- A request for the members of a group.
abbrev pub members_request : MessageContainer
members_request = record {
  cmd = pos 1010;
  seq = pos 7;
  target_id = pos 0;
  targets = [];
  payload = [];
}

request_answered_example :
    (payload : Bytes) × (w' : World mail_env) × (on_message_received mail_env hello_codec
        bob_session members_request quiet_world
      ≡ done (send (text "0x7f01") (container (pos 1010) (pos 7) payload) w'))
request_answered_example =
    request_answered mail_env hello_codec bob_session members_request quiet_world refl asked

-- A broker that accepts everything but the messages; its state is the list of open connections.
abbrev tail : List ℕ → List ℕ
tail [] = []
tail (_ ∷ hs) = hs

abbrev pub deaf_broker : Amqp
deaf_broker = record {
  Broker = List ℕ;
  parse_url = λ _. some (record { host = []; port = 5672; vhost = []; user = []; password = [] });
  new_connection = λ hs. (length hs, length hs ∷ hs);
  tcp_socket_new = λ _ hs. (true, hs);
  socket_open = λ _ _ _ hs. (true, hs);
  login = λ _ _ _ _ hs. (true, hs);
  channel_open = λ _ hs. (true, hs);
  exchange_declare = λ _ _ hs. (true, hs);
  basic_publish = λ _ _ _ _ hs. (false, hs);
  close = λ _ hs. hs;
  destroy_connection = λ _ hs. tail hs;
}

abbrev deaf_broker-Accounting : Accounting deaf_broker
deaf_broker-Accounting = record {
  live = λ hs. hs;
  at_new = λ hs. refl;
  at_destroy = λ h hs others e. ap tail e;
  at_socket_new = λ h hs. refl;
  at_socket_open = λ h host port hs. refl;
  at_login = λ h vhost user password hs. refl;
  at_channel_open = λ h hs. refl;
  at_exchange_declare = λ h name hs. refl;
  at_publish = λ h exchange key body hs. refl;
  at_close = λ h hs. refl;
}

abbrev pub publisher : RabbitMqPublisher
publisher = record {
  url = text "amqp://localhost";
  exchange = text "im.events";
  conn = none;
  is_connected = false;
}

publisher-IsTracked : IsTracked deaf_broker deaf_broker-Accounting (5 ∷ []) (publisher, 5 ∷ [])
unfolding has_conn
publisher-IsTracked = record { open_ones = refl; flag = refl }

publish-Ended_example :
    Ended deaf_broker deaf_broker-Accounting
      (5 ∷ [])
      (publish deaf_broker (text "chat") (text "{}") publisher (5 ∷ []))
publish-Ended_example =
    publish-Ended deaf_broker deaf_broker-Accounting (5 ∷ []) (text "chat") (text "{}") publisher
      (5 ∷ []) publisher-IsTracked
