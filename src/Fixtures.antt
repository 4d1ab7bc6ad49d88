-- ===== src/Fixtures.antt =====
-- A concrete server for the tests: an outside world that accepts every statement, a codec, four
-- accounts, and a world with one session.
use aim_server.Common.{
  ℕ, suc, ◌≡◌, refl, ◌≢◌, true, false, Option, none, some, List, [], ◌∷◌, arith, if◌then◌else◌,
  ◌==◌, Bytes, ℤ, pos, text,
}
use aim_server.Env.{Env, Row, answered}
use aim_server.Proto.{Protobuf, MessageContainer, LoginReq, ChatMsg}
use aim_server.Text.Decimal.{show_int}
use aim_server.Text.Sql.{LiteralReader, read_more}
use aim_server.Users.User.{User, new_user}
use aim_server.Users.Directory.{
  UserManager, empty_manager, store_user, IsCoherent, empty_manager-IsCoherent,
  store_user-IsCoherent,
}
use aim_server.Users.Manager.{Store}
use aim_server.Session.State.{World, ClientSession}

-- Rows of t_user: an id, a name, and a password from before passwords were hashed.
abbrev pub account_row : ℕ → Bytes → Row
account_row id name =
    show_int (pos id)
    ∷ name
    ∷ name
    ∷ text "a"
    ∷ text "0"
    ∷ []
    ∷ text "0"
    ∷ text "0"
    ∷ []
    ∷ []
    ∷ []
    ∷ []
    ∷ text "0"
    ∷ []

abbrev pub account_rows : List Row
account_rows = account_row 2 (text "bob") ∷ account_row 1 (text "alice") ∷ []

-- The state counts the calls.
abbrev pub live : Env
live = record {
  State = ℕ;
  execute = λ _ n. (true, suc n);
  query = λ _ n. (some account_rows, suc n);
  draws = λ n. (λ i. i, suc n);
  time = λ n. (pos n, suc n);
  stub_send_code =
      λ _ n. (answered (record { code = pos 0; msg = []; cooldown_seconds = pos 60 }), suc n);
  stub_verify_code = λ _ _ n. (answered (record { code = pos 0; msg = [] }), suc n);
  stub_upload = λ _ _ _ n. (answered (record { code = pos 0; msg = []; url = [] }), suc n);
  stub_vip_status = λ _ n. (answered (record { code = pos 0; msg = []; is_vip = false }), suc n);
  stub_upgrade_vip =
      λ _ _ _ n. (answered (record { code = pos 0; msg = []; is_vip = true }), suc n);
  publish = λ _ _ n. (true, suc n);
}

abbrev pub login_alice : LoginReq
login_alice = record {
  username = text "alice";
  password = text "guess";
  clienttype = pos 1;
  status = pos 1;
}

abbrev pub empty_chat : ChatMsg
empty_chat = record {
  senderid = pos 0;
  targetid = pos 0;
  content = [];
  timestamp = pos 0;
  skill = [];
  context = [];
  msg_type = pos 0;
  media_url = [];
  duration = pos 0;
  file_size = pos 0;
  thumb_url = [];
  file_name = [];
}

-- Every payload is a login or a change of password.
abbrev pub codec : Protobuf
codec = record {
  parse_register_req = λ _. none;
  parse_login_req = λ _. some login_alice;
  parse_find_user_req = λ _. none;
  parse_operate_friend_req = λ _. none;
  parse_update_user_info_req = λ _. none;
  parse_modify_password_req = λ _. some (record { oldpassword = text "a"; newpassword = text "b" });
  parse_create_group_req = λ _. none;
  parse_get_group_members_req = λ _. none;
  parse_chat_history_req = λ _. none;
  parse_avatar_upload_req = λ _. none;
  parse_send_email_code_req = λ _. none;
  parse_upgrade_vip_req = λ _. none;
  parse_send_request_req = λ _. none;
  parse_handle_request_req = λ _. none;
  parse_kick_group_member_req = λ _. none;
  parse_rename_group_req = λ _. none;
  parse_set_group_admin_req = λ _. none;
  parse_chat_msg = λ _. none;
  parse_multi_chat_targets = λ _. none;
  parse_message_container = λ _. none;
  serialize_common_rsp = λ _. [];
  serialize_login_rsp = λ _. [];
  serialize_friend_list_rsp = λ _. [];
  serialize_find_user_rsp = λ _. [];
  serialize_create_group_rsp = λ _. [];
  serialize_get_group_members_rsp = λ _. [];
  serialize_chat_history_rsp = λ _. [];
  serialize_avatar_upload_rsp = λ _. [];
  serialize_send_email_code_rsp = λ _. [];
  serialize_upgrade_vip_rsp = λ _. [];
  serialize_friend_request = λ _. [];
  serialize_pending_requests_rsp = λ _. [];
  serialize_kick_group_member_rsp = λ _. [];
  serialize_rename_group_rsp = λ _. [];
  serialize_set_group_admin_rsp = λ _. [];
  serialize_user_status_change_notify = λ _. [];
  serialize_chat_msg = λ _. [];
  serialize_message_container = λ _. [];
  partial_chat_msg = λ _. empty_chat;
  json_chat_event = λ _ _ _. [];
}

abbrev pub account : ℕ → Bytes → List ℤ → User
account id name friends = record new_user {
  userid = pos id;
  username = name;
  nickname = name;
  password = text "a";
  friends = friends;
}

abbrev pub alice : User
alice = account 1 (text "alice") (pos 2 ∷ pos 0x10000000 ∷ [])

abbrev pub bob : User
bob = account 2 (text "bob") (pos 1 ∷ pos 0x10000000 ∷ [])

abbrev pub carol : User
carol = account 3 (text "carol") []

-- A group that alice owns and bob administers.
abbrev pub team : User
team = record (account 0x10000000 (text "team") (pos 1 ∷ pos 2 ∷ [])) {
  ownerid = pos 1;
  admins = pos 2 ∷ [];
}

abbrev pub cache : UserManager
cache = store_user team (store_user carol (store_user bob (store_user alice empty_manager)))

pub cache-IsCoherent : IsCoherent cache
cache-IsCoherent =
    store_user-IsCoherent _
      (store_user-IsCoherent _
        (store_user-IsCoherent _
          (store_user-IsCoherent empty_manager empty_manager-IsCoherent alice) bob)
        carol)
      team

abbrev pub disk : Store live
disk = record { manager = cache; ext = 0 }

-- A session of bob, and one that has not logged in.
abbrev pub bobs : ClientSession
bobs = record { sessionid = text "b"; seq = pos 1; user = some bob; target = pos 0; targets = [] }

abbrev pub guest : ClientSession
guest = record { sessionid = text "g"; seq = pos 1; user = none; target = pos 0; targets = [] }

abbrev pub world : World live
world = record {
  store = disk;
  clients = record { agent = true; avatar = true; mail = true; mq_publisher = true };
  sessions = (text "b", bobs) ∷ (text "g", guest) ∷ [];
  out = [];
  agent_calls = [];
}

-- A message with a command and an empty payload.
abbrev pub command : ℤ → MessageContainer
command cmd = record { cmd = cmd; seq = pos 7; target_id = pos 2; targets = []; payload = [] }

-- A reader of quoted strings in which a backslash stands for the character behind it.
pub read_quoted : Bytes → Option (Bytes × Bytes)
read_quoted [] = none
read_quoted (c ∷ []) = if c == 39 then some ([], []) else none
read_quoted (c ∷ d ∷ rest) =
    let skipped = read_quoted rest in
    let next = read_quoted (d ∷ rest) in
    if c == 39
    then (if d == 39 then read_more 39 skipped else some ([], d ∷ rest))
    else if c == 92
    then read_more d skipped
    else read_more c next

pub read_quoted-plain :
    (c : ℕ) (rest : Bytes)
    → c ≢ 39
    → c ≢ 92
    → read_quoted (c ∷ rest) ≡ read_more c (read_quoted rest)
unfolding read_quoted
read_quoted-plain c [] h k = ground arith
read_quoted-plain c (d ∷ rest) h k = ground arith

pub read_quoted-close :
    (c : ℕ) (rest : Bytes) → c ≢ 39 → read_quoted (39 ∷ c ∷ rest) ≡ some ([], c ∷ rest)
unfolding read_quoted
read_quoted-close c rest h = ground arith

pub read_quoted-double :
    (rest : Bytes)
    → (read_quoted (39 ∷ 39 ∷ rest) ≡ read_more 39 (read_quoted rest))
      × (read_quoted (92 ∷ 92 ∷ rest) ≡ read_more 92 (read_quoted rest))
unfolding read_quoted
read_quoted-double rest = (refl, refl)

abbrev pub reader : LiteralReader
reader = record {
  read = read_quoted;
  at_quotes = λ rest. (read_quoted-double rest).0;
  at_backslashes = λ rest. (read_quoted-double rest).1;
  at_plain = read_quoted-plain;
  at_close = read_quoted-close;
}
