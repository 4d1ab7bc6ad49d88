-- ===== src/Lib.antt =====
-- AIM-Server: a model of the instant messaging server in IMServer/IMServer, with proofs.
--
-- The server keeps one ClientSession per TCP connection (ClientSession.cpp) in the table of IMSer
-- (IMSer.cpp). A session parses each message with protobuf, calls UserManager (UserManager.cpp),
-- which caches all accounts and groups and writes them to MySQL, and answers over IMCodec. Messages
-- for users without a session go to MsgCacheManager (MsgCacheManager.cpp), chat messages to a
-- message queue or the database. Mail codes, pictures and the assistant are gRPC services.
--
-- Files, with the code they model:
--   Common, Common/*: Boolean tests, lists, int32_t, byte strings.
--   Text/Decimal: decimal text, atoi and stoi. Text/Hex: ToHex and FromHex of MsgCacheManager.cpp and
--     to_hex of PasswordUtil.h. Text/Sql: EscapeSqlString of UserManager.cpp.
--   Password, Password/*: PasswordUtil.h, with the whole of SHA-256.
--   IdSet: std::set<int32_t>. Query: Fetch, NextRow and their loop (QueryResult.cpp).
--   Env: the interface of what is outside: MySqlManager::Execute and Query, the stubs of the gRPC
--     services, RabbitMqPublisher::Publish, the clock and the random device. Proto/Messages: the
--     messages of im.proto. Proto/Codec: what protoc generates for them, as an interface.
--   Query/Result: QueryResult.cpp as an object over the MYSQL_RES of libmysqlclient. Query/Field:
--     Field.cpp and its conversions.
--   Users/User, Users/Directory: User and the two indexes of UserManager (UserManager.h). A pointer of
--     the map is a position in the list of objects. Users/Manager: the methods that register and change
--     accounts, groups and relationships. Users/Load: the start. Users/Requests: stored requests, with
--     the laws of their table.
--     Users/History: stored messages. Users/Statements/*: the SQL text.
--   Offline: MsgCacheManager.cpp. Offline/Mailbox: what it promises, and the laws of the table
--     t_offline_msg.
--   Database/Client: libmysqlclient, as an interface. Database/Tool: the connections of mysqltool.cpp.
--     Database/Pool: acquire and release of MySqlManager.cpp and the threads that use them.
--     Database/Fields: std::map. Database/Schema, Schema/Tables: CheckTable, CreateTable and the tables
--     of the constructor. Database/Startup: Init, Query and Execute of MySqlManager.cpp.
--   RabbitMq: RabbitMqPublisher.cpp, with librabbitmq as an interface.
--   Session/State: sessions, IMSer's table, sending. Session/Account, Groups, Friends, Approvals, Chat,
--     Services: the handlers of ClientSession.cpp by subject, with the gRPC clients' results.
--     Session/Dispatch: OnMessageReceived, OnConnection, OnClose and the assistant's late reply.
--     Session/Isolation: the events of the server as a step relation, and which handler changes which
--     session object.
--   Session/Assistant: AgentGrpcClient.cpp, its thread and the callback.
--   Start: main of IMServer.cpp and what IMSer::init takes from the environment, up to the wait for messages.
--   Fixtures: a concrete server. Tests, Tests/*: the theorems applied to it.
--
-- A handler is a function from the session, the message and the world to an outcome: the world
-- afterwards, or a dead process where the code follows a null pointer or lets an exception go; the use
-- of a destroyed session, which is undefined, counts as the latter. A
-- method of UserManager holds its mutex while it works on the cache (AddGroup counts up before it
-- takes it) and is one step here; handlers do not interleave.
-- Loops are structural recursion; the pads of SHA-256 run on fuel 64, since at most 63 zeros are
-- missing to the next chunk, and the decimal digits of a number on fuel that is greater than the
-- number. The loop over a result runs on fuel too: one turn more than there are rows is enough. The
-- build is the one with gRPC and RabbitMQ.
--
-- The threads of the pool are steps in any order, and a run is a list of them. A statement that has to
-- wait for a connection while no other thread runs is `none`. The mailbox of MsgCacheManager is a data
-- type of events, which says what the methods promise.
--
-- Not modelled: log output without effect, the framing of messages and the event loop (vendored
-- muduo), jsoncpp, channels and deadlines of gRPC, signals, the daemon and the
-- listening socket of the start, and the Go services.
-- MySQL and the broker stand behind interfaces, and the laws of a table name the text of each statement
-- they are about. The handlers take Execute, Query and Publish as calls of Env, which return; that Query
-- dies of a result that is NULL, and the waiting of one handler for another, are not in their model.
pub mod Common
pub mod Text
pub mod Password
pub mod IdSet
pub mod Env
pub mod Query
pub mod Users
pub mod Proto
pub mod Offline
pub mod Database
pub mod RabbitMq
pub mod Session
pub mod Start
pub mod Fixtures
pub mod Tests
