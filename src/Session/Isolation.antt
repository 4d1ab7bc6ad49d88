-- ===== src/Session/Isolation.antt =====
-- Sessions beside each other: what one connection's messages do to the others' session objects
-- (IMServer/IMServer/ClientSession.cpp, IMServer/IMServer/IMSer.cpp).
pub mod Pushes
pub mod Friends
pub mod Groups
pub mod Accounts
pub mod Chats
pub mod Table
pub mod Events
pub mod Receiving
