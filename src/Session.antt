-- ===== src/Session.antt =====
-- The client sessions: class ClientSession (IMServer/IMServer/ClientSession.h and .cpp) and the
-- table of sessions in class IMSer (IMServer/IMServer/IMSer.cpp).
pub mod State
pub mod Account
pub mod Groups
pub mod Isolation
pub mod Friends
pub mod Approvals
pub mod Chat
pub mod Services
pub mod Dispatch
pub mod Assistant
