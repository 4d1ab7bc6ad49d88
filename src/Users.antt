-- ===== src/Users.antt =====
-- The cache of users and groups: class UserManager.
pub mod User
pub mod Directory
pub mod Statements
pub mod Manager
pub mod Load
pub mod Requests
pub mod History
