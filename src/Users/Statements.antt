-- ===== src/Users/Statements.antt =====
-- The SQL text that UserManager sends (IMServer/IMServer/UserManager.cpp), one definition for each
-- statement. Texts from outside pass through EscapeSqlString, numbers through operator<<.
pub mod Insert
pub mod Remove
pub mod Update
pub mod Select
