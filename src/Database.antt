-- ===== src/Database.antt =====
-- The access to MySQL: the connection pool and the start of MySqlManager
-- (IMServer/IMServer/MySqlManager.cpp) and the connections of MySQLTool
-- (IMServer/IMServer/mysqltool.cpp).
pub mod Pool
pub mod Client
pub mod Tool
pub mod Fields
pub mod Schema
pub mod Startup
