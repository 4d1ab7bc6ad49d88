-- ===== src/Text.antt =====
-- The text formats of the server: decimal numbers, hexadecimal, and SQL string literals.
pub mod Decimal
pub mod Hex
pub mod Sql
