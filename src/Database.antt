-- ===== src/Database.antt =====
-- Database/Database.h and Database/Database.cpp: transactions over a connection to SQLite.
pub mod Sqlite
pub mod Transaction
pub mod Commit
pub mod Exec
mod Examples
