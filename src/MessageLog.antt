-- ===== src/MessageLog.antt =====
-- GreekBot/MessageLogging.cpp and Database/MessageLog: the log of messages.
pub mod Table
pub mod Reports
pub mod Authors
pub mod Reporting
pub mod Deletions
mod Examples
