-- ===== src/Leaderboard.antt =====
-- GreekBot/GreekBot_Leaderboard.cpp and Database/Leaderboard: the XP table, levels and rank roles.
pub mod Levels
pub mod Table
pub mod Sync
pub mod RankRoles
pub mod Ranking
pub mod Commands
mod Examples
