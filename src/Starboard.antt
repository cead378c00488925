-- ===== src/Starboard.antt =====
-- Database/Starboard and the reaction handlers of GreekBot/GreekBot_Starboard.cpp.
pub mod Table
pub mod Reactions
pub mod Consistency
pub mod Steps
pub mod Handlers
pub mod Removal
mod Counts
pub mod Deletion
pub mod Ranking
pub mod Standings
pub mod Ranks
pub mod Commands
pub mod Replies
mod Examples
