-- ===== src/Infractions.antt =====
-- Database/Infractions and the warning commands of GreekBot/GreekBot_Infractions.cpp.
pub mod Table
pub mod Warn
pub mod Escalation
pub mod Statistics
pub mod Panel
pub mod Removal
pub mod Buttons
pub mod Pressing
pub mod Updates
pub mod Effects
pub mod Newest
mod Examples
mod Clicks
