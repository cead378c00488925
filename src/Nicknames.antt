-- ===== src/Nicknames.antt =====
-- Database/Nicknames and the member handlers of GreekBot/Nicknames.cpp.
pub mod Table
pub mod Members
pub mod Lookup
pub mod Notes
pub mod Chunks
pub mod Cutting
pub mod Splitting
pub mod Report
pub mod Lines
pub mod Spacing
pub mod Sending
pub mod Buttons
mod ReportExamples
mod Examples
