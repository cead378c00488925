-- ===== src/Bans.antt =====
-- end.
pub mod Duration
pub mod Dates
pub mod Table
pub mod Commands
pub mod Timed
pub mod Expiry
mod Guards
pub mod Lifting
pub mod Horizon
mod Examples
