-- ===== src/Utils.antt =====
-- Discord/Utils: the routines that the rest of the bot shares.
pub mod Digits
pub mod Snowflake
pub mod Base64
pub mod Percent
pub mod Time
mod Examples
