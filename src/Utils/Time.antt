-- ===== src/Utils/Time.antt =====
-- The ISO 8601 timestamps of Discord/Utils/Utils.cpp and Discord/Utils.h.
pub mod Calendar
pub mod Parse
pub mod Format
pub mod RoundTrip
