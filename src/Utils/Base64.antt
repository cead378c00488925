-- ===== src/Utils/Base64.antt =====
-- Discord/Utils/Base64.cpp.
pub mod Code
pub mod Groups
pub mod Characters
pub mod RoundTrip
