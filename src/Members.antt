-- ===== src/Members.antt =====
-- Discord/Gateway/GatewayGuildMembers.cpp: requests for the members of a guild.
pub mod Batches
pub mod Chunks
pub mod Series
pub mod Delivery
mod Examples
