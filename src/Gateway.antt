-- ===== src/Gateway.antt =====
-- Discord/Gateway/GatewayImpl.cpp and GatewayEvents.cpp: the sessions with Discord's gateway, and its
-- events.
pub mod State
pub mod Handlers
pub mod Steps
pub mod Single
pub mod Invariant
mod Unguarded
pub mod Writes
pub mod Orderly
pub mod Queue
pub mod EventTypes
pub mod Events
pub mod OtherEvents
pub mod Dispatch
pub mod ChunkEvents
mod Examples
mod EventExamples
