-- ===== src/Http.antt =====
-- Discord/Gateway/GatewayHttp.cpp: the queue of REST requests, and their retries.
pub mod Queue
pub mod Steps
pub mod Serving
pub mod Order
pub mod Drain
pub mod Retry
mod Examples
