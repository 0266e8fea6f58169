-- ===== src/Bench.antt =====
-- The programs beside the client: benchmark/ and clients/python/bench.
pub mod Events
pub mod Preload
pub mod CoopDemo
pub mod Connection
pub mod Pool
pub mod TickRate
pub mod Charts
pub mod Sessions
pub mod Scaling
pub mod Producer
