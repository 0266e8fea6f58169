-- ===== src/Examples.antt =====
pub mod Toy
pub mod Opened
pub mod Polls
pub mod Overflows
pub mod Sessions
pub mod Clients
pub mod Benches
pub mod Computed
pub mod Served
pub mod Serving
pub mod Servers
pub mod Batches
pub mod Retries
pub mod Steps
pub mod Letters
pub mod Tickers
