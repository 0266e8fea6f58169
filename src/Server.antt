-- ===== src/Server.antt =====
-- sql/pgque.sql: the server's side of a queue, as far as a plain consumer meets it.
pub mod Snapshots
pub mod BatchSql
pub mod Tables
pub mod Batches
pub mod Nack
pub mod Events
pub mod Ticks
pub mod Tickers
pub mod Queues
pub mod Registration
pub mod Retries
pub mod DeadLetters
pub mod Steps
pub mod Serves
pub mod Delivery
