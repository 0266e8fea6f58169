-- ===== src/Server/Delivery.antt =====
-- A poll of the consumer in clients/python/pgque/consumer.py at a server with sql/pgque.sql.
pub mod Parking
pub mod Nacks
pub mod Moved
pub mod Polls
