-- ===== src/Lib.antt =====
-- PgQue is a queue inside PostgreSQL. This library is about its Python side, the client library
-- clients/python/pgque and the programs of benchmark/ and clients/python/bench that use it or the
-- server directly, and about the functions of sql/pgque.sql that a plain consumer meets. A
-- producer sends events through `PgqueClient`; a `Consumer` receives batches, calls the handlers
-- of their messages, nacks those that failed, and acks the batch, all in one transaction per
-- poll, and waits for a notification between polls.
--
-- The parts and their files:
-- - Value, Value/Json: the Python values that pass through the client, and `json.dumps`.
-- - Types, Errors: clients/python/pgque/types.py and errors.py. Errors/Wrap is `_wrap_sql_error`.
-- - Exec: what every method is here, an action on a state that returns or raises. What was
--   changed before a raise stays changed.
-- - Driver: psycopg and the server behind it, a parameter: a state and the calls on it. What a
--   proof assumes of them is a hypothesis, `IsCalm` or `IsTransactional` of Driver/Assumptions.
-- - Client: clients/python/pgque/client.py, a function per method of `PgqueClient` under the
--   method's name; Client/Requests has the statements and their parameters.
-- - Consumer: `Consumer` and `_poll_once` of clients/python/pgque/consumer.py. The loop over the
--   messages is `dispatch`, its round `dispatch_one`, the `try` around a nack `try_nack`, and
--   what follows the loop `finish`. Consumer/Plan describes the loop independently, in two
--   passes. Consumer/Waiting has the two waits and Consumer/Session `_run_session`, `start` and
--   `stop`, over the operations of Consumer/Runtime: the clock, `select`, the signals, and the
--   flag `_running`, which any thread may have changed whenever it is read.
-- - Server: sql/pgque.sql. Server/Tables has the tables and their look-ups; Server/BatchSql is
--   `batch_event_sql`, with the rows of its query in place of the query's text; Server/Batches
--   has `next_batch` (through `next_batch_custom` without limits), `get_batch_events`,
--   `finish_batch`, `receive` and `ack`; Server/Nack has `nack`, `event_retry` and `event_dead`;
--   Server/Retries has `maint_retry_events`; Server/Events has `insert_event` and
--   `insert_event_raw`; Server/Ticks has `ticker` of one queue, by itself or from an external
--   source, and `force_tick`, Server/Tickers `ticker` of all queues; Server/Queues has
--   `create_queue`; Server/DeadLetters has `dlq_replay`, `dlq_replay_all` and `dlq_purge`;
--   Server/Registration has `register_consumer_at` and `unregister_consumer`. The functions are
--   actions on the tables, and `raise exception` is a raise with the message and the SQLSTATE.
--   Server/Steps is the server over time: its steps are calls that return, of any of these
--   functions, changes to another transaction or to its next statement, with a later snapshot,
--   and numbers lost by transactions that are rolled back; so transactions interleave, a call at
--   a time.
--   Server/Snapshots has what PostgreSQL documents of snapshots, and Server/Serves what is
--   assumed of a server that runs these functions for psycopg: a statement that returns has run
--   its function, and COMMIT keeps what was done. Server/Delivery is about a poll of the consumer
--   at such a server.
-- - Bench: Events is benchmark/tooling/parse_events_consumed.py; Preload and Scaling are run.py
--   and Pool is consumer_pool.py of benchmark/subconsumer-scaling, where a run preloads a queue,
--   drains it by the pool, and derives its tables from the pool's log; Charts has the series and
--   labels of its charts and the rolling mean of benchmark/charts/r8_analyze.py; Sessions is
--   benchmark/charts/r8_ash_analyze.py; TickRate is benchmark/tick-rate/bench.py; CoopDemo and
--   Producer are coop_demo.py and bench_producer.py of clients/python.
-- - Base: names that all of these share. Examples: two small servers, one that counts statements
--   and one with tables (Examples/Serving), and the theorems applied to them.
--
-- Loops that no argument bounds take fuel, one for each round, and give `none` when it runs out.
-- The fuel of a wait is two for each second of the poll interval and one more, since a round
-- takes at least its slice of half a second. For the loops of the benchmarks no bound is given,
-- since a server may leave them without messages; those of `start` and `_run_session` run until
-- they are stopped, so that no fuel is enough for them. Python's integers and these numbers have
-- no bound; the natural numbers stand for arguments that are not negative, except where a file
-- has `ℤ`. Durations are whole milliseconds or microseconds, as each file says.
--
-- Not modelled: logging and printing, drawing, floats (averages and percentiles), the programs
-- that only sample or draw, the other clients, and of the server's SQL: the configuration of
-- queues, the tables that one gets, cooperative consumers, table rotation, privileges, and locks;
-- what a transaction does is seen by the others at once, except for events. A queue's data tables
-- are one list of rows.
pub mod Base
pub mod Value
pub mod Errors
pub mod Exec
pub mod Driver
pub mod Types
pub mod Client
pub mod Consumer
pub mod Examples
pub mod Bench
pub mod Server
