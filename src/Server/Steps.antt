-- ===== src/Server/Steps.antt =====
-- The server of sql/pgque.sql over time: calls of its functions, of which one that raises leaves
-- nothing, and changes to another transaction or to the next statement of one.
pub mod Valid
pub mod Ordered
pub mod Rows
pub mod Subscribed
pub mod Enrolled
pub mod Ticked
pub mod Created
pub mod Retried
pub mod Letters
pub mod Reached
pub mod Settled
pub mod Forced
pub mod Apart
pub mod Everywhere
pub mod EachQueue
pub mod Names
pub mod AllTicked
pub mod Published
use pg_que.Base.{ℕ, ◌≤◌, ◌≡◌, String, Bool, true, false, Option, none, some, List, []}
use pg_que.Exec.{Result, ok, err}
use pg_que.Server.Snapshots.{Snapshot, IsSnapshot, visible}
use pg_que.Server.BatchSql.Partition.{IsLater}
use pg_que.Server.Tables.{Db, Sequence, next_value}
use pg_que.Server.Batches
use pg_que.Server.Nack
use pg_que.Server.Events
use pg_que.Server.Ticks
use pg_que.Server.Tickers
use pg_que.Server.Queues
use pg_que.Server.Registration
use pg_que.Server.Retries
use pg_que.Server.DeadLetters

-- The functions, with their arguments; `order` is how the database sorts the names of queues.
pub data Call : Type 0 where
  create_queue : (queue : String) → Call
  insert_event :
      (queue : String) (ev_type ev_data ev_extra1 ev_extra2 ev_extra3 ev_extra4 : Option String)
      → Call
  ticker : (queue : String) → Call
  ticker_all : (order : List String → List String) → Call
  ticker_external : (queue : String) (id timestamp event_seq : ℕ) → Call
  force_tick : (queue : String) → Call
  register_consumer_at : (queue consumer : String) (tick_pos : Option ℕ) → Call
  unregister_consumer : (queue consumer : String) → Call
  next_batch : (queue consumer : String) → Call
  receive : (queue consumer : String) (max_return : ℕ) → Call
  ack : (batch_id : ℕ) → Call
  nack : (batch_id msg_id retry_after : ℕ) (reason : Option String) → Call
  maint_retry_events : Call
  dlq_replay : (id : ℕ) → Call
  dlq_replay_all : (queue : String) → Call
  dlq_purge : (queue : String) (older_than : ℕ) → Call

-- The tables after a call that has returned.
abbrev pub kept : {A : Type 0} → Result A × Db → Option Db
kept (ok a, db) = some db
kept (err e, db) = none

unfoldable pub perform : Call → Db → Option Db
perform (Call.create_queue queue) db = kept (Queues.create_queue queue db)
perform (Call.insert_event queue t d x1 x2 x3 x4) db =
    kept (Events.insert_event queue t d x1 x2 x3 x4 db)
perform (Call.ticker queue) db = kept (Ticks.ticker queue db)
perform (Call.ticker_all order) db = kept (Tickers.ticker_all order db)
perform (Call.ticker_external queue id timestamp event_seq) db =
    kept (Ticks.ticker_external queue id timestamp event_seq db)
perform (Call.force_tick queue) db = kept (Ticks.force_tick queue db)
perform (Call.register_consumer_at queue consumer tick_pos) db =
    kept (Registration.register_consumer_at queue consumer tick_pos db)
perform (Call.unregister_consumer queue consumer) db =
    kept (Registration.unregister_consumer queue consumer db)
perform (Call.next_batch queue consumer) db = kept (Batches.next_batch queue consumer db)
perform (Call.receive queue consumer max_return) db =
    kept (Batches.receive queue consumer max_return db)
perform (Call.ack batch_id) db = kept (Batches.ack batch_id db)
perform (Call.nack batch_id msg_id retry_after reason) db =
    kept (Nack.nack batch_id msg_id retry_after reason db)
perform Call.maint_retry_events db = kept (Retries.maint_retry_events db)
perform (Call.dlq_replay id) db = kept (DeadLetters.dlq_replay id db)
perform (Call.dlq_replay_all queue) db = kept (DeadLetters.dlq_replay_all queue db)
perform (Call.dlq_purge queue older_than) db = kept (DeadLetters.dlq_purge queue older_than db)

-- What PostgreSQL gives to a transaction.
pub record Transaction : Type 0 where
  pub now : ℕ
  pub xid : ℕ
  pub snapshot : Snapshot
  pub is_replica : Bool

-- A transaction goes on with a later snapshot, which does not see the transaction itself.
pub record MayBegin (db : Db) (t : Transaction) : Type 0 where
  pub is : IsSnapshot t.snapshot
  pub later : IsLater db.snapshot t.snapshot
  pub running : visible t.snapshot t.xid ≡ false

abbrev pub begun : Transaction → Db → Db
begun t db = record db {
  now = t.now;
  xid = t.xid;
  snapshot = t.snapshot;
  is_replica = t.is_replica;
  notified = [];
}

-- The numbers of sequences, which a transaction that is rolled back does not give back.
pub record Numbers : Type 0 where
  pub event_seq : ℕ → Sequence
  pub tick_seq : ℕ → Sequence
  pub batch_id_seq : ℕ
  pub sub_id_seq : ℕ
  pub co_id_seq : ℕ
  pub dl_id_seq : ℕ

pub record AreDrawn (db : Db) (n : Numbers) : Type 0 where
  pub events : (queue : ℕ) → (db.event_seq queue).last_value ≤ (n.event_seq queue).last_value
  pub ticks : (queue : ℕ) → next_value (db.tick_seq queue) ≤ next_value (n.tick_seq queue)
  pub called :
      (queue : ℕ) → (db.tick_seq queue).is_called ≡ true → (n.tick_seq queue).is_called ≡ true
  pub batches : db.batch_id_seq ≤ n.batch_id_seq

abbrev pub with_numbers : Numbers → Db → Db
with_numbers n db = record db {
  event_seq = n.event_seq;
  tick_seq = n.tick_seq;
  batch_id_seq = n.batch_id_seq;
  sub_id_seq = n.sub_id_seq;
  co_id_seq = n.co_id_seq;
  dl_id_seq = n.dl_id_seq;
}

pub data Step (db db' : Db) : Type 0 where
  calls : (c : Call) → perform c db ≡ some db' → Step db db'
  begins : (t : Transaction) → MayBegin db t → db' ≡ begun t db → Step db db'
  draws : (n : Numbers) → AreDrawn db n → db' ≡ with_numbers n db → Step db db'

pub data Reach (db : Db) : Db → Type 0 where
  here : Reach db db
  next : {d e : Db} → Reach db d → Step d e → Reach db e

-- The tables of a new installation, in a transaction.
abbrev pub installed : Transaction → Db
installed t = record {
  queues = [];
  consumers = [];
  ticks = [];
  subscriptions = [];
  events = λ queue. [];
  retry_queue = [];
  dead_letter = [];
  event_seq = λ queue. record { last_value = 1; is_called = false };
  tick_seq = λ queue. record { last_value = 1; is_called = false };
  queue_id_seq = 0;
  batch_id_seq = 0;
  sub_id_seq = 0;
  co_id_seq = 0;
  dl_id_seq = 0;
  now = t.now;
  xid = t.xid;
  snapshot = t.snapshot;
  notified = [];
  is_replica = t.is_replica;
}
