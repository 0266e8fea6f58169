-- ===== src/Server/Steps/Reached.antt =====
-- Every step of the server of sql/pgque.sql keeps its tables valid.
use mathlib.Core.Path.{subst}
use pg_que.Base.{false, ℕ, ◌≤◌, ◌≡◌, sym, Option, some, List, [], ◌∷◌, arith}
use pg_que.Exec.{Result, ok, err}
use pg_que.Base.Selections.{select}
use pg_que.Server.Snapshots.{IsSnapshot, Snapshot, visible}
use pg_que.Server.BatchSql.Partition.{IsLater}
use pg_que.Server.Tables.{Db, Tick}
use pg_que.Server.Events.{insert_event}
use pg_que.Server.Batches.{ack}
use pg_que.Server.Ticks.{ticks_of}
use pg_que.Server.Steps.{
  Call, kept, perform, Transaction, MayBegin, begun, Numbers, AreDrawn, with_numbers, Step, calls,
  installed, begins, draws, Reach, here, next,
}
use pg_que.Server.Steps.Valid.{Descends, IsValid, same}
use pg_que.Server.Steps.Ordered.{later_same, later_still}
use pg_que.Server.Steps.Rows.{All-map}
use pg_que.Server.Steps.Subscribed.{next_batch-IsValid, finish_batch-IsValid}
use pg_que.Server.Steps.Enrolled.{register_consumer_at-IsValid, unregister_consumer-IsValid}
use pg_que.Server.Steps.Created.{create_queue-IsValid}
use pg_que.Server.Steps.Ticked.{
  insert_event_raw-IsValid, ticker-IsValid, ticker_external-IsValid, force_tick-IsValid,
}
use pg_que.Server.Steps.Everywhere.{ticker_all-IsValid}
use pg_que.Server.Steps.Letters.{dlq_replay-IsValid, dlq_replay_all-IsValid, dlq_purge-IsValid}
use pg_que.Server.Steps.Retried.{nack-IsValid, receive-IsValid, maint_retry_events-IsValid}

-- What a call that returns leaves is what it does.
kept-IsValid :
    {base : Db} {A : Type 0} (r : Result A × Db) (db' : Db)
    → IsValid base r.1
    → kept r ≡ some db'
    → IsValid base db'
kept-IsValid {base} (ok a, d) db' v h = subst (IsValid base) (same h) v
  where
    same : {a b : Db} → Path (Option Db) (some a) (some b) → a ≡ b
    same e = cc
kept-IsValid (err e, d) db' v h = absurd (cc)

perform-IsValid :
    {base : Db} (c : Call) (db db' : Db)
    → IsValid base db
    → perform c db ≡ some db'
    → IsValid base db'
unfolding perform insert_event ack
perform-IsValid (Call.create_queue queue) db db' v h =
    kept-IsValid _ db' (create_queue-IsValid db v queue) h
perform-IsValid (Call.insert_event queue t d x1 x2 x3 x4) db db' v h =
    kept-IsValid _ db' (insert_event_raw-IsValid queue db v _) h
perform-IsValid (Call.ticker queue) db db' v h = kept-IsValid _ db' (ticker-IsValid queue db v) h
perform-IsValid (Call.ticker_all order) db db' v h =
    kept-IsValid _ db' (ticker_all-IsValid db v order) h
perform-IsValid (Call.ticker_external queue id timestamp event_seq) db db' v h =
    kept-IsValid _ db' (ticker_external-IsValid queue db v id timestamp event_seq) h
perform-IsValid (Call.force_tick queue) db db' v h =
    kept-IsValid _ db' (force_tick-IsValid queue db v) h
perform-IsValid (Call.register_consumer_at queue consumer tick_pos) db db' v h =
    kept-IsValid _ db' (register_consumer_at-IsValid db v queue consumer tick_pos) h
perform-IsValid (Call.unregister_consumer queue consumer) db db' v h =
    kept-IsValid _ db' (unregister_consumer-IsValid db v queue consumer) h
perform-IsValid (Call.next_batch queue consumer) db db' v h =
    kept-IsValid _ db' (next_batch-IsValid db v queue consumer) h
perform-IsValid (Call.receive queue consumer max_return) db db' v h =
    kept-IsValid _ db' (receive-IsValid db v queue consumer max_return) h
perform-IsValid (Call.ack batch_id) db db' v h =
    kept-IsValid _ db' (finish_batch-IsValid db v batch_id) h
perform-IsValid (Call.nack batch_id msg_id retry_after reason) db db' v h =
    kept-IsValid _ db' (nack-IsValid db v batch_id msg_id retry_after reason) h
perform-IsValid Call.maint_retry_events db db' v h =
    kept-IsValid _ db' (maint_retry_events-IsValid db v) h
perform-IsValid (Call.dlq_replay id) db db' v h = kept-IsValid _ db' (dlq_replay-IsValid db v id) h
perform-IsValid (Call.dlq_replay_all queue) db db' v h =
    kept-IsValid _ db' (dlq_replay_all-IsValid db v queue) h
perform-IsValid (Call.dlq_purge queue older_than) db db' v h =
    kept-IsValid _ db' (dlq_purge-IsValid db v queue older_than) h

Descends-raised :
    (b c : ℕ) (s t : Snapshot) (ts : List Tick)
    → b ≤ c
    → IsLater s t
    → Descends b s ts
    → Descends c t ts
Descends-raised b c s t [] h k d = tt
Descends-raised b c s t (x ∷ ts) h k (below, is, later, rest) =
    (omega (arith, h, below), is, later_still x.tick_snapshot s t later k, rest)

begun-IsValid :
    {base : Db} (t : Transaction) (db : Db)
    → MayBegin db t
    → IsValid base db
    → IsValid base (begun t db)
begun-IsValid {base} t db m v = record {
  drawn = v.drawn;
  own_batch = v.own_batch;
  own_row = v.own_row;
  own_retry = v.own_retry;
  current = m.is;
  running = m.running;
  in_order = λ queue.
      Descends-raised _ _ db.snapshot t.snapshot (ticks_of queue db.ticks) (omega arith) m.later
        (v.in_order queue);
  counted = v.counted;
  since = later_still base.snapshot db.snapshot t.snapshot v.since m.later;
  added = v.added;
  old_ticks = v.old_ticks;
  known_queues = v.known_queues;
  known_ticks = v.known_ticks;
  called = v.called;
}

with_numbers-IsValid :
    {base : Db} (n : Numbers) (db : Db)
    → AreDrawn db n
    → IsValid base db
    → IsValid base (with_numbers n db)
with_numbers-IsValid n db a v = record {
  drawn = All-map _ _ db.subscriptions (λ s h b e. omega (arith, h b e, a.batches)) v.drawn;
  own_batch = v.own_batch;
  own_row = v.own_row;
  own_retry = v.own_retry;
  current = v.current;
  running = v.running;
  in_order = λ queue.
      Descends-raised _ _ db.snapshot db.snapshot (ticks_of queue db.ticks) (a.ticks queue)
        (later_same db.snapshot) (v.in_order queue);
  counted = All-map _ _ db.ticks (λ t h. omega (arith, h, a.events t.tick_queue)) v.counted;
  since = v.since;
  added = v.added;
  old_ticks = v.old_ticks;
  known_queues = v.known_queues;
  known_ticks = v.known_ticks;
  called = All-map _ _ db.queues (λ q h. a.called q.queue_id h) v.called;
}

Step-IsValid : {base : Db} (db db' : Db) → Step db db' → IsValid base db → IsValid base db'
Step-IsValid db db' (calls c h) v = perform-IsValid c db db' v h
Step-IsValid {base} db db' (begins t m e) v = subst (IsValid base) (sym e) (begun-IsValid t db m v)
Step-IsValid {base} db db' (draws n a e) v =
    subst (IsValid base) (sym e) (with_numbers-IsValid n db a v)

-- If tables are valid, so are all that calls of the functions, in any order and by any
-- transactions, lead to: in them no two rows violate the keys of the subscriptions, of their batches,
-- of the retry queue or of the ticks; the ticks of each queue are in the order of their snapshots;
-- and all the events that were added belong to transactions that the snapshot at the start does not
-- see.
pub Reach-IsValid : {db db' : Db} → Reach db db' → IsValid db db → IsValid db db'
Reach-IsValid here v = v
Reach-IsValid (next {d} {e} r s) v = Step-IsValid d e s (Reach-IsValid r v)

-- Valid tables are valid to start from.
pub restarted-IsValid : {base : Db} (db : Db) → IsValid base db → IsValid db db
restarted-IsValid db v = record {
  drawn = v.drawn;
  own_batch = v.own_batch;
  own_row = v.own_row;
  own_retry = v.own_retry;
  current = v.current;
  running = v.running;
  in_order = v.in_order;
  counted = v.counted;
  since = later_same db.snapshot;
  added = λ queue. same;
  old_ticks = λ queue id t h. h;
  known_queues = v.known_queues;
  known_ticks = v.known_ticks;
  called = v.called;
}

-- Whatever is reached from a new installation, by calls of the functions in any order and by any
-- transactions, is valid: no two rows violate a key of the subscriptions, of their batches, of the
-- retry queue or of the ticks; the numbers of batches and the ids of queues have been drawn; and the
-- ticks of each queue are in the order of their snapshots, none counting more events than there are
-- numbers.
pub installed-IsValid :
    (t : Transaction)
    → IsSnapshot t.snapshot
    → visible t.snapshot t.xid ≡ false
    → (db : Db) → Reach (installed t) db
    → IsValid db db
unfolding select ticks_of
installed-IsValid t is running db r = restarted-IsValid db (
    Reach-IsValid r (record {
      drawn = tt;
      own_batch = λ b. omega arith;
      own_row = λ queue consumer. omega arith;
      own_retry = λ owner id. omega arith;
      current = is;
      running = running;
      in_order = λ queue. tt;
      counted = tt;
      since = later_same t.snapshot;
      added = λ queue. same;
      old_ticks = λ queue id u h. h;
      known_queues = tt;
      known_ticks = tt;
      called = tt;
    }))
