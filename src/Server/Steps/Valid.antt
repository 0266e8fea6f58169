-- ===== src/Server/Steps/Valid.antt =====
-- What holds of the tables of sql/pgque.sql between two statements.
use pg_que.Base.{
  ℕ, String, if◌then◌else◌, ◌≤◌, ◌<◌, ◌≡◌, Bool, true, false, some, List, [], ◌∷◌, length, All,
  ◌==◌, ◌&&◌,
}
use pg_que.Base.Selections.{select}
use pg_que.Server.Snapshots.{Snapshot, IsSnapshot, visible}
use pg_que.Server.BatchSql.Partition.{IsLater}
use pg_que.Server.BatchSql.{Event}
use pg_que.Server.Tables.{Db, Tick, Registered, DeadLetter, Retry, next_value, has_batch, find}
use pg_que.Server.Batches.Held.{IsConsistent}
use pg_que.Server.Ticks.{ticks_of}
use pg_que.Server.Registration.{is_row}
use pg_que.Server.Nack.{is_retry}

-- Ticks from the newest on: their numbers fall from below `bound`, and each was taken before what
-- follows it, the newest before the snapshot `s`.
abbrev pub Descends : ℕ → Snapshot → List Tick → Type 0
Descends bound s [] = Unit
Descends bound s (t ∷ ts) =
    (t.tick_id < bound)
    × IsSnapshot t.tick_snapshot
    × IsLater t.tick_snapshot s
    × Descends t.tick_id t.tick_snapshot ts

-- The rows of a queue, since a snapshot: new ones come first, of transactions that it does not see.
pub data Added (s : Snapshot) (old : List Event) : List Event → Type 0 where
  same : Added s old old
  more :
      {ev : Event} {events : List Event}
      → visible s ev.ev_txid ≡ false
      → Added s old events
      → Added s old (ev ∷ events)

-- No two rows have the primary key of the retry queue.
abbrev pub AreOwnRetries : List Retry → Type 0
AreOwnRetries rs = (owner id : ℕ) → length (select (is_retry owner id) rs) ≤ 1

abbrev pub is_tick : ℕ → ℕ → Tick → Bool
is_tick queue id t = t.tick_queue == queue && t.tick_id == id

-- The numbers of batches are drawn and each is held once; a consumer has one row for a queue; the
-- keys of the retry queue are unique; the ticks of a queue are in order, up to the snapshot of the
-- transaction, which does not see itself; no tick counts more events than there are numbers; the
-- sequence of ticks of a queue has been drawn from; and the ids of queues are drawn. Since `base`, the
-- snapshot is a later one, and ticks and events have only been added, the events by transactions that
-- the snapshot of then does not see.
pub record IsValid (base db : Db) : Type 0 where
  pub drawn : All (λ s. (b : ℕ) → s.sub_batch ≡ some b → b ≤ db.batch_id_seq) db.subscriptions
  pub own_batch : (b : ℕ) → length (select (has_batch b) db.subscriptions) ≤ 1
  pub own_row : (queue consumer : ℕ) → length (select (is_row queue consumer) db.subscriptions) ≤ 1
  pub own_retry : AreOwnRetries db.retry_queue
  pub current : IsSnapshot db.snapshot
  pub running : visible db.snapshot db.xid ≡ false
  pub in_order :
      (queue : ℕ) → Descends (next_value (db.tick_seq queue)) db.snapshot (ticks_of queue db.ticks)
  pub counted : All (λ t. t.tick_event_seq ≤ (db.event_seq t.tick_queue).last_value) db.ticks
  pub since : IsLater base.snapshot db.snapshot
  pub added : (queue : ℕ) → Added base.snapshot (base.events queue) (db.events queue)
  pub old_ticks :
      (queue id : ℕ) (t : Tick)
      → find (is_tick queue id) base.ticks ≡ some t
      → find (is_tick queue id) db.ticks ≡ some t
  pub known_queues : All (λ q. q.queue_id ≤ db.queue_id_seq) db.queues
  pub known_ticks : All (λ t. t.tick_queue ≤ db.queue_id_seq) db.ticks
  pub called : All (λ q. (db.tick_seq q.queue_id).is_called ≡ true) db.queues

pub IsValid-IsConsistent : {base db : Db} → IsValid base db → IsConsistent db
IsValid-IsConsistent v = record { drawn = v.drawn; own_batch = v.own_batch }

module _ {base : Db} (db : Db) (v : IsValid base db) where
  -- The other tables and sequences do not matter.
  pub others-IsValid :
      (consumers : List Registered) (dead_letter : List DeadLetter)
      (sub_id_seq co_id_seq dl_id_seq : ℕ) (notified : List (String × String))
      → IsValid base (record db {
        consumers = consumers;
        dead_letter = dead_letter;
        sub_id_seq = sub_id_seq;
        co_id_seq = co_id_seq;
        dl_id_seq = dl_id_seq;
        notified = notified;
      })
  others-IsValid consumers dead_letter sub_id_seq co_id_seq dl_id_seq notified = record {
    drawn = v.drawn;
    own_batch = v.own_batch;
    own_row = v.own_row;
    own_retry = v.own_retry;
    current = v.current;
    running = v.running;
    in_order = v.in_order;
    since = v.since;
    added = v.added;
    old_ticks = v.old_ticks;
    counted = v.counted;
    known_queues = v.known_queues;
    known_ticks = v.known_ticks;
    called = v.called;
  }

  pub retries-IsValid :
      (rs : List Retry) → AreOwnRetries rs → IsValid base (record db { retry_queue = rs })
  retries-IsValid rs h = record {
    drawn = v.drawn;
    own_batch = v.own_batch;
    own_row = v.own_row;
    own_retry = h;
    current = v.current;
    running = v.running;
    in_order = v.in_order;
    since = v.since;
    added = v.added;
    old_ticks = v.old_ticks;
    counted = v.counted;
    known_queues = v.known_queues;
    known_ticks = v.known_ticks;
    called = v.called;
  }

pub either-IsValid :
    {base : Db} (c : Bool) (a b : Db)
    → IsValid base a
    → IsValid base b
    → IsValid base (if c then a else b)
either-IsValid true a b v w = v
either-IsValid false a b v w = w
