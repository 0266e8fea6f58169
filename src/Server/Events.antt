-- ===== src/Server/Events.antt =====
-- Publishing in sql/pgque.sql: `insert_event_raw` and `insert_event`.
use Prim.Native.String.{◌++◌ as ◌<>◌}
use pg_que.Base.{ℕ, String, Option, none, some, ◌∷◌, ◌&&◌, not, str_eq, if◌then◌else◌}
use pg_que.Exec.{ok, Exec}
use pg_que.Server.BatchSql.{Event}
use pg_que.Server.Tables.{Db, Queue, find, next_value, drawn, put}
use pg_que.Server.Batches.{raise_exception}

-- The parameters of `insert_event_raw` after the name of the queue.
pub record NewEvent : Type 0 where
  pub ev_id : Option ℕ
  pub ev_time : ℕ
  pub ev_owner : Option ℕ
  pub ev_retry : Option ℕ
  pub ev_type : Option String
  pub ev_data : Option String
  pub ev_extra1 : Option String
  pub ev_extra2 : Option String
  pub ev_extra3 : Option String
  pub ev_extra4 : Option String

-- The row that a transaction inserts, with its number.
abbrev pub event_row : ℕ → ℕ → NewEvent → Event
event_row xid id e = record {
  ev_id = id;
  ev_time = e.ev_time;
  ev_txid = xid;
  ev_owner = e.ev_owner;
  ev_retry = e.ev_retry;
  ev_type = e.ev_type;
  ev_data = e.ev_data;
  ev_extra1 = e.ev_extra1;
  ev_extra2 = e.ev_extra2;
  ev_extra3 = e.ev_extra3;
  ev_extra4 = e.ev_extra4;
}

-- `ev_id`, or the next number of the queue's sequence
abbrev pub number_of : Db → Queue → NewEvent → ℕ
number_of db q e = elim e.ev_id [ none ↦ next_value (db.event_seq q.queue_id) | some id ↦ id ]

-- The sequence of the queue is drawn from, whether its number is used or not.
abbrev pub numbered : Queue → Db → Db
numbered q db = record db {
  event_seq = put q.queue_id (drawn (db.event_seq q.queue_id)) db.event_seq;
}

abbrev pub inserted : Queue → Event → Db → Db
inserted q ev db = record db { events = put q.queue_id (ev ∷ db.events q.queue_id) db.events }

-- `insert_event_raw`
unfoldable pub insert_event_raw : String → NewEvent → Exec Db ℕ
insert_event_raw queue_name e db = elim (find (λ q. str_eq q.queue_name queue_name) db.queues) [
  | none ↦ raise_exception ("queue not found: " <> queue_name) db
  | some q ↦
      let id = number_of db q e in
      if q.queue_disable_insert && not db.is_replica
      then raise_exception "Insert into queue disallowed" (numbered q db)
      else (ok id, inserted q (event_row db.xid id e) (numbered q db))
]

-- `insert_event`, of seven parameters
unfoldable pub insert_event :
    String
    → Option String
    → Option String
    → Option String
    → Option String
    → Option String
    → Option String
    → Exec Db ℕ
insert_event queue_name ev_type ev_data ev_extra1 ev_extra2 ev_extra3 ev_extra4 db =
    insert_event_raw queue_name
      (record {
        ev_id = none;
        ev_time = db.now;
        ev_owner = none;
        ev_retry = none;
        ev_type = ev_type;
        ev_data = ev_data;
        ev_extra1 = ev_extra1;
        ev_extra2 = ev_extra2;
        ev_extra3 = ev_extra3;
        ev_extra4 = ev_extra4;
      })
      db
