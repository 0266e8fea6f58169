-- ===== src/Server/Retries/Allowed.antt =====
-- `maint_retry_events` of sql/pgque.sql where inserts into the queues of the due rows are allowed.
use pg_que.Base.{◌≡◌, false, some, ◌&&◌, not}
use pg_que.Server.Tables.{Db, Queue, Retry}
use pg_que.Server.Events.{insert_event_raw}
use pg_que.Server.Retries.{insert_event_raw, queue_of}

-- Events may be inserted into the queue of a row.
abbrev pub IsAllowed : Db → Retry → Type 0
IsAllowed db r =
    (q : Queue) → queue_of db r ≡ some q → (q.queue_disable_insert && not db.is_replica) ≡ false
