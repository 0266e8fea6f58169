-- ===== src/Server/Queues.antt =====
-- `create_queue` of sql/pgque.sql. The tables that it creates for the queue's events, and the
-- privileges and storage settings that it gives to them, are not modelled. Times are milliseconds.
use Prim.Native.String.{len, ◌++◌ as ◌<>◌}
use pg_que.Base.{ℕ, ◌+◌, String, false, none, ◌∷◌, ltb, str_eq, if◌then◌else◌}
use pg_que.Base.Texts.{show}
use pg_que.Exec.{ok, Exec, pure, ◌>>◌}
use pg_que.Server.Tables.{Db, Queue, Sequence, exists, put}
use pg_que.Server.Batches.{raise_exception}
use pg_que.Server.Ticks.{ticker}

-- A queue with the defaults of the columns of `pgque.queue`.
abbrev pub default_queue : ℕ → String → Queue
default_queue id name = record {
  queue_id = id;
  queue_name = name;
  queue_max_retries = none;
  queue_disable_insert = false;
  queue_external_ticker = false;
  queue_ticker_paused = false;
  queue_ticker_max_count = 500;
  queue_ticker_max_lag = 3000;
  queue_ticker_idle_period = 60000;
}

-- `CREATE SEQUENCE`
abbrev pub new_sequence : Sequence
new_sequence = record { last_value = 1; is_called = false }

-- The row of the queue, and its sequences.
unfoldable pub insert_queue : String → Db → Db
insert_queue name db =
    let id = db.queue_id_seq + 1 in
    record db {
      queue_id_seq = id;
      queues = default_queue id name ∷ db.queues;
      event_seq = put id new_sequence db.event_seq;
      tick_seq = put id new_sequence db.tick_seq;
    }

-- `create_queue`; the length of a text is that of its UTF-8 form.
unfoldable pub create_queue : String → Exec Db ℕ
create_queue name db =
    if ltb 57 (len name)
    then raise_exception
        ("queue name too long: "
          <> show (len name)
          <> " bytes (max 57). pg_notify channel 'pgque_<queue_name>' must fit in 63 bytes.")
        db
    else if exists (λ q. str_eq q.queue_name name) db.queues
    then (ok 0, db)
    else (ticker name >> pure 1) (insert_queue name db)
