-- ===== src/Server/Ticks.antt =====
-- The ticker of sql/pgque.sql: `ticker` of one queue, of an external source and of all queues, and
-- `force_tick`. Its warnings are not modelled. Times and lags are whole numbers of one unit; a
-- comparison of a difference is written with sums, and one with half a lag is doubled.
use Prim.Native.String.{◌++◌ as ◌<>◌}
use pg_que.Base.{
  ℕ, ◌+◌, ◌*◌, String, Bool, false, Option, none, some, List, [], ◌∷◌, ◌&&◌, ◌||◌, not, str_eq,
  ◌==◌, ltb, leb, if◌then◌else◌,
}
use pg_que.Base.Texts.{show}
use pg_que.Base.Selections.{select}
use pg_que.Exec.{ok, Exec}
use pg_que.Server.Tables.{Db, Queue, Tick, Sequence, find, next_value, drawn, drawn_to, put}
use pg_que.Server.Batches.{raise_exception}

unfoldable pub ticks_of : ℕ → List Tick → List Tick
ticks_of queue ticks = select (λ t. t.tick_queue == queue) ticks

abbrev pub newer : Tick → Option Tick → Tick
newer t none = t
newer t (some u) = if ltb t.tick_id u.tick_id then u else t

-- `order by tick_id desc limit 1`
unfoldable pub newest : List Tick → Option Tick
newest [] = none
newest (t ∷ ts) = some (newer t (newest ts))

-- The tick before another.
abbrev pub newest_before : Tick → List Tick → Option Tick
newest_before t ticks = newest (select (λ u. ltb u.tick_id t.tick_id) ticks)

-- Is it too soon for a tick after `last`, where `before` is the one before that?
unfoldable pub is_too_soon : Queue → Tick → Option Tick → ℕ → ℕ → Bool
is_too_soon q last before event_seq now =
    if ltb last.tick_event_seq event_seq
    then ltb event_seq (last.tick_event_seq + q.queue_ticker_max_count)
      && ltb now (last.tick_time + q.queue_ticker_max_lag)
    else elim before [
      | none ↦ false
      | some t ↦
          ltb (2 * now) (2 * last.tick_time + q.queue_ticker_max_lag)
          || (ltb (now + 2 * t.tick_time) (3 * last.tick_time)
              && ltb now (last.tick_time + q.queue_ticker_idle_period))
    ]

-- `pg_notify`, of the channel of a queue
abbrev pub notify : String → ℕ → Db → Db
notify queue_name id db = record db { notified = ("pgque_" <> queue_name, show id) ∷ db.notified }

abbrev pub insert_tick : Tick → Db → Db
insert_tick t db = record db { ticks = t ∷ db.ticks }

-- The last part of `ticker`: a tick is inserted, with the next number.
unfoldable pub new_tick : Queue → Db → Db
new_tick q db =
    let id = next_value (db.tick_seq q.queue_id) in
    notify q.queue_name id (
      insert_tick
        (record {
          tick_queue = q.queue_id;
          tick_id = id;
          tick_time = db.now;
          tick_snapshot = db.snapshot;
          tick_event_seq = (db.event_seq q.queue_id).last_value;
        })
        (record db { tick_seq = put q.queue_id (drawn (db.tick_seq q.queue_id)) db.tick_seq }))

abbrev pub queue_named : Db → String → Option Queue
queue_named db queue_name = find (λ q. str_eq q.queue_name queue_name) db.queues

-- What `ticker` does after `last`.
unfoldable pub tick_after : Queue → Tick → Exec Db (Option ℕ)
tick_after q last db =
    if ltb db.xid last.tick_snapshot.xmin
    then raise_exception
        ("Invalid PgQ state: old xmin="
          <> show last.tick_snapshot.xmin
          <> ", old xmax="
          <> show last.tick_snapshot.xmax
          <> ", cur txid="
          <> show db.xid)
        db
    else if is_too_soon q last (newest_before last (ticks_of q.queue_id db.ticks))
        (db.event_seq q.queue_id).last_value db.now
    then (ok none, db)
    else (ok (some (next_value (db.tick_seq q.queue_id))), new_tick q db)

-- `ticker` of one queue
unfoldable pub ticker : String → Exec Db (Option ℕ)
ticker queue_name db = elim (queue_named db queue_name) [
  | none ↦ raise_exception "no such queue" db
  | some q ↦
      if q.queue_external_ticker
      then raise_exception "This queue has external tick source." db
      else if q.queue_ticker_paused
      then raise_exception "Ticker has been paused for this queue" db
      else elim (newest (ticks_of q.queue_id db.ticks)) [
        | none ↦ (ok (some (next_value (db.tick_seq q.queue_id))), new_tick q db)
        | some last ↦ tick_after q last db
      ]
]

-- `seq_setval`
abbrev pub raised_to : ℕ → Sequence → Sequence
raised_to n s = if ltb s.last_value n then drawn_to n else s

-- The two last checks of the external ticker, against the newest tick.
unfoldable pub is_stale : Option Tick → ℕ → Bool
is_stale none id = leb id 0
is_stale (some t) id = leb id t.tick_id

unfoldable pub is_back : Option Tick → ℕ → Bool
is_back none event_seq = false
is_back (some t) event_seq = ltb event_seq t.tick_event_seq

abbrev pub or_zero : Option Tick → ℕ
or_zero none = 0
or_zero (some t) = t.tick_id

abbrev pub seq_or_zero : Option Tick → ℕ
seq_or_zero none = 0
seq_or_zero (some t) = t.tick_event_seq

-- The tick of an external source, and the sequences after it.
unfoldable pub external_tick : Queue → ℕ → ℕ → ℕ → Db → Db
external_tick q id timestamp event_seq db = notify q.queue_name id (
    insert_tick
      (record {
        tick_queue = q.queue_id;
        tick_id = id;
        tick_time = timestamp;
        tick_snapshot = db.snapshot;
        tick_event_seq = event_seq;
      })
      (record db {
        tick_seq = put q.queue_id (raised_to id (db.tick_seq q.queue_id)) db.tick_seq;
        event_seq = put q.queue_id (raised_to event_seq (db.event_seq q.queue_id)) db.event_seq;
      }))

-- `ticker` of four parameters
unfoldable pub ticker_external : String → ℕ → ℕ → ℕ → Exec Db ℕ
ticker_external queue_name id timestamp event_seq db = elim (queue_named db queue_name) [
  | none ↦ raise_exception ("queue not found: " <> queue_name) db
  | some q ↦
      let last = newest (ticks_of q.queue_id db.ticks) in
      if q.queue_ticker_paused
      then raise_exception ("queue " <> queue_name <> " is paused (queue_ticker_paused = true)") db
      else if not q.queue_external_ticker
      then raise_exception
          ("queue " <> queue_name
            <> " is not configured for external ticker (queue_external_ticker = false); use pgque.ticker(queue) instead")
          db
      else if is_stale last id
      then raise_exception
          ("external ticker tick_id must be strictly greater than current max ("
            <> show id
            <> " <= "
            <> show (or_zero last)
            <> ")")
          db
      else if is_back last event_seq
      then raise_exception
          ("external ticker event_seq must be >= previous tick ("
            <> show event_seq
            <> " < "
            <> show (seq_or_zero last)
            <> ")")
          db
      else (ok id, external_tick q id timestamp event_seq db)
]

-- The sequence of events, moved on past what makes a tick due.
unfoldable pub push_events : Queue → Db → Db
push_events q db = record db {
  event_seq =
      put q.queue_id
        (drawn_to (next_value (db.event_seq q.queue_id) + (q.queue_ticker_max_count * 2 + 1000)))
        db.event_seq;
}

abbrev pub id_of : Option Tick → Option ℕ
id_of none = none
id_of (some t) = some t.tick_id

-- `force_tick`, which gives the newest tick there was.
unfoldable pub force_tick : String → Exec Db (Option ℕ)
force_tick queue_name db = elim (queue_named db queue_name) [
  | none ↦ raise_exception ("queue not found: " <> queue_name) db
  | some q ↦
      if q.queue_ticker_paused
      then raise_exception ("queue " <> queue_name <> " is paused (queue_ticker_paused = true)") db
      else if q.queue_external_ticker
      then raise_exception
          ("queue " <> queue_name
            <> " is configured for external ticker; force_tick is meaningless — push ticks via pgque.ticker(queue, tick_id, ts, event_seq)")
          db
      else (ok (id_of (newest (ticks_of q.queue_id db.ticks))), push_events q db)
]
