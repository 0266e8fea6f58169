-- ===== src/Server/Nack.antt =====
-- `nack` of sql/pgque.sql, with `event_retry` and `event_dead`.
pub mod Traced
pub mod Parked
pub mod Limits
use Prim.Native.String.{◌++◌ as ◌<>◌}
use pg_que.Base.{
  ℕ, ◌+◌, String, Bool, true, false, Option, none, some, List, [], ◌∷◌, ◌&&◌, ◌==◌, leb,
  if◌then◌else◌,
}
use pg_que.Base.Texts.{show}
use pg_que.Base.Selections.{select}
use pg_que.Exec.{Result, ok, err, Exec, pure, raise, lift, ◌>>=◌, ◌>>◌}
use pg_que.Server.BatchSql.{Event}
use pg_que.Server.Tables.{
  Db, Subscription, Retry, DeadLetter, is_main, is_member, find, exists, holder,
}
use pg_que.Server.Batches.{get_batch_events, raise_exception}

-- `coalesce`
abbrev pub or_else {ℓ} : {A : Type ℓ} → Option A → A → A
or_else none d = d
or_else (some a) d = a

-- The row that `event_retry` inserts for an event of a batch.
abbrev pub retry_row : ℕ → Subscription → Event → Retry
retry_row retry_time s ev = record {
  ev_retry_after = retry_time;
  ev_queue = s.sub_queue;
  ev_id = ev.ev_id;
  ev_time = ev.ev_time;
  ev_owner = s.sub_id;
  ev_retry = or_else ev.ev_retry 0 + 1;
  ev_type = ev.ev_type;
  ev_data = ev.ev_data;
  ev_extra1 = ev.ev_extra1;
  ev_extra2 = ev.ev_extra2;
  ev_extra3 = ev.ev_extra3;
  ev_extra4 = ev.ev_extra4;
}

-- The primary key of the retry queue.
abbrev pub is_retry : ℕ → ℕ → Retry → Bool
is_retry owner id r = r.ev_owner == owner && r.ev_id == id

-- The insertion of rows: none is inserted if one violates the primary key.
unfoldable pub insert_retries : ℕ → Subscription → List Event → List Retry → Option (List Retry)
insert_retries retry_time s [] rs = some rs
insert_retries retry_time s (ev ∷ evs) rs =
    let rest = insert_retries retry_time s evs (retry_row retry_time s ev ∷ rs) in
    if exists (is_retry s.sub_id ev.ev_id) rs then none else rest

-- From the rows that the query of `event_retry` has found; a violation of the key gives 0.
unfoldable pub retry_rows : ℕ → Subscription → List Event → Exec Db ℕ
retry_rows retry_time s [] db = raise_exception "event not found" db
retry_rows retry_time s (ev ∷ evs) db =
    elim (insert_retries retry_time s (ev ∷ evs) db.retry_queue) [
      | none ↦ (ok 0, db)
      | some rs ↦ (ok 1, record db { retry_queue = rs })
    ]

unfoldable pub event_retry : ℕ → ℕ → ℕ → Exec Db ℕ
event_retry batch_id event_id retry_seconds db = elim (holder db batch_id) [
  | none ↦ raise_exception "batch not found" db
  | some s ↦
      (do
        evs ← get_batch_events batch_id
        retry_rows (db.now + retry_seconds) s (select (λ ev. ev.ev_id == event_id) evs))
        db
]

-- The consumer of a subscription in the dead letters: that of the main row, for a member.
unfoldable pub dead_consumer : Db → Subscription → ℕ
dead_consumer db s =
    if is_member s.sub_role
    then elim (find
        (λ m. m.sub_id == s.sub_id && (m.sub_queue == s.sub_queue && is_main m.sub_role))
        db.subscriptions) [ none ↦ s.sub_consumer | some m ↦ m.sub_consumer ]
    else s.sub_consumer

-- The unique index of the dead letters.
abbrev pub is_dead : ℕ → ℕ → ℕ → DeadLetter → Bool
is_dead queue consumer id d =
    d.dl_queue_id == queue && (d.dl_consumer_id == consumer && d.dl_event.ev_id == id)

-- `event_dead`, of which `ev` carries the columns. An id is drawn for the row whether it is inserted
-- or not.
unfoldable pub event_dead : ℕ → Event → String → Exec Db ℕ
event_dead batch_id ev reason db = elim (holder db batch_id) [
  | none ↦ raise_exception ("batch not found: " <> show batch_id) db
  | some s ↦
      let consumer = dead_consumer db s in
      (
        ok 1,
        record db {
          dl_id_seq = db.dl_id_seq + 1;
          dead_letter =
              if exists (is_dead s.sub_queue consumer ev.ev_id) db.dead_letter
              then db.dead_letter
              else record {
                dl_id = db.dl_id_seq + 1;
                dl_queue_id = s.sub_queue;
                dl_consumer_id = consumer;
                dl_time = db.now;
                dl_reason = reason;
                dl_event = record ev { ev_owner = none };
              }
                ∷ db.dead_letter;
        },
      )
]

-- `coalesce(q.queue_max_retries, 5)` for a queue
unfoldable pub max_retries : Db → ℕ → Option ℕ
max_retries db queue = elim (find (λ q. q.queue_id == queue) db.queues) [
  | none ↦ none
  | some q ↦ some (or_else q.queue_max_retries 5)
]

-- The last part of `nack`, with the event as the queue has it.
unfoldable pub settle : ℕ → Event → ℕ → Option String → ℕ → Exec Db ℕ
settle batch_id ev retry_after reason limit =
    if leb limit (or_else ev.ev_retry 0)
    then event_dead batch_id ev (or_else reason "max retries exceeded") >> pure 1
    else event_retry batch_id ev.ev_id retry_after >> pure 1

unfoldable pub limit_of : Db → ℕ → Option ℕ
limit_of db batch_id = elim (holder db batch_id) [
  | none ↦ none
  | some s ↦ max_retries db s.sub_queue
]

-- `nack`, of whose message the number alone is read.
unfoldable pub nack : ℕ → ℕ → ℕ → Option String → Exec Db ℕ
nack batch_id msg_id retry_after reason db = elim (limit_of db batch_id) [
  | none ↦ raise_exception ("batch not found: " <> show batch_id) db
  | some limit ↦
      (do
        evs ← get_batch_events batch_id
        elim (find (λ ev. ev.ev_id == msg_id) evs) [
          | none ↦
              raise_exception ("msg_id " <> show msg_id <> " not found in batch " <> show batch_id)
          | some ev ↦ settle batch_id ev retry_after reason limit
        ])
        db
]
