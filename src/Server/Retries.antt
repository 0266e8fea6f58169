-- ===== src/Server/Retries.antt =====
-- `maint_retry_events` of sql/pgque.sql, which moves due rows of the retry queue back into their
-- queues. A raise leaves the changes of the rounds before it, which the end of its transaction undoes.
pub mod Returned
pub mod Kept
pub mod Allowed
use Prim.Native.String.{◌++◌ as ◌<>◌}
use pg_que.Base.{
  ℕ, ◌+◌, String, Bool, true, false, Option, none, some, List, [], ◌∷◌, ◌++◌, ◌&&◌, not, str_eq,
  ◌==◌, leb, take, if◌then◌else◌,
}
use pg_que.Base.Selections.{select, order_by}
use pg_que.Exec.{Result, ok, err, Exec, pure, raise, ◌>>=◌, ◌>>◌}
use pg_que.Server.Events.{NewEvent, insert_event_raw}
use pg_que.Server.Tables.{Db, Queue, Retry, find, exists}
use pg_que.Server.Batches.{raise_exception}
use pg_que.Server.Nack.{is_retry}

-- The arguments of `insert_event_raw` for a row of the retry queue.
abbrev pub returned_event : Retry → NewEvent
returned_event r = record {
  ev_id = some r.ev_id;
  ev_time = r.ev_time;
  ev_owner = some r.ev_owner;
  ev_retry = some r.ev_retry;
  ev_type = r.ev_type;
  ev_data = r.ev_data;
  ev_extra1 = r.ev_extra1;
  ev_extra2 = r.ev_extra2;
  ev_extra3 = r.ev_extra3;
  ev_extra4 = r.ev_extra4;
}

-- The queue of a row.
unfoldable pub queue_of : Db → Retry → Option Queue
queue_of db r = find (λ q. q.queue_id == r.ev_queue) db.queues

abbrev pub is_found {ℓ} : {A : Type ℓ} → Option A → Bool
is_found none = false
is_found (some a) = true

-- The rows that the loop goes over.
unfoldable pub due : Db → List Retry
due db = take 10 (
    order_by (λ r. r.ev_retry_after)
      (select (λ r. leb r.ev_retry_after db.now && is_found (queue_of db r)) db.retry_queue))

-- `delete from pgque.retry_queue where ...`
abbrev pub remove : Retry → Db → Db
remove r db = record db {
  retry_queue = select (λ x. not (is_retry r.ev_owner r.ev_id x)) db.retry_queue;
}

-- One round of the loop.
unfoldable pub return_one : Retry → Exec Db Unit
return_one r db = elim (queue_of db r) [
  | none ↦ (ok tt, db)
  | some q ↦ (do insert_event_raw q.queue_name (returned_event r); λ db. (ok tt, remove r db)) db
]

-- The loop, with `cnt` rows moved so far.
unfoldable pub return_all : ℕ → List Retry → Exec Db ℕ
return_all cnt [] = pure cnt
return_all cnt (r ∷ rs) = do return_one r; return_all (cnt + 1) rs

unfoldable pub maint_retry_events : Exec Db ℕ
maint_retry_events db = return_all 0 (due db) db
