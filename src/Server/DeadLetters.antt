-- ===== src/Server/DeadLetters.antt =====
-- The functions of sql/pgque.sql on dead letters: `dlq_replay`, `dlq_replay_all` and `dlq_purge`.
-- Their warnings are not modelled.
pub mod Replayed
use Prim.Native.String.{◌++◌ as ◌<>◌}
use pg_que.Base.{
  ℕ, ◌+◌, String, Bool, Option, none, some, List, [], ◌∷◌, ◌&&◌, str_eq, ◌==◌, ltb, length,
}
use pg_que.Base.Texts.{show}
use pg_que.Base.Selections.{select}
use pg_que.Errors.{Exn, database}
use pg_que.Exec.{Result, ok, err, Exec, ◌>>=◌}
use pg_que.Server.BatchSql.{Event}
use pg_que.Server.Tables.{Db, DeadLetter, find, exists}
use pg_que.Server.Batches.{raise_exception}
use pg_que.Server.Nack.{or_else}
use pg_que.Server.Events.{insert_event}
use pg_que.Server.Ticks.{queue_named}
use pg_que.Server.Registration.{delete}

-- `where dl_id = ...`, the primary key
abbrev pub has_dl_id : ℕ → DeadLetter → Bool
has_dl_id id d = d.dl_id == id

abbrev pub delete_letter : ℕ → Db → Db
delete_letter id db = record db { dead_letter = delete (has_dl_id id) db.dead_letter }

-- The event of a dead letter, as a new one.
abbrev pub insert_again : String → Event → Exec Db ℕ
insert_again queue ev =
    insert_event queue ev.ev_type ev.ev_data ev.ev_extra1 ev.ev_extra2 ev.ev_extra3 ev.ev_extra4

abbrev pub not_found : ℕ → Exec Db ℕ
not_found id = raise_exception ("dead letter entry not found: " <> show id)

-- `dlq_replay`
unfoldable pub dlq_replay : ℕ → Exec Db ℕ
dlq_replay id db = elim (find (has_dl_id id) db.dead_letter) [
  | none ↦ not_found id db
  | some d ↦ elim (find (λ q. q.queue_id == d.dl_queue_id) db.queues) [
    | none ↦ not_found id db
    | some q ↦
        (insert_again q.queue_name d.dl_event >>= λ new_id db'. (ok new_id, delete_letter id db'))
          db
  ]
]

-- The rows that the query of `dlq_replay_all` joins to a queue of the name.
abbrev pub of_queue : Db → String → DeadLetter → Bool
of_queue db queue d =
    exists (λ q. q.queue_id == d.dl_queue_id && str_eq q.queue_name queue) db.queues

-- What `dlq_replay_all` returns.
pub record Replay : Type 0 where
  pub replayed : ℕ
  pub failed : ℕ
  pub first_error : Option String

-- The message of a raise.
abbrev pub sqlerrm : Exn → String
sqlerrm (database e) = e.text
sqlerrm _ = ""

abbrev pub failure : DeadLetter → Exn → String
failure d e = "dl_id=" <> show d.dl_id <> ": " <> sqlerrm e

-- The rest of a round, by what the insertion came to. One that raises has only drawn a number, which
-- the end of the block does not give back.
abbrev pub replay_end : DeadLetter → Replay → Result ℕ × Db → Replay × Db
replay_end d r (ok id, db) = (record r { replayed = r.replayed + 1 }, delete_letter d.dl_id db)
replay_end d r (err e, db) = (
  record r { failed = r.failed + 1; first_error = some (or_else r.first_error (failure d e)) },
  db,
)

-- The loop.
unfoldable pub replay_rows : String → List DeadLetter → Replay → Db → Replay × Db
replay_rows queue [] r db = (r, db)
replay_rows queue (d ∷ ds) r db =
    let (r', db') = replay_end d r (insert_again queue d.dl_event db) in replay_rows queue ds r' db'

abbrev pub nothing_replayed : Replay
nothing_replayed = record { replayed = 0; failed = 0; first_error = none }

-- `dlq_replay_all`
unfoldable pub dlq_replay_all : String → Exec Db Replay
dlq_replay_all queue db =
    let (r, db') =
      replay_rows queue (select (of_queue db queue) db.dead_letter) nothing_replayed db in
    (ok r, db')

-- Of a queue, and older than an interval.
abbrev pub is_old : ℕ → ℕ → Db → DeadLetter → Bool
is_old queue older_than db d = d.dl_queue_id == queue && ltb (d.dl_time + older_than) db.now

-- `dlq_purge`
unfoldable pub dlq_purge : String → ℕ → Exec Db ℕ
dlq_purge queue older_than db = elim (queue_named db queue) [
  | none ↦ (ok 0, db)
  | some q ↦ (
    ok (length (select (is_old q.queue_id older_than db) db.dead_letter)),
    record db { dead_letter = delete (is_old q.queue_id older_than db) db.dead_letter },
  )
]
