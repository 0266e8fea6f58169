-- ===== src/Server/Steps/Letters.antt =====
-- Replaying and purging dead letters keeps the tables of sql/pgque.sql valid.
use pg_que.Base.{ℕ, ◌==◌, String, List, [], ◌∷◌, Option-cases, inl, inr}
use pg_que.Base.Selections.{select}
use pg_que.Exec.{Result, ok, err}
use pg_que.Server.BatchSql.{Event}
use pg_que.Server.Tables.{Db, DeadLetter, find}
use pg_que.Server.Events.{insert_event}
use pg_que.Server.Ticks.{queue_named}
use pg_que.Server.DeadLetters.{
  has_dl_id, delete_letter, insert_again, dlq_replay, of_queue, Replay, replay_end, replay_rows,
  nothing_replayed, dlq_replay_all, dlq_purge,
}
use pg_que.Server.Steps.Valid.{IsValid, others-IsValid}
use pg_que.Server.Steps.Ticked.{insert_event_raw-IsValid}
use pg_que.Server.Steps.Retried.{follow-IsValid}

insert_again-IsValid :
    {base : Db} (queue : String) (ev : Event) (db : Db)
    → IsValid base db
    → IsValid base (insert_again queue ev db).1
unfolding insert_event
insert_again-IsValid queue ev db v = insert_event_raw-IsValid queue db v _

delete_letter-IsValid :
    {base : Db} (id : ℕ) (db : Db) → IsValid base db → IsValid base (delete_letter id db)
delete_letter-IsValid id db v = others-IsValid db v _ _ _ _ _ _

pub dlq_replay-IsValid :
    {base : Db} (db : Db) → IsValid base db → (id : ℕ) → IsValid base (dlq_replay id db).1
unfolding dlq_replay
dlq_replay-IsValid db v id = elim (Option-cases (find (has_dl_id id) db.dead_letter)) [
  | inl missing ↦ rw (missing, dlq_replay) v
  | inr (d, found) ↦ elim (Option-cases (find (λ q. q.queue_id == d.dl_queue_id) db.queues)) [
    | inl gone ↦ rw (found, dlq_replay) (rw gone v)
    | inr (q, there) ↦
        let w = insert_again-IsValid q.queue_name d.dl_event db v in
        rw (found, dlq_replay)
          (rw there (
            follow-IsValid _ (insert_again q.queue_name d.dl_event db).0
              (insert_again q.queue_name d.dl_event db).1 w
              (λ new_id. delete_letter-IsValid id _ w)))
  ]
]

replay_end-IsValid :
    {base : Db} (d : DeadLetter) (r : Replay) (x : Result ℕ × Db)
    → IsValid base x.1
    → IsValid base (replay_end d r x).1
replay_end-IsValid d r (ok id, db) v = delete_letter-IsValid d.dl_id db v
replay_end-IsValid d r (err e, db) v = v

replay_rows-IsValid :
    {base : Db} (queue : String) (ds : List DeadLetter) (r : Replay) (db : Db)
    → IsValid base db
    → IsValid base (replay_rows queue ds r db).1
unfolding replay_rows
replay_rows-IsValid queue [] r db v = v
replay_rows-IsValid queue (d ∷ ds) r db v =
    replay_rows-IsValid queue ds _ _
      (replay_end-IsValid d r _ (insert_again-IsValid queue d.dl_event db v))

pub dlq_replay_all-IsValid :
    {base : Db} (db : Db)
    → IsValid base db
    → (queue : String) → IsValid base (dlq_replay_all queue db).1
unfolding dlq_replay_all
dlq_replay_all-IsValid db v queue =
    replay_rows-IsValid queue (select (of_queue db queue) db.dead_letter) nothing_replayed db v

pub dlq_purge-IsValid :
    {base : Db} (db : Db)
    → IsValid base db
    → (queue : String) (older_than : ℕ) → IsValid base (dlq_purge queue older_than db).1
unfolding dlq_purge
dlq_purge-IsValid db v queue older_than = elim (Option-cases (queue_named db queue)) [
  | inl missing ↦ rw (missing, dlq_purge) v
  | inr (q, there) ↦ rw (there, dlq_purge) (others-IsValid db v _ _ _ _ _ _)
]
