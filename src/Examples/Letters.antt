-- ===== src/Examples/Letters.antt =====
-- The replay of dead letters at the server of Examples/Servers.
use pg_que.Base.{ℕ, ◌≡◌, refl, true, none, some, List, [], ◌∷◌, length, map, if◌then◌else◌}
use pg_que.Base.Selections.{select}
use pg_que.Exec.{ok}
use pg_que.Server.BatchSql.{Event}
use pg_que.Server.Tables.{Db, DeadLetter, Queue, find, exists}
use pg_que.Server.DeadLetters.{has_dl_id, of_queue, dlq_replay_all}
use pg_que.Server.DeadLetters.Replayed.{
  content, reverse_onto, error_of, dlq_replay_all_returns, dlq_replay_all_fails,
}
use pg_que.Examples.Servers.{db, orders}

abbrev dead_event : ℕ → Event
dead_event id = record {
  ev_id = id;
  ev_time = 50;
  ev_txid = 9;
  ev_owner = none;
  ev_retry = some 5;
  ev_type = some "order";
  ev_data = some "{}";
  ev_extra1 = none;
  ev_extra2 = none;
  ev_extra3 = none;
  ev_extra4 = none;
}

abbrev letter : ℕ → ℕ → DeadLetter
letter id queue = record {
  dl_id = id;
  dl_queue_id = queue;
  dl_consumer_id = 1;
  dl_time = 700;
  dl_reason = "max retries exceeded";
  dl_event = dead_event id;
}

-- Two of the queue, and one of another.
abbrev dead : List DeadLetter
dead = letter 3 1 ∷ letter 2 2 ∷ letter 1 1 ∷ []

abbrev dead_db : Db
dead_db = record db { dead_letter = dead }

abbrev closed : Queue
closed = record orders { queue_disable_insert = true }

abbrev closed_db : Db
closed_db = record dead_db { queues = closed ∷ [] }

dlq_replay_all_returns_example :
    (db' : Db) × (dlq_replay_all "orders" dead_db ≡ (
      ok (record {
        replayed = length (select (of_queue dead_db "orders") dead);
        failed = 0;
        first_error = none;
      }),
      db',
    ))
    × ((id : ℕ)
        → find (has_dl_id id) db'.dead_letter ≡ (
            if exists (has_dl_id id) (select (of_queue dead_db "orders") dead)
            then none
            else find (has_dl_id id) dead))
    × (map content (db'.events 1)
        ≡ reverse_onto
            (map (λ d. content d.dl_event) (select (of_queue dead_db "orders") dead))
            (map content (db.events 1)))
dlq_replay_all_returns_example = dlq_replay_all_returns "orders" orders dead_db refl refl

dlq_replay_all_fails_example :
    (db' : Db) × (dlq_replay_all "orders" closed_db ≡ (
      ok (record {
        replayed = 0;
        failed = length (select (of_queue closed_db "orders") dead);
        first_error = error_of "orders" closed (select (of_queue closed_db "orders") dead) none;
      }),
      db',
    ))
    × (db'.dead_letter ≡ dead)
    × (db'.events ≡ db.events)
dlq_replay_all_fails_example = dlq_replay_all_fails "orders" closed closed_db refl refl
