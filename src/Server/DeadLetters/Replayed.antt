-- ===== src/Server/DeadLetters/Replayed.antt =====
-- What `dlq_replay_all` of sql/pgque.sql does, where inserts into the queue are allowed and where
-- they are not.
use pg_que.Base.{
  ℕ, ◌+◌, ◌≡◌, refl, ap, ◌∙◌, String, Bool, true, false, Option, none, some, List, [], ◌∷◌, ◌&&◌,
  not, ◌==◌, ◌||◌, length, map, Bool-cases, inl, inr, if◌then◌else◌, arith,
}
use pg_que.Base.Selections.{select}
use pg_que.Exec.{Result, ok, err}
use pg_que.Server.BatchSql.{Event}
use pg_que.Server.Tables.{Db, Queue, DeadLetter, find, exists, next_value}
use pg_que.Server.Tables.Updates.{put_self}
use pg_que.Server.Batches.{exception}
use pg_que.Server.Nack.{or_else}
use pg_que.Server.Events.{insert_event_raw, insert_event, event_row, numbered, inserted}
use pg_que.Server.Ticks.{queue_named}
use pg_que.Server.Registration.{delete}
use pg_que.Server.Steps.Published.{new_event}
use pg_que.Server.DeadLetters.{
  has_dl_id, delete_letter, insert_again, of_queue, Replay, failure, replay_rows, nothing_replayed,
  dlq_replay_all,
}

-- What a producer gave for an event.
abbrev pub content : Event → List (Option String)
content ev =
    ev.ev_type ∷ ev.ev_data ∷ ev.ev_extra1 ∷ ev.ev_extra2 ∷ ev.ev_extra3 ∷ ev.ev_extra4 ∷ []

-- The elements of a list before those of another, the last of them first.
unfoldable pub reverse_onto {ℓ} : {A : Type ℓ} → List A → List A → List A
reverse_onto [] ys = ys
reverse_onto (x ∷ xs) ys = reverse_onto xs (x ∷ ys)

-- Inserts into a queue are refused.
abbrev pub is_refused : Db → Queue → Bool
is_refused db q = q.queue_disable_insert && not db.is_replica

find-delete :
    (id other : ℕ) (ds : List DeadLetter)
    → find (has_dl_id id) (delete (has_dl_id other) ds)
      ≡ (if other == id then none else find (has_dl_id id) ds)
unfolding select
find-delete id other [] = elim (Bool-cases (other == id)) [
  | inl same ↦ rw same refl
  | inr apart ↦ rw apart refl
]
find-delete id other (d ∷ ds) = elim (Bool-cases (d.dl_id == other)) [
  | inl gone ↦
      rw (gone, find-delete id other ds)
        (elim (Bool-cases (other == id)) [
          | inl same ↦ rw same refl
          | inr apart ↦ rw (apart, differs d.dl_id other id gone apart) refl
        ])
  | inr stays ↦
      rw (stays, find-delete id other ds)
        (elim (Bool-cases (other == id)) [
          | inl same ↦ rw (same, misses d.dl_id other id stays same) refl
          | inr apart ↦ rw apart refl
        ])
]
  where
    differs : (a b c : ℕ) → (a == b) ≡ true → (b == c) ≡ false → (a == c) ≡ false
    differs a b c h k = ground arith

    misses : (a b c : ℕ) → (a == b) ≡ false → (b == c) ≡ true → (a == c) ≡ false
    misses a b c h k = ground arith

module _ (queue : String) (q : Queue) where
  -- The event of a dead letter as it is inserted.
  abbrev pub again : Db → Event → Event
  again db ev =
      event_row db.xid (next_value (db.event_seq q.queue_id))
        (new_event db.now ev.ev_type ev.ev_data ev.ev_extra1 ev.ev_extra2 ev.ev_extra3 ev.ev_extra4)

  -- The tables after the replay of dead letters.
  unfoldable moved : List DeadLetter → Db → Db
  moved [] db = db
  moved (d ∷ ds) db =
      moved ds (delete_letter d.dl_id (inserted q (again db d.dl_event) (numbered q db)))

  -- The tables after refusals, each of which draws a number.
  unfoldable refused_all : List DeadLetter → Db → Db
  refused_all [] db = db
  refused_all (d ∷ ds) db = refused_all ds (numbered q db)

  insert_again_returns :
      (db : Db) (ev : Event)
      → queue_named db queue ≡ some q
      → is_refused db q ≡ false
      → insert_again queue ev db
        ≡ (ok (next_value (db.event_seq q.queue_id)), inserted q (again db ev) (numbered q db))
  unfolding insert_event insert_event_raw
  insert_again_returns db ev there allowed = rw (there, insert_event_raw) (rw allowed refl)

  insert_again_raises :
      (db : Db) (ev : Event)
      → queue_named db queue ≡ some q
      → is_refused db q ≡ true
      → insert_again queue ev db
        ≡ (err (exception "Insert into queue disallowed" "P0001" none), numbered q db)
  unfolding insert_event insert_event_raw
  insert_again_raises db ev there refused = rw (there, insert_event_raw) (rw refused refl)

  replay_rows_moves :
      (ds : List DeadLetter) (r : Replay) (db : Db)
      → queue_named db queue ≡ some q
      → is_refused db q ≡ false
      → replay_rows queue ds r db ≡ (record r { replayed = length ds + r.replayed }, moved ds db)
  unfolding replay_rows moved
  replay_rows_moves [] r db there allowed = ap (λ n. (record r { replayed = n }, db)) (omega arith)
  replay_rows_moves (d ∷ ds) r db there allowed =
      rw (insert_again_returns db d.dl_event there allowed) (
        replay_rows_moves ds (record r { replayed = r.replayed + 1 }) _ there allowed
        ∙ ap (λ n. (record r { replayed = n }, moved (d ∷ ds) db)) (omega arith))

  moved-find :
      (ds : List DeadLetter) (db : Db) (id : ℕ)
      → find (has_dl_id id) (moved ds db).dead_letter
        ≡ (if exists (has_dl_id id) ds then none else find (has_dl_id id) db.dead_letter)
  unfolding moved
  moved-find [] db id = refl
  moved-find (d ∷ ds) db id =
      moved-find ds _ id
      ∙ ap (λ o. if exists (has_dl_id id) ds then none else o)
          (find-delete id d.dl_id db.dead_letter)
      ∙ both (d.dl_id == id) (exists (has_dl_id id) ds) _
    where
      both :
          (a b : Bool) (o : Option DeadLetter)
          → (if b then none else (if a then none else o)) ≡ (if a || b then none else o)
      both true true o = refl
      both true false o = refl
      both false true o = refl
      both false false o = refl

  moved-content :
      (ds : List DeadLetter) (db : Db)
      → map content ((moved ds db).events q.queue_id)
        ≡ reverse_onto (map (λ d. content d.dl_event) ds) (map content (db.events q.queue_id))
  unfolding moved reverse_onto
  moved-content [] db = refl
  moved-content (d ∷ ds) db =
      moved-content ds _
      ∙ ap (λ evs. reverse_onto (map (λ (x : DeadLetter). content x.dl_event) ds) (map content evs))
          (put_self q.queue_id _ db.events)

  -- The error of the first row, or one from before.
  abbrev pub error_of : List DeadLetter → Option String → Option String
  error_of [] before = before
  error_of (d ∷ ds) before =
      some (or_else before (failure d (exception "Insert into queue disallowed" "P0001" none)))

  error_stays : (ds : List DeadLetter) (text : String) → error_of ds (some text) ≡ some text
  error_stays [] text = refl
  error_stays (d ∷ ds) text = refl

  replay_rows_fails :
      (ds : List DeadLetter) (r : Replay) (db : Db)
      → queue_named db queue ≡ some q
      → is_refused db q ≡ true
      → replay_rows queue ds r db ≡ (
        record r { failed = length ds + r.failed; first_error = error_of ds r.first_error },
        refused_all ds db,
      )
  unfolding replay_rows refused_all
  replay_rows_fails [] r db there refused = ap (λ n. (record r { failed = n }, db)) (omega arith)
  replay_rows_fails (d ∷ ds) r db there refused =
      rw (insert_again_raises db d.dl_event there refused) (
        replay_rows_fails ds _ (numbered q db) there refused
        ∙ ap
            (λ n. (
              record r { failed = n; first_error = error_of ds (error_of (d ∷ ds) r.first_error) },
              refused_all (d ∷ ds) db,
            ))
            (omega arith)
        ∙ ap
            (λ o. (
              record r { failed = length (d ∷ ds) + r.failed; first_error = o },
              refused_all (d ∷ ds) db,
            ))
            (error_stays ds _))

  refused_all-dead_letter :
      (ds : List DeadLetter) (db : Db) → (refused_all ds db).dead_letter ≡ db.dead_letter
  unfolding refused_all
  refused_all-dead_letter [] db = refl
  refused_all-dead_letter (d ∷ ds) db = refused_all-dead_letter ds (numbered q db)

  refused_all-events : (ds : List DeadLetter) (db : Db) → (refused_all ds db).events ≡ db.events
  unfolding refused_all
  refused_all-events [] db = refl
  refused_all-events (d ∷ ds) db = refused_all-events ds (numbered q db)

  module _ (db : Db) (there : queue_named db queue ≡ some q) where
    abbrev pub letters : List DeadLetter
    letters = select (of_queue db queue) db.dead_letter

    -- Where inserts into a queue are allowed, `dlq_replay_all` replays all of its dead letters: it
    -- returns their number and no failure, the events of the queue are followed by theirs, in their
    -- order and with what their producers gave, and these rows have gone from the dead letters, while
    -- each other row is still there.
    pub dlq_replay_all_returns :
        is_refused db q ≡ false
        → (db' : Db) × (dlq_replay_all queue db
            ≡ (ok (record { replayed = length letters; failed = 0; first_error = none }), db'))
          × ((id : ℕ)
              → find (has_dl_id id) db'.dead_letter ≡ (
                  if exists (has_dl_id id) letters
                  then none
                  else find (has_dl_id id) db.dead_letter))
          × (map content (db'.events q.queue_id)
              ≡ reverse_onto
                  (map (λ d. content d.dl_event) letters)
                  (map content (db.events q.queue_id)))
    unfolding dlq_replay_all
    dlq_replay_all_returns allowed = (
      moved letters db,
      ap (λ (x : Replay × Db). (Result.ok x.0, x.1))
            (replay_rows_moves letters nothing_replayed db there allowed)
          ∙ ap
              (λ n. (
                Result.ok (record { replayed = n; failed = 0; first_error = none }),
                moved letters db,
              ))
              (omega arith),
      moved-find letters db,
      moved-content letters db,
    )

    -- Where inserts into a queue are refused, `dlq_replay_all` returns nevertheless: it counts each
    -- of the queue's dead letters as failed, gives the error of the first of them, and changes
    -- neither the dead letters nor the events.
    pub dlq_replay_all_fails :
        is_refused db q ≡ true
        → (db' : Db) × (dlq_replay_all queue db ≡ (
          ok (record {
            replayed = 0;
            failed = length letters;
            first_error = error_of letters none;
          }),
          db',
        ))
          × (db'.dead_letter ≡ db.dead_letter)
          × (db'.events ≡ db.events)
    unfolding dlq_replay_all
    dlq_replay_all_fails refused = (
      refused_all letters db,
      ap (λ (x : Replay × Db). (Result.ok x.0, x.1))
            (replay_rows_fails letters nothing_replayed db there refused)
          ∙ ap
              (λ n. (
                Result.ok
                    (record { replayed = 0; failed = n; first_error = error_of letters none }),
                refused_all letters db,
              ))
              (omega arith),
      refused_all-dead_letter letters db,
      refused_all-events letters db,
    )
