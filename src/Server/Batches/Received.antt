-- ===== src/Server/Batches/Received.antt =====
-- What `receive` of sql/pgque.sql comes to: a refusal, no messages, or those of a batch that is open
-- from then on.
use Prim.Native.String.{◌++◌ as ◌<>◌}
use pg_que.Base.{
  ℕ, ◌+◌, ◌==◌, String, ◌≡◌, refl, Bool, true, false, Option, none, some, List, [], ◌∷◌, map, ltb,
  Option-cases, Bool-cases, inl, inr, if◌then◌else◌, ◌&&◌,
}
use pg_que.Base.Texts.{show}
use pg_que.Value.{Value}
use pg_que.Errors.{DbError, database}
use pg_que.Exec.{Result, ok, err, follow, pure, lift, ◌>>=◌, ◌>>◌}
use pg_que.Server.BatchSql.{Event}
use pg_que.Server.Tables.{
  Db, Subscription, Tick, Role, same_key, update, is_main, is_member, named, holder, tick_of,
  next_tick,
}
use pg_que.Server.Batches.{
  raise_exception, has_members, open_batch, next_batch_of, next_batch, batch_rows, get_batch_events,
  finished, cleared, finish_batch, message_row, overflow, yield_messages, receive_batch, receive,
}

pub data Opened (db : Db) (queue consumer : String) : Result (Option ℕ) × Db → Type 0 where
  refused : (text : String) → Opened db queue consumer (raise_exception text db)
  waiting : Opened db queue consumer (ok none, db)
  again :
      (s : Subscription) (batch_id : ℕ)
      → named db queue consumer ≡ some s
      → is_member s.sub_role ≡ false
      → s.sub_batch ≡ some batch_id
      → Opened db queue consumer (ok (some batch_id), db)
  fresh :
      (s : Subscription) (prev cur : Tick)
      → named db queue consumer ≡ some s
      → is_member s.sub_role ≡ false
      → s.sub_batch ≡ none
      → tick_of db s.sub_queue s.sub_last_tick ≡ some prev
      → next_tick db s.sub_queue prev.tick_id ≡ some cur
      → Opened db queue consumer (open_batch s cur db)

pub next_batch-Opened :
    (queue consumer : String) (db : Db) → Opened db queue consumer (next_batch queue consumer db)
unfolding next_batch next_batch_of
next_batch-Opened queue consumer db = elim (Option-cases (named db queue consumer)) [
  | inl nobody ↦ rw (nobody, next_batch) (refused _)
  | inr (s, is_named) ↦ elim (Bool-cases (is_main s.sub_role && has_members db s)) [
    | inl main ↦ rw (is_named, next_batch) (rw (main, next_batch_of) (refused _))
    | inr other ↦ elim (Bool-cases (is_member s.sub_role)) [
      | inl member ↦ rw (is_named, next_batch) (rw (other, member, next_batch_of) (refused _))
      | inr plain ↦ elim (Option-cases (tick_of db s.sub_queue s.sub_last_tick)) [
        | inl lost ↦ rw (is_named, next_batch) (rw (other, plain, lost, next_batch_of) (refused _))
        | inr (prev, last) ↦ elim (Option-cases s.sub_batch) [
          | inr (batch_id, active) ↦
              rw (is_named, next_batch)
                (rw (other, plain, last, next_batch_of)
                  (rw active (again s batch_id is_named plain active)))
          | inl free ↦ elim (Option-cases (next_tick db s.sub_queue prev.tick_id)) [
            | inl early ↦
                rw (is_named, next_batch)
                  (rw (other, plain, last, next_batch_of) (rw (free, early) waiting))
            | inr (cur, next) ↦
                rw (is_named, next_batch)
                  (rw (other, plain, last, next_batch_of)
                    (rw (free, next) (fresh s prev cur is_named plain free last next)))
          ]
        ]
      ]
    ]
  ]
]

-- The outcomes of `receive`.
pub data Received (db : Db) (queue consumer : String)
    : Result (List (List Value)) × Db → Type 0 where
  refused : (e : DbError) (db' : Db) → Received db queue consumer (err (database e), db')
  empty : (db' : Db) → Received db queue consumer (ok [], db')
  delivered :
      (batch_id : ℕ) (ev : Event) (evs : List Event) (db' : Db)
      → next_batch queue consumer db ≡ (ok (some batch_id), db')
      → batch_rows db' batch_id ≡ some (ev ∷ evs)
      → Received db queue consumer (ok (map (message_row batch_id) (ev ∷ evs)), db')

data Yielded (batch_id : ℕ) (evs : List Event) : Result (List (List Value)) → Type 0 where
  too_many : (n : ℕ) → Yielded batch_id evs (err (overflow n))
  all_of : Yielded batch_id evs (ok (map (message_row batch_id) evs))

yield_messages-Yielded :
    (batch_id max_return cnt : ℕ) (evs : List Event)
    → Yielded batch_id evs (yield_messages batch_id max_return cnt evs)
unfolding yield_messages
yield_messages-Yielded batch_id max_return cnt [] = all_of
yield_messages-Yielded batch_id max_return cnt (ev ∷ evs) =
    by_count (cnt == max_return) (yield_messages batch_id max_return (cnt + 1) evs)
      (yield_messages-Yielded batch_id max_return (cnt + 1) evs)
  where
    by_count :
        (b : Bool) (rest : Result (List (List Value)))
        → Yielded batch_id evs rest
        → Yielded batch_id (ev ∷ evs) (
            if b
            then err (overflow max_return)
            else elim rest [ err e ↦ err e | ok rows ↦ ok (message_row batch_id ev ∷ rows) ])
    by_count true rest y = too_many max_return
    by_count false _ (too_many n) = too_many n
    by_count false _ all_of = all_of

pub data Finished : Result ℕ × Db → Type 0 where
  unfinished : (text : String) (db' : Db) → Finished (raise_exception text db')
  closed : (n : ℕ) (db' : Db) → Finished (ok n, db')

pub finish_batch-Finished : (batch_id : ℕ) (db : Db) → Finished (finish_batch batch_id db)
unfolding finish_batch
finish_batch-Finished batch_id db = elim (Option-cases (holder db batch_id)) [
  | inl nobody ↦ rw (nobody, finish_batch) (closed 0 _)
  | inr (s, held) ↦ rw (held, finish_batch) (by_role s s.sub_role)
]
  where
    by_role :
        (s : Subscription) (r : Role)
        → Finished (elim r [
          | Role.coop_main ↦
              raise_exception
                ("cannot finish cooperative main consumer batch "
                  <> show batch_id
                  <> " as normal active consumer")
                db
          | Role.coop_member ↦ (
            ok 1,
            record db { subscriptions = update (same_key s) (cleared db.now) db.subscriptions },
          )
          | Role.normal ↦ (
            ok 1,
            record db { subscriptions = update (same_key s) (finished db.now) db.subscriptions },
          )
        ])
    by_role s Role.coop_main = unfinished _ _
    by_role s Role.coop_member = closed 1 _
    by_role s Role.normal = closed 1 _

module _ (db : Db) (queue consumer : String) (max_return : ℕ) where
  -- The end of `receive`, once the rows have been read.
  rows_back :
      (batch_id : ℕ) (db' : Db) (evs : List Event)
      → next_batch queue consumer db ≡ (ok (some batch_id), db')
      → batch_rows db' batch_id ≡ some evs
      → Received db queue consumer (
          (do
            rows ← lift (yield_messages batch_id max_return 0 evs)
            elim evs [ [] ↦ finish_batch batch_id >> pure rows | ev ∷ rest ↦ pure rows ])
            db')
  unfolding yield_messages
  rows_back batch_id db' [] opened rows = once_closed (finish_batch-Finished batch_id db')
    where
      once_closed :
          {r : Result ℕ × Db}
          → Finished r
          → Received db queue consumer (follow (λ n. pure []) r.0 r.1)
      once_closed (unfinished text t) = refused _ t
      once_closed (closed n t) = empty t
  rows_back batch_id db' (ev ∷ evs) opened rows =
      once_yielded (yield_messages-Yielded batch_id max_return 0 (ev ∷ evs))
    where
      once_yielded :
          {r : Result (List (List Value))}
          → Yielded batch_id (ev ∷ evs) r
          → Received db queue consumer (follow (λ rows. pure rows) r db')
      once_yielded (too_many n) = refused _ db'
      once_yielded all_of = delivered batch_id ev evs db' opened rows

  receive_batch-Received :
      (batch_id : ℕ) (db' : Db)
      → next_batch queue consumer db ≡ (ok (some batch_id), db')
      → Received db queue consumer (receive_batch batch_id max_return db')
  unfolding receive_batch get_batch_events
  receive_batch-Received batch_id db' opened = elim (Option-cases (batch_rows db' batch_id)) [
    | inl no_rows ↦ rw (receive_batch, get_batch_events, no_rows) (refused _ db')
    | inr (evs, rows) ↦
        rw (receive_batch, get_batch_events, rows) (rows_back batch_id db' evs opened rows)
  ]

  -- `receive` either is refused with an error of the server, or returns no rows, or returns all the
  -- rows of the batch that `next_batch` gives, and there are some.
  pub receive-Received : Received db queue consumer (receive queue consumer max_return db)
  unfolding receive open_batch
  receive-Received = elim (Bool-cases (ltb max_return 1)) [
    | inl bad ↦ rw (bad, receive) (refused _ _)
    | inr fine ↦ rw (fine, receive) (once_opened (next_batch-Opened queue consumer db) refl)
  ]
    where
      once_opened :
          {r : Result (Option ℕ) × Db}
          → Opened db queue consumer r
          → next_batch queue consumer db ≡ r
          → Received db queue consumer (
              follow
                (λ batch. elim batch [
                  | none ↦ pure []
                  | some batch_id ↦ receive_batch batch_id max_return
                ])
                r.0
                r.1)
      once_opened (refused text) e = refused _ db
      once_opened waiting e = empty db
      once_opened (again s batch_id is_named plain active) e = receive_batch-Received batch_id db e
      once_opened (fresh s prev cur is_named plain free last next) e = receive_batch-Received _ _ e
