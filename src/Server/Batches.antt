-- ===== src/Server/Batches.antt =====
-- The functions of sql/pgque.sql on batches: `next_batch` and what it calls, `get_batch_events`,
-- `finish_batch`, and of the API `receive` and `ack`. Each is an action on the tables.
pub mod Received
pub mod Next
pub mod Held
use Prim.Native.String.{◌++◌ as ◌<>◌}
use pg_que.Base.{
  ℕ, ◌+◌, String, Bool, true, false, Option, none, some, List, [], ◌∷◌, ◌&&◌, str_eq, ◌==◌, ltb,
  if◌then◌else◌,
}
use pg_que.Base.Texts.{show}
use pg_que.Value.{Value, null, str, nat, opaque, optional_text}
use pg_que.Errors.{DbError, Exn, database}
use pg_que.Exec.{Result, ok, err, Exec, pure, raise, lift, ◌>>=◌, ◌>>◌}
use pg_que.Server.BatchSql.{Event, batch_event_sql}
use pg_que.Server.Tables.{
  Db, Subscription, Tick, Role, is_main, is_member, is_normal, exists, update, named, holder,
  same_key, tick_of, next_tick,
}

-- `raise exception`, whose SQLSTATE is P0001 unless `errcode` says otherwise
abbrev pub exception : String → String → Option String → Exn
exception text sqlstate hint = database (record {
  text = text;
  sqlstate = some sqlstate;
  diag = some (record { message_primary = some text; message_hint = hint });
  operational = false;
})

abbrev pub raise_exception : {A : Type 0} → String → Exec Db A
raise_exception text = raise (exception text "P0001" none)

-- Some cooperative member belongs to the main consumer's subscription.
abbrev pub has_members : Db → Subscription → Bool
has_members db s =
    exists (λ x. x.sub_queue == s.sub_queue && (x.sub_id == s.sub_id && is_member x.sub_role))
      db.subscriptions

-- The last part of `next_batch_custom`: the batch ends at `cur`.
unfoldable pub open_batch : Subscription → Tick → Exec Db (Option ℕ)
open_batch s cur db =
    let batch_id = db.batch_id_seq + 1 in
    (
      ok (some batch_id),
      record db {
        batch_id_seq = batch_id;
        subscriptions =
            update (λ t. same_key s t && is_normal t.sub_role)
              (λ t. record t {
                sub_batch = some batch_id;
                sub_next_tick = some (cur.tick_id);
                sub_active = db.now;
              })
              db.subscriptions;
      },
    )

-- `next_batch_custom` without limits, from the row of the subscription on.
unfoldable pub next_batch_of : String → String → Subscription → Exec Db (Option ℕ)
next_batch_of queue consumer s db =
    if is_main s.sub_role && has_members db s
    then raise_exception
        ("consumer " <> consumer <> " on queue " <> queue
          <> " is a cooperative main consumer; use cooperative receive/next_batch with a subconsumer")
        db
    else if is_member s.sub_role
    then raise_exception
        ("consumer " <> consumer <> " on queue " <> queue
          <> " is a cooperative subconsumer; use receive_coop / next_batch (cooperative form) instead of the legacy 5-arg next_batch_custom")
        db
    else elim (tick_of db s.sub_queue s.sub_last_tick) [
      | none ↦
          raise_exception
            ("PgQ corruption: Consumer " <> consumer <> " on queue " <> queue
              <> " does not see tick <NULL>")
            db
      | some prev ↦ elim s.sub_batch [
        | some batch_id ↦ (ok (some batch_id), db)
        | none ↦ elim (next_tick db s.sub_queue prev.tick_id) [
          | none ↦ (ok none, db)
          | some cur ↦ open_batch s cur db
        ]
      ]
    ]

unfoldable pub next_batch : String → String → Exec Db (Option ℕ)
next_batch queue consumer db = elim (named db queue consumer) [
  | none ↦ raise_exception ("Not subscriber to queue: " <> queue <> "/" <> consumer) db
  | some s ↦ next_batch_of queue consumer s db
]

-- The rows of the batch of a subscription, if both of its ticks are there.
unfoldable pub rows_of : Db → Subscription → Option (List Event)
rows_of db s = elim (tick_of db s.sub_queue s.sub_last_tick) [
  | none ↦ none
  | some last ↦ elim (tick_of db s.sub_queue s.sub_next_tick) [
    | none ↦ none
    | some cur ↦
        some (batch_event_sql s.sub_id last.tick_snapshot cur.tick_snapshot (db.events s.sub_queue))
  ]
]

-- The rows of a batch, or none if the look-up at the start of `batch_event_sql` finds nothing.
unfoldable pub batch_rows : Db → ℕ → Option (List Event)
batch_rows db batch_id = elim (holder db batch_id) [ none ↦ none | some s ↦ rows_of db s ]

unfoldable pub get_batch_events : ℕ → Exec Db (List Event)
get_batch_events batch_id db = elim (batch_rows db batch_id) [
  | none ↦ raise_exception "batch not found" db
  | some evs ↦ (ok evs, db)
]

-- The update of a subscription whose batch is finished.
abbrev pub finished : ℕ → Subscription → Subscription
finished now t = record t {
  sub_active = now;
  sub_last_tick = t.sub_next_tick;
  sub_next_tick = none;
  sub_batch = none;
}

-- `_clear_member_cursor`
abbrev pub cleared : ℕ → Subscription → Subscription
cleared now t = record t {
  sub_active = now;
  sub_last_tick = none;
  sub_next_tick = none;
  sub_batch = none;
}

-- `finish_batch`; its warning is not modelled.
unfoldable pub finish_batch : ℕ → Exec Db ℕ
finish_batch batch_id db = elim (holder db batch_id) [
  | none ↦ (ok 0, db)
  | some s ↦ elim s.sub_role [
    | Role.coop_main ↦
        raise_exception
          ("cannot finish cooperative main consumer batch "
            <> show batch_id
            <> " as normal active consumer")
          db
    | Role.coop_member ↦
        (ok 1, record db { subscriptions = update (same_key s) (cleared db.now) db.subscriptions })
    | Role.normal ↦
        (ok 1, record db { subscriptions = update (same_key s) (finished db.now) db.subscriptions })
  ]
]

abbrev pub optional_nat : Option ℕ → Value
optional_nat none = null
optional_nat (some n) = nat n

-- A row of type `pgque.message`, as psycopg returns it: a time becomes some other object.
abbrev pub message_row : ℕ → Event → List Value
message_row batch_id ev =
    nat ev.ev_id
    ∷ nat batch_id
    ∷ optional_text ev.ev_type
    ∷ optional_text ev.ev_data
    ∷ optional_nat ev.ev_retry
    ∷ opaque ev.ev_time
    ∷ optional_text ev.ev_extra1
    ∷ optional_text ev.ev_extra2
    ∷ optional_text ev.ev_extra3
    ∷ optional_text ev.ev_extra4
    ∷ []

abbrev pub overflow : ℕ → Exn
overflow max_return =
    exception ("pgque.receive: batch exceeds max_return of " <> show max_return) "54000" (
      some
        "Retry with a larger resource-safe max_return to receive the complete batch. Do not acknowledge after this error.")

-- The loop of `receive`, with `cnt` rows returned so far.
unfoldable pub yield_messages : ℕ → ℕ → ℕ → List Event → Result (List (List Value))
yield_messages batch_id max_return cnt [] = ok []
yield_messages batch_id max_return cnt (ev ∷ evs) =
    let rest = yield_messages batch_id max_return (cnt + 1) evs in
    if cnt == max_return
    then err (overflow max_return)
    else elim rest [ err e ↦ err e | ok rows ↦ ok (message_row batch_id ev ∷ rows) ]

-- `receive`, once it has its batch: an empty one is finished at once.
unfoldable pub receive_batch : ℕ → ℕ → Exec Db (List (List Value))
receive_batch batch_id max_return = do
  evs ← get_batch_events batch_id
  rows ← lift (yield_messages batch_id max_return 0 evs)
  elim evs [ [] ↦ finish_batch batch_id >> pure rows | ev ∷ rest ↦ pure rows ]

unfoldable pub receive : String → String → ℕ → Exec Db (List (List Value))
receive queue consumer max_return =
    if ltb max_return 1
    then raise_exception ("pgque.receive: max_return must be >= 1, got " <> show max_return)
    else (do
      batch ← next_batch queue consumer
      elim batch [ none ↦ pure [] | some batch_id ↦ receive_batch batch_id max_return ])

-- `ack`
unfoldable pub ack : ℕ → Exec Db ℕ
ack batch_id = finish_batch batch_id
