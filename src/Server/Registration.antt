-- ===== src/Server/Registration.antt =====
-- Consumers of a queue in sql/pgque.sql: `register_consumer_at`, `register_consumer` and
-- `unregister_consumer`.
use pg_que.Base.{
  ℕ, ◌+◌, String, Bool, true, false, Option, none, some, List, ◌∷◌, ◌&&◌, not, str_eq, ◌==◌, length,
  ltb, if◌then◌else◌,
}
use Prim.Native.String.{◌++◌ as ◌<>◌}
use pg_que.Base.Texts.{show}
use pg_que.Base.Selections.{select}
use pg_que.Exec.{ok, Exec}
use pg_que.Server.Tables.{Db, Subscription, Role, is_main, is_member, find, exists, update, named}
use pg_que.Server.Batches.{raise_exception}
use pg_que.Server.Ticks.{newest, ticks_of, queue_named, id_of}

-- The consumer's id, and the tables with the consumer in them.
unfoldable pub consumer_of : String → Db → ℕ × Db
consumer_of consumer db = elim (find (λ c. str_eq c.co_name consumer) db.consumers) [
  | some c ↦ (c.co_id, db)
  | none ↦ (
    db.co_id_seq + 1,
    record db {
      co_id_seq = db.co_id_seq + 1;
      consumers = record { co_id = db.co_id_seq + 1; co_name = consumer } ∷ db.consumers;
    },
  )
]

-- `where sub_consumer = ... and sub_queue = ...`
abbrev pub is_row : ℕ → ℕ → Subscription → Bool
is_row queue consumer s = s.sub_queue == queue && s.sub_consumer == consumer

-- The row of a new registration, from a tick on.
abbrev pub new_row : ℕ → ℕ → ℕ → Db → Subscription
new_row queue consumer tick db = record {
  sub_id = db.sub_id_seq + 1;
  sub_queue = queue;
  sub_consumer = consumer;
  sub_role = Role.normal;
  sub_last_tick = some tick;
  sub_active = db.now;
  sub_batch = none;
  sub_next_tick = none;
}

unfoldable pub register : ℕ → ℕ → ℕ → Db → Db
register queue consumer tick db = record db {
  sub_id_seq = db.sub_id_seq + 1;
  subscriptions = new_row queue consumer tick db ∷ db.subscriptions;
}

-- The change of a registration that is there already, if a tick is asked for.
abbrev pub repositioned : ℕ → ℕ → Subscription → Subscription
repositioned now tick s = record s {
  sub_last_tick = some tick;
  sub_batch = none;
  sub_next_tick = none;
  sub_active = now;
}

unfoldable pub reposition : ℕ → ℕ → Option ℕ → Db → Db
reposition queue consumer none db = db
reposition queue consumer (some tick) db = record db {
  subscriptions = update (is_row queue consumer) (repositioned db.now tick) db.subscriptions;
}

-- The tick to start from.
abbrev pub start_tick : Db → ℕ → Option ℕ → Option ℕ
start_tick db queue none = id_of (newest (ticks_of queue db.ticks))
start_tick db queue (some tick) = some tick

-- Is there such a tick, if one is asked for?
abbrev pub has_tick : Db → ℕ → Option ℕ → Bool
has_tick db queue none = true
has_tick db queue (some tick) = exists (λ t. t.tick_queue == queue && t.tick_id == tick) db.ticks

abbrev pub shown : Option ℕ → String
shown none = ""
shown (some n) = show n

-- From the ids of the queue and the consumer on.
unfoldable pub register_row : ℕ → ℕ → Option ℕ → Exec Db ℕ
register_row queue consumer tick_pos db =
    if not (has_tick db queue tick_pos)
    then raise_exception ("cannot reposition, tick not found: " <> shown tick_pos) db
    else if exists (is_row queue consumer) db.subscriptions
    then (ok 0, reposition queue consumer tick_pos db)
    else elim (start_tick db queue tick_pos) [
      | none ↦ raise_exception "No ticks for this queue.  Please run ticker on database." db
      | some tick ↦ (ok 1, register queue consumer tick db)
    ]

unfoldable pub register_consumer_at : String → String → Option ℕ → Exec Db ℕ
register_consumer_at queue consumer tick_pos db = elim (queue_named db queue) [
  | none ↦ raise_exception "Event queue not created yet" db
  | some q ↦ let (id, db') = consumer_of consumer db in register_row q.queue_id id tick_pos db'
]

unfoldable pub register_consumer : String → String → Exec Db ℕ
register_consumer queue consumer = register_consumer_at queue consumer none

abbrev pub has_id : ℕ → Subscription → Bool
has_id sub_id s = s.sub_id == sub_id

abbrev pub is_active : Subscription → Bool
is_active s = elim s.sub_batch [ none ↦ false | some batch_id ↦ true ]

abbrev pub delete {ℓ} : {A : Type ℓ} → (A → Bool) → List A → List A
delete p xs = select (λ x. not (p x)) xs

-- The consumer goes with its last subscription, and its dead letters with it.
unfoldable pub drop_consumer : ℕ → Db → Db
drop_consumer consumer db =
    if exists (λ s. s.sub_consumer == consumer) db.subscriptions then db else record db {
      consumers = delete (λ c. c.co_id == consumer) db.consumers;
      dead_letter = delete (λ d. d.dl_consumer_id == consumer) db.dead_letter;
    }

-- The main row is a normal one again, once it has no members.
unfoldable pub demote : ℕ → Db → Db
demote sub_id db =
    if exists (λ s. s.sub_id == sub_id && is_member s.sub_role) db.subscriptions
    then db
    else record db {
      subscriptions =
          update (λ s. s.sub_id == sub_id && is_main s.sub_role)
            (λ s. record s { sub_role = Role.normal; sub_active = db.now }) db.subscriptions;
    }

-- `unregister_consumer`, for a cooperative member.
unfoldable pub unregister_member : Subscription → Exec Db ℕ
unregister_member s db =
    let own = λ (x : Subscription). x.sub_id == s.sub_id && x.sub_consumer == s.sub_consumer in
    if exists (λ x. own x && is_active x) db.subscriptions
    then raise_exception
        "cannot unregister active cooperative subconsumer without forced batch handling" db
    else (
      ok 1,
      demote s.sub_id (
          drop_consumer s.sub_consumer (record db { subscriptions = delete own db.subscriptions })),
    )

-- `unregister_consumer`, for the other subscriptions, with the number of rows of its id.
unfoldable pub unregister_main : Subscription → ℕ → Exec Db ℕ
unregister_main s count db =
    if is_main s.sub_role
      && exists (λ x. x.sub_id == s.sub_id && is_member x.sub_role) db.subscriptions
    then raise_exception "cannot unregister cooperative main consumer with registered subconsumers"
        db
    else if exists (λ x. x.sub_id == s.sub_id && (is_member x.sub_role && is_active x))
        db.subscriptions
    then raise_exception "cannot unregister cooperative consumer with active subconsumer batches" db
    else (
      ok count,
      drop_consumer s.sub_consumer (record db {
        retry_queue = delete (λ r. r.ev_owner == s.sub_id) db.retry_queue;
        subscriptions = delete (has_id s.sub_id) db.subscriptions;
      }),
    )

unfoldable pub unregister_consumer : String → String → Exec Db ℕ
unregister_consumer queue consumer db = elim (named db queue consumer) [
  | none ↦ (ok 0, db)
  | some s ↦
      let count = length (select (has_id s.sub_id) db.subscriptions) in
      if ltb 1 count && is_member s.sub_role
      then unregister_member s db
      else unregister_main s count db
]
