-- ===== src/Examples/Steps.antt =====
-- A publication and a tick at the server of Examples/Servers.
use mathlib.Core.List.{Mem, Permᴰ}
use pg_que.Base.{
  ℕ, ◌≡◌, ◌+◌, ◌*◌, refl, false, none, some, [], ◌∷◌, ltb, Bool-cases, inl, inr, ◌==◌, arith,
}
use pg_que.Base.Selections.{select}
use pg_que.Exec.{ok}
use pg_que.Server.Snapshots.{IsSnapshot}
use pg_que.Server.BatchSql.Partition.{IsLater, batches, last_of}
use pg_que.Server.BatchSql.{batch_event_sql}
use pg_que.Server.BatchSql.Selected.{between}
use pg_que.Server.Tables.{Db, Tick, next_value, tick_of}
use pg_que.Server.Events.{insert_event, event_row}
use pg_que.Server.Ticks.{ticks_of, ticker, force_tick, newest, new_tick, id_of}
use pg_que.Server.Queues.{create_queue}
use pg_que.Server.Registration.{register_consumer_at}
use pg_que.Server.Steps.{
  Call, perform, Transaction, MayBegin, begun, Reach, calls, begins, here, next, installed,
}
use pg_que.Server.Steps.Valid.{IsValid, Descends, same}
use pg_que.Server.Steps.Reached.{installed-IsValid}
use pg_que.Server.Steps.Settled.{batch_stays, snapshots, ticks-batches-Permᴰ}
use pg_que.Server.Steps.Forced.{IsTicking, force_tick_ticks}
use pg_que.Server.Steps.Published.{new_event, published-delivered}
use pg_que.Examples.Servers.{db, first_tick, second_tick, orders, earlier, later, latest}
use pg_que.Examples.Batches.{earlier_is_snapshot, later_is_snapshot, seen_stays}
use pg_que.Examples.Served.{served}

latest_is_snapshot : IsSnapshot latest
latest_is_snapshot = record {
  bounds = omega arith;
  running = ((omega arith, omega arith), tt);
  documented = λ txid. ground arith;
}

later-latest : IsLater later latest
later-latest = record { begun = omega arith; stays = λ txid h. ground arith }

earlier-later : IsLater earlier later
earlier-later = record { begun = omega arith; stays = seen_stays }

in_order :
    (queue : ℕ) → Descends (next_value (db.tick_seq queue)) db.snapshot (ticks_of queue db.ticks)
unfolding ticks_of select
in_order queue = elim (Bool-cases (1 == queue)) [
  | inl own ↦ rw own (
    omega arith,
    later_is_snapshot,
    later-latest,
    (omega arith, earlier_is_snapshot, earlier-later, tt),
  )
  | inr other ↦ rw other tt
]

pub db-IsValid : IsValid db db
unfolding select
db-IsValid = record {
  drawn = ((λ b h. absurd (cc)), tt);
  own_batch = λ b. omega arith;
  own_row = λ queue consumer. ground arith;
  own_retry = λ owner id. omega arith;
  current = latest_is_snapshot;
  running = refl;
  in_order = in_order;
  counted = (omega arith, (omega arith, tt));
  since = record { begun = omega arith; stays = λ txid h. h };
  added = λ queue. same;
  old_ticks = λ queue id t h. h;
  known_queues = (omega arith, tt);
  known_ticks = (omega arith, (omega arith, tt));
  called = (refl, tt);
}

-- Transaction 15 publishes, and transaction 16 ticks, for which 15 has been committed.
abbrev publish : Call
publish = Call.insert_event "orders" (some "good") (some "{}") none none none none

abbrev published : Db
published = (insert_event "orders" (some "good") (some "{}") none none none none db).1

abbrev tick : Transaction
tick = record {
  now = 5000;
  xid = 16;
  snapshot = record { xmin = 16; xmax = 17; xip = 16 ∷ []; sees = λ txid. ltb txid 16 };
  is_replica = false;
}

may_begin : MayBegin published tick
unfolding served
may_begin = record {
  is = record {
    bounds = omega arith;
    running = ((omega arith, omega arith), tt);
    documented = λ txid. ground arith;
  };
  later = record { begun = omega arith; stays = λ txid h. ground arith };
  running = refl;
}

abbrev ticked : Db
ticked = (ticker "orders" (begun tick published)).1

publishes : perform publish db ≡ some published
unfolding served
publishes = refl

ticks : perform (Call.ticker "orders") (begun tick published) ≡ some ticked
unfolding served
ticks = refl

reached : Reach db ticked
reached =
    next (next (next here (calls publish publishes)) (begins tick may_begin refl))
      (calls (Call.ticker "orders") ticks)

-- From a new installation: transaction 7 creates a queue, and transaction 8 registers a consumer.
abbrev begins_at : ℕ → Transaction
begins_at xid = record {
  now = 100 * xid;
  xid = xid;
  snapshot = record { xmin = xid; xmax = xid + 1; xip = xid ∷ []; sees = λ txid. ltb txid xid };
  is_replica = false;
}

begins_at-IsSnapshot : (xid : ℕ) → IsSnapshot (begins_at xid).snapshot
begins_at-IsSnapshot xid = record {
  bounds = omega arith;
  running = ((omega arith, omega arith), tt);
  documented = λ txid. ground arith;
}

abbrev created : Db
created = (create_queue "orders" (installed (begins_at 7))).1

creates : perform (Call.create_queue "orders") (installed (begins_at 7)) ≡ some created
unfolding served
creates = refl

registrable : MayBegin created (begins_at 8)
unfolding served
registrable = record {
  is = begins_at-IsSnapshot 8;
  later = record { begun = omega arith; stays = λ txid h. ground arith };
  running = refl;
}

abbrev registered : Db
registered = (register_consumer_at "orders" "worker" none (begun (begins_at 8) created)).1

registers :
    perform (Call.register_consumer_at "orders" "worker" none) (begun (begins_at 8) created)
    ≡ some registered
unfolding served
registers = refl

installed-IsValid_example : IsValid registered registered
installed-IsValid_example =
    installed-IsValid (begins_at 7) (begins_at-IsSnapshot 7) refl registered (
      next
        (next (next here (calls (Call.create_queue "orders") creates))
          (begins (begins_at 8) registrable refl))
        (calls (Call.register_consumer_at "orders" "worker" none) registers))

first_there : tick_of db 1 (some 1) ≡ some first_tick
unfolding served
first_there = refl

second_there : tick_of db 1 (some 2) ≡ some second_tick
unfolding served
second_there = refl

batch_stays_example :
    (tick_of ticked 1 (some 1) ≡ some first_tick)
    × (tick_of ticked 1 (some 2) ≡ some second_tick)
    × Permᴰ
        (batch_event_sql 1 earlier later (ticked.events 1))
        (batch_event_sql 1 earlier later (db.events 1))
batch_stays_example =
    batch_stays db ticked db-IsValid reached 1 1 1 2 first_tick second_tick (omega arith)
      first_there second_there

ticks-batches-Permᴰ_example :
    Permᴰ
      (batches 1 earlier (snapshots (second_tick ∷ [])) (db.events 1))
      (select (between 1 earlier (last_of earlier (snapshots (second_tick ∷ [])))) (db.events 1))
ticks-batches-Permᴰ_example =
    ticks-batches-Permᴰ db db-IsValid 1 1 1 first_tick (2 ∷ []) (second_tick ∷ []) first_there
      (omega arith, second_there, tt)

orders_ticks : IsTicking db "orders" orders
orders_ticks = record { there = refl; own = refl; awake = refl }

force_tick_ticks_example :
    (forced : Db) × (force_tick "orders" db ≡ (ok (id_of (newest (ticks_of 1 db.ticks))), forced))
    × (ticker "orders" forced ≡ (ok (some 3), new_tick orders forced))
force_tick_ticks_example = force_tick_ticks "orders" orders db db-IsValid orders_ticks

is_published :
    insert_event "orders" (some "good") (some "{}") none none none none db ≡ (ok 4, published)
unfolding served
is_published = refl

from_published : Reach published ticked
from_published = next (next here (begins tick may_begin refl)) (calls (Call.ticker "orders") ticks)

abbrev third_tick : Tick
third_tick = record {
  tick_queue = 1;
  tick_id = 3;
  tick_time = 5000;
  tick_snapshot = tick.snapshot;
  tick_event_seq = 4;
}

second_still_there : tick_of ticked 1 (some 2) ≡ some second_tick
unfolding served
second_still_there = refl

third_there : tick_of ticked 1 (some 3) ≡ some third_tick
unfolding served
third_there = refl

published-delivered_example :
    Mem
      (event_row 15 4 (new_event 1000 (some "good") (some "{}") none none none none))
      (batches 1 later (tick.snapshot ∷ []) (ticked.events 1))
published-delivered_example =
    published-delivered db db-IsValid "orders" orders (some "good") (some "{}") none none none none
      4 published ticked is_published from_published refl 1 2 second_tick (3 ∷ []) (third_tick ∷ [])
      second_still_there (omega arith, third_there, tt) refl refl
